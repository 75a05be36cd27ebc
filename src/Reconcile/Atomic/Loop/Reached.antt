-- ===== src/Reconcile/Atomic/Loop/Reached.antt =====
-- The states that the loop of AtomicRelease.Reconcile goes through
-- (internal/reconcile/atomic_release.go).
use mathlib.Core.Option.{some_inj}
use helm_controller.Base.{
  ℕ, zero, suc, ◌+◌, ◌≤◌, ◌≡◌, ◌⊎◌, inl, inr, refl, ap, sym, ◌∙◌, Bool, true, false, String, List,
  [], ◌∷◌, ◌++◌, some, arith, length, length-append, if◌then◌else◌,
}
use helm_controller.External.Cluster.{Env}
use helm_controller.Reconcile.Request.{
  Request, Run, ReconcilerType, type_remediate, contains, count, same_reconciler,
}
use helm_controller.Reconcile.Actions.{Exit}
use helm_controller.Reconcile.Atomic.Loop.{Round, return, again, must_stop, round, loop, reconcile}
use helm_controller.Reconcile.Atomic.Loop.Bound.{
  round-again, remaining, remaining-snoc, contains-snoc,
}

count-snoc :
    (previous : List ReconcilerType) (t u : ReconcilerType)
    → count (previous ++ t ∷ []) u ≡ count previous u + (if same_reconciler t u then 1 else 0)
unfolding count
count-snoc [] t u = ground arith
count-snoc (p ∷ ps) t u = ground (arith, count-snoc ps t u)

count_of_not_contained :
    (previous : List ReconcilerType) (t : ReconcilerType)
    → contains previous t ≡ false
    → count previous t ≡ 0
unfolding count contains
count_of_not_contained [] t h = refl
count_of_not_contained (p ∷ ps) t h = ground (arith, count_of_not_contained ps t)

same_reconciler_eq : (t u : ReconcilerType) → same_reconciler t u ≡ true → t ≡ u
same_reconciler_eq t u e = ground arith

fresh_count :
    (previous : List ReconcilerType) (u t : ReconcilerType)
    → contains previous u ≡ false
    → same_reconciler u t ≡ true
    → count previous t ≡ 0
fresh_count previous u t h e =
    ap (count previous) (sym (same_reconciler_eq u t e)) ∙ count_of_not_contained previous u h

pub Round-cases :
    {World : Type 0} (r : Round World)
    → ((end : Run World) × (exit : Exit) × (r ≡ return end exit))
      ⊎ ((st : Run World) × (t : ReconcilerType) × (r ≡ again st t))
Round-cases (return end exit) = inl (end, exit, refl)
Round-cases (again st t) = inr (st, t, refl)

module _ (E : Env) (default_to_retry_on_failure : Bool) (field_manager : String)
    (disallowed_field_managers : List String) (req : Request) where
  -- What a run of the loop from `start` may have come to: the types of the actions that were
  -- performed, in their order, and the state after them.
  pub data Reached (start : Run E.World) : List ReconcilerType → Run E.World → Type 0 where
    begin : Reached start [] start
    next :
        (previous : List ReconcilerType) (st st' : Run E.World) (t : ReconcilerType)
        → Reached start previous st
        → round E default_to_retry_on_failure field_manager disallowed_field_managers req previous
            st
          ≡ again st' t
        → Reached start (previous ++ t ∷ []) st'

  Reached-distinct :
      (start st : Run E.World) (previous : List ReconcilerType)
      → Reached start previous st
      → (t : ReconcilerType) → count previous t ≤ 1
  Reached-distinct start st [] begin t = unfold count in omega arith
  Reached-distinct start end l (next p st st' u r e) t =
      let (fresh, on) =
        round-again E default_to_retry_on_failure field_manager disallowed_field_managers req p st
          st' u e in
      ground (arith, Reached-distinct start st p r t, count-snoc p u t, fresh_count p u t fresh)

  Reached-not_remediated :
      (start st : Run E.World) (previous : List ReconcilerType)
      → Reached start previous st
      → contains previous type_remediate ≡ false
  unfolding must_stop
  Reached-not_remediated start st [] begin = unfold contains in refl
  Reached-not_remediated start end l (next p st st' u r e) =
      let (fresh, on) =
        round-again E default_to_retry_on_failure field_manager disallowed_field_managers req p st
          st' u e in
      ground (arith, Reached-not_remediated start st p r, contains-snoc p u type_remediate, on)

  Reached-remaining :
      (start st : Run E.World) (previous : List ReconcilerType)
      → Reached start previous st
      → length previous + remaining previous ≤ 4
  Reached-remaining start st [] begin = unfold remaining contains in omega arith
  Reached-remaining start end l (next p st st' u r e) =
      let (fresh, on) =
        round-again E default_to_retry_on_failure field_manager disallowed_field_managers req p st
          st' u e in
      omega (
        arith,
        Reached-remaining start st p r,
        remaining-snoc p u fresh on,
        length-append p (u ∷ []),
      )

  -- The actions that a run of the loop performs before its last round are of different types, none of
  -- them is a remediation, and they are at most four.
  pub Reached_lem :
      (start st : Run E.World) (previous : List ReconcilerType)
      → Reached start previous st
      → ((t : ReconcilerType) → count previous t ≤ 1)
        × (contains previous type_remediate ≡ false)
        × (length previous ≤ 4)
  Reached_lem start st previous r = (
    Reached-distinct start st previous r,
    Reached-not_remediated start st previous r,
    omega (arith, Reached-remaining start st previous r),
  )

  loop-Reached :
      (fuel : ℕ) (start st : Run E.World) (previous : List ReconcilerType) (end : Run E.World)
      (exit : Exit)
      → Reached start previous st
      → loop E default_to_retry_on_failure field_manager disallowed_field_managers req fuel previous
          st
        ≡ some (end, exit)
      → (performed : List ReconcilerType) × (last : Run E.World) × Reached start performed last
        × (round E default_to_retry_on_failure field_manager disallowed_field_managers req performed
              last
            ≡ return end exit)
  unfolding loop
  loop-Reached zero start st previous end exit r e = absurd (ground arith)
  loop-Reached (suc fuel) start st previous end exit r e =
      elim (Round-cases (
        round E default_to_retry_on_failure field_manager disallowed_field_managers req previous
          st)) [
            | inl (end', exit', f) ↦
                let same : some (end', exit') ≡ some (end, exit) = rw (f, loop) at e in
                (previous, st, r, f ∙ ap (λ x. return x.0 x.1) (some_inj.0 same))
            | inr (st', t, f) ↦
                loop-Reached fuel start st' (previous ++ t ∷ []) end exit
                  (next previous st st' t r f) (rw (f, loop) at e)
          ]

  -- `Reconcile` is the loop of the source: its result is what the round returns in a state that
  -- the loop reaches.
  pub reconcile-Reached :
      (st end : Run E.World) (exit : Exit)
      → reconcile E default_to_retry_on_failure field_manager disallowed_field_managers req st
        ≡ some (end, exit)
      → (performed : List ReconcilerType) × (last : Run E.World) × Reached st performed last
        × (round E default_to_retry_on_failure field_manager disallowed_field_managers req performed
              last
            ≡ return end exit)
  unfolding reconcile
  reconcile-Reached st end exit e = loop-Reached 5 st st [] end exit begin e
