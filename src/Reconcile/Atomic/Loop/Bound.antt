-- ===== src/Reconcile/Atomic/Loop/Bound.antt =====
-- The rounds of AtomicRelease.Reconcile: how they are connected, and why they end
-- (internal/reconcile/atomic_release.go).
use helm_controller.Base.{
  ℕ, zero, suc, ◌+◌, ◌<◌, ◌≡◌, refl, String, Bool, false, ◌||◌, List, [], ◌∷◌, ◌++◌, some, arith,
  if◌then◌else◌,
}
use helm_controller.External.Cluster.{Env, Result, ok, err}
use helm_controller.Reconcile.Request.{
  Request, Run, ReconcilerType, type_release, type_test, type_unlock, type_drift_correction,
  contains, same_reconciler,
}
use helm_controller.Reconcile.Actions.{Action, Exit, done, failed, panicked, type_of}
use helm_controller.Reconcile.State.{ReleaseState}
use helm_controller.Reconcile.Atomic.Choose.{Next, nothing, run, refuse}
use helm_controller.Reconcile.Atomic.Loop.{
  Round, return, again, must_continue, must_stop, round, loop, reconcile, retry_after_interval,
  must_requeue, stalled_exceeded, refused_exit, must_continue_exit, must_stop_exit,
  failed_action_exit, patch_progress, after_action, start_action, perform, follow, determined,
}

-- How often each type is noted as performed, over the types that let the loop go on.
pub contains-snoc :
    (previous : List ReconcilerType) (t u : ReconcilerType)
    → contains (previous ++ t ∷ []) u ≡ (contains previous u || same_reconciler t u)
unfolding contains
contains-snoc [] t u = ground arith
contains-snoc (p ∷ ps) t u = ground (arith, contains-snoc ps t u)

abbrev missing : List ReconcilerType → ReconcilerType → ℕ
missing previous t = if contains previous t then 0 else 1

-- The number of action types that can still let the loop go on.
unfoldable pub remaining : List ReconcilerType → ℕ
remaining previous =
    missing previous type_release
    + missing previous type_test
    + missing previous type_unlock
    + missing previous type_drift_correction

pub remaining-snoc :
    (previous : List ReconcilerType) (t : ReconcilerType)
    → contains previous t ≡ false
    → must_stop t ≡ false
    → remaining (previous ++ t ∷ []) < remaining previous
unfolding remaining must_stop
remaining-snoc previous t f g = ground (
  arith,
  contains-snoc previous t type_release,
  contains-snoc previous t type_test,
  contains-snoc previous t type_unlock,
  contains-snoc previous t type_drift_correction,
)

module _ (E : Env) (default_to_retry_on_failure : Bool) (field_manager : String)
    (disallowed_field_managers : List String) (req : Request) where
  after_action-again :
      (a : Action) (st st' : Run E.World) (exit : Exit) (t : ReconcilerType)
      → after_action E default_to_retry_on_failure field_manager disallowed_field_managers req a st
          exit
        ≡ again st' t
      → (t ≡ type_of a) × (must_stop (type_of a) ≡ false)
  unfolding after_action must_stop_exit stalled_exceeded failed_action_exit patch_progress
      retry_after_interval must_requeue
  after_action-again a st st' panicked t e = cc
  after_action-again a st st' (failed x) t e = ground arith
  after_action-again a st st' done t e = ground arith

  start_action-again :
      (a : Action) (st st' : Run E.World) (t : ReconcilerType)
      → start_action E default_to_retry_on_failure field_manager disallowed_field_managers req a st
        ≡ again st' t
      → (t ≡ type_of a) × (must_stop (type_of a) ≡ false)
  unfolding start_action
  start_action-again a st st' t e = grind (arith, after_action-again)

  perform-again :
      (previous : List ReconcilerType) (a : Action) (st st' : Run E.World) (t : ReconcilerType)
      → perform E default_to_retry_on_failure field_manager disallowed_field_managers req previous a
          st
        ≡ again st' t
      → (contains previous t ≡ false) × (must_stop t ≡ false)
  unfolding perform must_continue must_continue_exit retry_after_interval must_requeue
  perform-again previous a st st' t e = ground (arith, start_action-again a st st' t)

  follow-again :
      (previous : List ReconcilerType) (next : Next) (st st' : Run E.World) (t : ReconcilerType)
      → follow E default_to_retry_on_failure field_manager disallowed_field_managers req previous
          next st
        ≡ again st' t
      → (contains previous t ≡ false) × (must_stop t ≡ false)
  unfolding follow refused_exit stalled_exceeded
  follow-again previous (refuse x) st st' t e = ground arith
  follow-again previous nothing st st' t e = cc
  follow-again previous (run a) st st' t e = perform-again previous a st st' t e

  determined-again :
      (previous : List ReconcilerType) (r : Result ReleaseState) (st st' : Run E.World)
      (t : ReconcilerType)
      → determined E default_to_retry_on_failure field_manager disallowed_field_managers req
          previous r st
        ≡ again st' t
      → (contains previous t ≡ false) × (must_stop t ≡ false)
  unfolding determined
  determined-again previous (err x) st st' t e = cc
  determined-again previous (ok state) st st' t e = grind (arith, follow-again)

  pub round-again :
      (previous : List ReconcilerType) (st st' : Run E.World) (t : ReconcilerType)
      → round E default_to_retry_on_failure field_manager disallowed_field_managers req previous st
        ≡ again st' t
      → (contains previous t ≡ false) × (must_stop t ≡ false)
  unfolding round
  round-again previous st st' t e = grind (arith, determined-again)

  loop_total :
      (fuel : ℕ) (previous : List ReconcilerType) (st : Run E.World)
      → remaining previous < fuel
      → (r : Run E.World × Exit) × (loop E default_to_retry_on_failure field_manager
            disallowed_field_managers req fuel previous st
          ≡ some r)
  unfolding loop
  loop_total zero previous st h = absurd (omega arith)
  loop_total (suc fuel) previous st h =
      step
        (round E default_to_retry_on_failure field_manager disallowed_field_managers req previous
          st)
        refl (λ next t smaller. loop_total fuel (previous ++ t ∷ []) next smaller)
    where
      step :
          (r : Round E.World)
          → round E default_to_retry_on_failure field_manager disallowed_field_managers req previous
              st
            ≡ r
          → ((next : Run E.World) (t : ReconcilerType)
              → remaining (previous ++ t ∷ []) < fuel
              → (x : Run E.World × Exit) × (loop E default_to_retry_on_failure field_manager
                    disallowed_field_managers req fuel
                    (previous ++ t ∷ [])
                    next
                  ≡ some x))
          → (x : Run E.World × Exit) × (loop E default_to_retry_on_failure field_manager
                disallowed_field_managers req
                (suc fuel)
                previous
                st
              ≡ some x)
      step (return end exit) e ih = ((end, exit), rw (e, loop) refl)
      step (again next t) e ih =
          let (fresh, goes_on) = round-again previous st next t e in
          let (x, done_x) = ih next t (omega (arith, remaining-snoc previous t fresh goes_on)) in
          (x, rw (e, loop) done_x)

  -- `Reconcile` always returns: whatever the Helm actions, the storage and the cluster do, five rounds
  -- of the loop are enough.
  pub reconcile_total :
      (st : Run E.World)
      → (r : Run E.World × Exit) × (reconcile E default_to_retry_on_failure field_manager
            disallowed_field_managers req st
          ≡ some r)
  unfolding reconcile
  reconcile_total st = loop_total 5 [] st (unfold remaining contains in omega arith)
