-- ===== src/Reconcile/Summary/Ready.antt =====
-- Which condition the summary reports as Ready (internal/reconcile/release.go).
use mathlib.Core.Option.{some_inj}
use mathlib.Core.List.{reverse_aux, Memᴰ}
use helm_controller.Base.{
  ℕ, suc, ◌≤◌, ◌<◌, ◌≡◌, ◌⊎◌, refl, ap, sym, ◌∙◌, Bool, true, false, not, List, [], ◌∷◌, Option,
  none, some, ltb, ◌&&◌, arith, Bool-cases, inl, inr, All, if◌then◌else◌, head?, length,
}
use helm_controller.Api.Conditions.{
  Condition, ConditionType, same_type, condition_false, remediated, test_success, released, ready,
}
use helm_controller.Api.HelmRelease.{HelmRelease, get_test}
use helm_controller.External.Conditions.{outcome, ConditionsLaws, Outcome}
use helm_controller.External.Cluster.{Env}
use helm_controller.Reconcile.Request.{Run, delete}
use helm_controller.Reconcile.Summary.Absent.{All-insert_back}
use helm_controller.Reconcile.Summary.{
  summary_conditions, position, before_position, summary_less, insert_back, sort_back,
  sort_conditions, summarize_sorted, summarize,
}

-- The priority of a condition: the position of its type, or behind all of them.
unfoldable pub rank : List ConditionType → Condition → ℕ
rank [] c = 0
rank (t ∷ ts) c = let rest = rank ts c in if same_type t c.type then 0 else suc rest

-- Remediated, TestSuccess (where it counts), Released, and then all other types.
pub priority : Bool → ConditionType → ℕ
priority tests_count remediated = 0
priority true test_success = 1
priority true released = 2
priority true _ = 3
priority false released = 1
priority false _ = 2

-- Tests are enabled and their failures are not ignored.
abbrev pub tests_count : HelmRelease → Bool
tests_count obj = (get_test obj).enable && not (get_test obj).ignore_failures

rank-priority :
    (tests : Bool) (c : Condition) (t : ConditionType)
    → c.type ≡ t
    → rank
        (if tests then remediated ∷ test_success ∷ released ∷ [] else remediated ∷ released ∷ [])
        c
      ≡ priority tests t
unfolding rank priority
rank-priority true c remediated e = ground arith
rank-priority true c test_success e = ground arith
rank-priority true c released e = ground arith
rank-priority true c t e = ground arith
rank-priority false c remediated e = ground arith
rank-priority false c released e = ground arith
rank-priority false c t e = ground arith

rank-summary_conditions :
    (obj : HelmRelease) (c : Condition)
    → rank (summary_conditions obj) c ≡ priority (tests_count obj) c.type
unfolding summary_conditions
rank-summary_conditions obj c = rank-priority (tests_count obj) c c.type refl

position-rank :
    (types : List ConditionType) (c : Condition)
    → (position types c.type ≡ none) × (rank types c ≡ length types)
      ⊎ (position types c.type ≡ some (rank types c)) × (rank types c < length types)
unfolding position rank
position-rank [] c = inl (refl, refl)
position-rank (t ∷ ts) c = ground (arith, position-rank ts c)

-- Conditions of one generation are ordered by their priority.
less_rank :
    (types : List ConditionType) (c d : Condition)
    → c.observed_generation ≡ d.observed_generation
    → summary_less types c d ≡ ltb (rank types c) (rank types d)
unfolding summary_less before_position
less_rank types c d g = ground (arith, position-rank types c, position-rank types d)

abbrev last? : List Condition → Option Condition
last? [] = none
last? (c ∷ []) = some c
last? (c ∷ d ∷ ds) = last? (d ∷ ds)

last?-cons :
    (d : Condition) (cs : List Condition) (m : Condition)
    → last? cs ≡ some m
    → last? (d ∷ cs) ≡ some m
last?-cons d [] m e = absurd (ground arith)
last?-cons d (c ∷ cs) m e = e

module _ (types : List ConditionType) (g : ℕ) where
  -- The conditions that are not before `m`.
  abbrev NotBefore : Condition → Condition → Type 0
  NotBefore m c = (rank types m ≤ rank types c) × (c.observed_generation ≡ g)

  insert_back-last :
      (m c : Condition) (ds : List Condition)
      → NotBefore m m
      → c.observed_generation ≡ g
      → last? ds ≡ some m
      → All (NotBefore m) ds
      → last? (insert_back types c ds) ≡ some (if ltb (rank types c) (rank types m) then c else m)
  unfolding insert_back
  insert_back-last m c [] n gc e h = absurd (ground arith)
  insert_back-last m c (d ∷ []) n gc e h = ground (arith, less_rank types c d (gc ∙ sym h.0.1))
  insert_back-last m c (d ∷ d2 ∷ ds) n gc e h =
      let l = less_rank types c d (gc ∙ sym h.0.1) in
      elim (Bool-cases (summary_less types c d)) [
        | inl t ↦
            rw (t, insert_back)
              (last?-cons d (insert_back types c (d2 ∷ ds)) _
                (insert_back-last m c (d2 ∷ ds) n gc e h.1))
        | inr f ↦ rw (f, insert_back) (e ∙ ground arith)
      ]

  NotBefore-trans :
      (b m : Condition) (cs : List Condition)
      → rank types b ≤ rank types m
      → All (NotBefore m) cs
      → All (NotBefore b) cs
  NotBefore-trans b m [] h k = tt
  NotBefore-trans b m (c ∷ cs) h k = ((omega arith, k.0.1), NotBefore-trans b m cs h k.1)

  -- The back of the sorted conditions is of the best priority, the first such in their order.
  sort_back-last :
      (m : Condition) (ds cs : List Condition)
      → m.observed_generation ≡ g
      → last? ds ≡ some m
      → All (NotBefore m) ds
      → All (λ c. c.observed_generation ≡ g) cs
      → (b : Condition) × (last? (sort_back types ds cs) ≡ some b)
        × (rank types b ≤ rank types m)
        × All (NotBefore b) cs
        × ((b ≡ m) ⊎ Memᴰ b cs)
  unfolding sort_back
  sort_back-last m ds [] gm e h k = (m, e, omega arith, tt, inl refl)
  sort_back-last m ds (c ∷ cs) gm e h k =
      let back = insert_back-last m c ds (omega arith, gm) k.0 e h in
      elim (Bool-cases (ltb (rank types c) (rank types m))) [
        | inl t ↦
            let better : rank types c ≤ rank types m = ground arith in
            let (b, l, r, a, w) =
              sort_back-last c (insert_back types c ds) cs k.0 (rw t at back)
                (All-insert_back (NotBefore c) types c ds (omega arith, k.0)
                  (NotBefore-trans c m ds better h))
                k.1 in
            (
              b,
              l,
              omega arith,
              ((r, k.0), a),
              inr (elim w [ inl s ↦ Memᴰ.head s | inr i ↦ Memᴰ.tail i ]),
            )
        | inr f ↦
            let (b, l, r, a, w) =
              sort_back-last m (insert_back types c ds) cs gm (rw f at back)
                (All-insert_back (NotBefore m) types c ds (ground arith, k.0) h) k.1 in
            (
              b,
              l,
              r,
              ((ground arith, k.0), a),
              elim w [ inl s ↦ inl s | inr i ↦ inr (Memᴰ.tail i) ],
            )
      ]

  head?-reverse_aux :
      (ds done : List Condition) (b : Condition)
      → last? ds ≡ some b
      → head? (reverse_aux ds done) ≡ some b
  head?-reverse_aux [] done b e = absurd (ground arith)
  head?-reverse_aux (d ∷ []) done b e = e
  head?-reverse_aux (d ∷ d2 ∷ ds) done b e = head?-reverse_aux (d2 ∷ ds) (d ∷ done) b e

  -- The front of the sorted conditions.
  head?-sort_conditions :
      (c : Condition) (cs : List Condition)
      → All (λ d. d.observed_generation ≡ g) (c ∷ cs)
      → (b : Condition) × (head? (sort_conditions types (c ∷ cs)) ≡ some b)
        × All (NotBefore b) (c ∷ cs)
        × Memᴰ b (c ∷ cs)
  unfolding sort_conditions sort_back insert_back
  head?-sort_conditions c cs k =
      let (b, l, r, a, w) = sort_back-last c (c ∷ []) cs k.0 refl ((omega arith, k.0), tt) k.1 in
      (
        b,
        head?-reverse_aux (sort_back types (c ∷ []) cs) [] b l,
        ((r, k.0), a),
        elim w [ inl s ↦ Memᴰ.head s | inr i ↦ Memᴰ.tail i ],
      )

ranks_of :
    (types : List ConditionType) (g : ℕ) (b : Condition) (cs : List Condition)
    → All (NotBefore types g b) cs
    → All (λ c. rank types b ≤ rank types c) cs
ranks_of types g b [] h = tt
ranks_of types g b (c ∷ cs) h = (h.0.0, ranks_of types g b cs h.1)

priorities_of :
    (obj : HelmRelease) (b : Condition) (cs : List Condition)
    → All (λ c. rank (summary_conditions obj) b ≤ rank (summary_conditions obj) c) cs
    → All (λ c. priority (tests_count obj) b.type ≤ priority (tests_count obj) c.type) cs
priorities_of obj b [] h = tt
priorities_of obj b (c ∷ cs) h = (
  omega (arith, rank-summary_conditions obj b, rank-summary_conditions obj c, h.0),
  priorities_of obj b cs h.1,
)

-- The status, reason and message that Ready takes from a condition: Remediated makes it False.
abbrev pub ready_of : Condition → Outcome
ready_of c =
    (if same_type c.type remediated then condition_false else c.status, c.reason, c.message)

module _ (E : Env) (laws : ConditionsLaws E.conditions) where
  summarize_sorted-ready :
      (cs : List Condition) (st : Run E.World) (b : Condition)
      → head? cs ≡ some b
      → outcome ready (summarize_sorted E cs st).object.status.conditions ≡ some (ready_of b)
  unfolding summarize_sorted
  summarize_sorted-ready [] st b e = absurd (ground arith)
  summarize_sorted-ready (c ∷ cs) st b e =
      laws.set_self st.object.generation _ _ ∙ ap (λ x. some (ready_of x)) (some_inj.0 e)

  summary_conditions-current :
      (st : Run E.World) (b : Bool)
      → summary_conditions (if b then delete E test_success st else st).object
        ≡ summary_conditions st.object
  unfolding summary_conditions get_test
  summary_conditions-current st true = refl
  summary_conditions-current st false = refl

  -- The conditions that are summarized: TestSuccess is dropped where tests are disabled.
  abbrev pub summarized_conditions : Run E.World → List Condition
  summarized_conditions st =
      (if not (get_test st.object).enable
        then delete E test_success st
        else st).object.status.conditions

  -- Where there are conditions, all observed at one generation, `summarize` sets Ready to what a condition
  -- of the highest priority says, but to False if that is Remediated. Remediated comes before
  -- TestSuccess (where tests are enabled and their failures not ignored), that before Released, and
  -- all other types come last.
  pub summarize-ready :
      (st : Run E.World) (g : ℕ) (c : Condition) (cs : List Condition)
      → summarized_conditions st ≡ c ∷ cs
      → All (λ d. d.observed_generation ≡ g) (c ∷ cs)
      → (b : Condition) × Memᴰ b (c ∷ cs)
        × All
            (λ d. priority (tests_count st.object) b.type ≤ priority (tests_count st.object) d.type)
            (c ∷ cs)
        × (outcome ready (summarize E st).object.status.conditions ≡ some (ready_of b))
  unfolding summarize
  summarize-ready st g c cs e k =
      let types = summary_conditions st.object in
      let (b, h, a, m) = head?-sort_conditions types g c cs k in
      (
        b,
        m,
        priorities_of st.object b (c ∷ cs) (ranks_of types g b (c ∷ cs) a),
        summarize_sorted-ready _ _ b (
            ap (λ ts. head? (sort_conditions ts (summarized_conditions st)))
              (summary_conditions-current st (not (get_test st.object).enable))
            ∙ ap (λ l. head? (sort_conditions types l)) e
            ∙ h),
      )
