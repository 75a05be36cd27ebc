-- ===== src/Reconcile/Summary.antt =====
-- internal/reconcile/release.go: the summary of the conditions into Ready, and the digests of the
-- post-renderers and common metadata that are recorded as applied.
pub mod Absent
pub mod Ready
pub mod Frame
use helm_controller.Base.{
  ℕ, ◌≤◌, suc, String, Bool, true, false, not, ◌&&◌, List, [], ◌∷◌, Option, none, some, ltb, leb,
  Option-cases, deref, if◌then◌else◌,
}
use mathlib.Core.List.{reverse}
use helm_controller.Api.Conditions.{
  ConditionType, released, test_success, remediated, ready, stalled, same_type, ConditionStatus,
  condition_true, condition_false, Condition, status_code,
}
use helm_controller.Api.HelmRelease.{HelmRelease, get_test}
use helm_controller.External.Cluster.{Env}
use helm_controller.Reconcile.Request.{Run, update_status, update_conditions, delete}

-- The types that make up the summary, in the order of their priority.
unfoldable pub summary_conditions : HelmRelease → List ConditionType
summary_conditions obj =
    if (get_test obj).enable && not (get_test obj).ignore_failures
    then remediated ∷ test_success ∷ released ∷ []
    else remediated ∷ released ∷ []

-- inStringSlice of atomic_release.go: the position of the type, `none` for -1, false.
unfoldable pub position : List ConditionType → ConditionType → Option ℕ
position [] t = none
position (u ∷ us) t =
    let rest = position us t in
    if same_type u t then some 0 else elim rest [ none ↦ none | some n ↦ some (suc n) ]

unfoldable pub before_position : Condition → Condition → Option ℕ → Option ℕ → Bool
before_position ci cj none pj = false
before_position ci cj (some i) none = true
before_position ci cj (some i) (some j) =
    leb cj.observed_generation ci.observed_generation && ltb i j

-- The order that `summarize` sorts by.
unfoldable pub summary_less : List ConditionType → Condition → Condition → Bool
summary_less types ci cj = before_position ci cj (position types ci.type) (position types cj.type)

-- The insertion step of sort.SliceStable: `c` moves in front of its predecessors while it is less.
-- The sorted part is held in reverse. (The library sorts up to 20 elements this way.)
unfoldable pub insert_back : List ConditionType → Condition → List Condition → List Condition
insert_back types c [] = c ∷ []
insert_back types c (p ∷ ps) =
    if summary_less types c p then p ∷ insert_back types c ps else c ∷ p ∷ ps

unfoldable pub sort_back : List ConditionType → List Condition → List Condition → List Condition
sort_back types done [] = done
sort_back types done (c ∷ cs) = sort_back types (insert_back types c done) cs

unfoldable pub sort_conditions : List ConditionType → List Condition → List Condition
sort_conditions types cs = reverse (sort_back types [] cs)

abbrev pub is_status_true : ConditionStatus → Bool
is_status_true condition_true = true
is_status_true _ = false

module _ (E : Env) where
  -- The part of `summarize` behind the sort, on the sorted conditions.
  unfoldable pub summarize_sorted : List Condition → Run E.World → Run E.World
  summarize_sorted [] st = st
  summarize_sorted (c ∷ cs) st =
      let sorted = update_conditions (λ _. c ∷ cs) st in
      let status = if same_type c.type remediated then condition_false else c.status in
      let cleared = if is_status_true status then delete E stalled sorted else sorted in
      update_conditions
        (λ l. E.conditions.set st.object.generation l (record {
          type = ready;
          status = status;
          observed_generation = st.object.generation;
          last_transition_time = 0;
          reason = c.reason;
          message = c.message;
        }))
        cleared

  unfoldable pub summarize : Run E.World → Run E.World
  summarize st =
      let current = if not (get_test st.object).enable then delete E test_success st else st in
      summarize_sorted
        (sort_conditions (summary_conditions current.object) current.object.status.conditions)
        current

  unfoldable pub observe_post_renderers : Run E.World → Run E.World
  observe_post_renderers st =
      update_status
        (λ s. record s {
          observed_post_renderers_digest = elim (st.object.spec.post_renderers) [
            | none ↦ ""
            | some ps ↦ E.digests.post_renderers_digest E.digests.canonical ps
          ];
          observed_common_metadata_digest = elim (st.object.spec.common_metadata) [
            | none ↦ ""
            | some m ↦ E.digests.common_metadata_digest E.digests.canonical m
          ];
        })
        st
