-- ===== src/Reconcile/Summary/Frame.antt =====
-- What the summary of the conditions leaves alone (internal/reconcile/release.go).
use helm_controller.Base.{◌≡◌, refl, ap, ◌∙◌, List, [], ◌∷◌, arith, Bool-cases, inl, inr}
use helm_controller.Api.Conditions.{Condition, test_success}
use helm_controller.Api.HelmRelease.{get_test}
use helm_controller.External.Cluster.{Env}
use helm_controller.Reconcile.Request.{Run, update_conditions, delete}
use helm_controller.Reconcile.Summary.{summarize_sorted, summarize}

-- The second state is the first with other conditions.
abbrev pub OnlyConditions : {World : Type 0} → Run World → Run World → Type 0
OnlyConditions st st' = update_conditions (λ _. st'.object.status.conditions) st ≡ st'

-- The object of the second run is that of the first with another status.
abbrev pub SameObject : {World : Type 0} → Run World → Run World → Type 0
SameObject st end = end.object ≡ record st.object { status = end.object.status }

pub SameObject-trans :
    {World : Type 0} (a b c : Run World) → SameObject a b → SameObject b c → SameObject a c
SameObject-trans a b c f g = ground arith

pub OnlyConditions-trans :
    {World : Type 0} (a b c : Run World)
    → OnlyConditions a b
    → OnlyConditions b c
    → OnlyConditions a c
OnlyConditions-trans a b c f g = ap (update_conditions (λ _. c.object.status.conditions)) f ∙ g

module _ (E : Env) where
  summarize_sorted_frame :
      (cs : List Condition) (st : Run E.World) → OnlyConditions st (summarize_sorted E cs st)
  unfolding summarize_sorted
  summarize_sorted_frame [] st = refl
  summarize_sorted_frame (c ∷ cs) st = ground arith

  -- `summarize` changes nothing but the conditions: the history, the counters, the storage and the
  -- events are as before.
  pub summarize_frame : (st : Run E.World) → OnlyConditions st (summarize E st)
  unfolding summarize
  summarize_frame st = elim (Bool-cases (get_test st.object).enable) [
    | inl e ↦ rw (e, summarize) (summarize_sorted_frame _ st)
    | inr e ↦
        let current = delete E test_success st in
        rw (e, summarize)
          (OnlyConditions-trans st current (summarize_sorted E _ current) refl
            (summarize_sorted_frame _ current))
  ]

  -- So the object is the same but for its status.
  pub summarize_same : (st : Run E.World) → SameObject st (summarize E st)
  summarize_same st =
      let kept = ap (λ (r : Run E.World). r.object) (summarize_frame st) in ground arith
