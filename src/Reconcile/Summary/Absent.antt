-- ===== src/Reconcile/Summary/Absent.antt =====
-- What the summary of the conditions does not add (internal/reconcile/release.go).
use mathlib.Core.List.{reverse_aux}
use helm_controller.Base.{
  ◌≡◌, refl, ap, ◌∙◌, subst, Bool, true, false, not, List, [], ◌∷◌, Option, none, some, arith,
  Bool-cases, inl, inr, All, if◌then◌else◌,
}
use helm_controller.Api.Conditions.{
  Condition, ConditionType, same_type, condition_false, remediated, test_success, ready, stalled,
}
use helm_controller.Api.HelmRelease.{get_test}
use helm_controller.External.Conditions.{find_type, outcome, ConditionsLaws, outcome_of}
use helm_controller.External.Cluster.{Env}
use helm_controller.Reconcile.Request.{Run, update_conditions, delete}
use helm_controller.Reconcile.Summary.{
  summary_conditions, insert_back, sort_back, sort_conditions, summarize_sorted, summarize,
  is_status_true,
}

module _ (P : Condition → Type 0) where
  All-reverse_aux : (xs ys : List Condition) → All P xs → All P ys → All P (reverse_aux xs ys)
  All-reverse_aux [] ys h k = k
  All-reverse_aux (x ∷ xs) ys h k = All-reverse_aux xs (x ∷ ys) h.1 (h.0, k)

  pub All-insert_back :
      (types : List ConditionType) (c : Condition) (cs : List Condition)
      → P c
      → All P cs
      → All P (insert_back types c cs)
  unfolding insert_back
  All-insert_back types c [] p h = (p, tt)
  All-insert_back types c (d ∷ ds) p h = ground (arith, All-insert_back types c ds p h.1)

  All-sort_back :
      (types : List ConditionType) (done cs : List Condition)
      → All P done
      → All P cs
      → All P (sort_back types done cs)
  unfolding sort_back
  All-sort_back types done [] h k = h
  All-sort_back types done (c ∷ cs) h k =
      All-sort_back types (insert_back types c done) cs (All-insert_back types c done k.0 h) k.1

  pub All-sort_conditions :
      (types : List ConditionType) (cs : List Condition)
      → All P cs
      → All P (sort_conditions types cs)
  unfolding sort_conditions
  All-sort_conditions types cs h =
      All-reverse_aux (sort_back types [] cs) [] (All-sort_back types [] cs tt h) tt

-- No condition of the type.
abbrev pub NotType : ConditionType → Condition → Type 0
NotType t c = same_type c.type t ≡ false

find_type-none :
    (t : ConditionType) (cs : List Condition) → find_type t cs ≡ none → All (NotType t) cs
unfolding find_type
find_type-none t [] e = tt
find_type-none t (c ∷ cs) e = ground (arith, find_type-none t cs)

find_type_of_All :
    (t : ConditionType) (cs : List Condition) → All (NotType t) cs → find_type t cs ≡ none
unfolding find_type
find_type_of_All t [] h = refl
find_type_of_All t (c ∷ cs) h = ground (arith, find_type_of_All t cs h.1)

same_type_eq : (t u : ConditionType) → same_type t u ≡ true → t ≡ u
same_type_eq t u e = ground arith

outcome_of-none : (o : Option Condition) → outcome_of o ≡ none → o ≡ none
outcome_of-none none e = refl
outcome_of-none (some c) e = cc

-- A type that has no condition has none after the sort.
pub outcome-sort_none :
    (types : List ConditionType) (t : ConditionType) (cs : List Condition)
    → outcome t cs ≡ none
    → outcome t (sort_conditions types cs) ≡ none
unfolding outcome
outcome-sort_none types t cs e = ap outcome_of (
    find_type_of_All t (sort_conditions types cs) (
      All-sort_conditions (NotType t) types cs
        (find_type-none t cs (outcome_of-none (find_type t cs) e))))

module _ (E : Env) (laws : ConditionsLaws E.conditions) where
  outcome-delete_none :
      (t u : ConditionType) (cs : List Condition)
      → outcome t cs ≡ none
      → outcome t (E.conditions.delete cs u) ≡ none
  outcome-delete_none t u cs h = elim (Bool-cases (same_type u t)) [
    | inl e ↦
        subst (λ v. outcome v (E.conditions.delete cs u) ≡ none) (same_type_eq u t e)
          (laws.delete_self cs u)
    | inr e ↦ laws.delete_other cs u t e ∙ h
  ]

  outcome-cleared_none :
      (t : ConditionType) (b : Bool) (st : Run E.World)
      → outcome t st.object.status.conditions ≡ none
      → outcome t (if b then delete E stalled st else st).object.status.conditions ≡ none
  outcome-cleared_none t true st h = outcome-delete_none t stalled st.object.status.conditions h
  outcome-cleared_none t false st h = h

  outcome-summarize_sorted-none :
      (t : ConditionType) (cs : List Condition) (st : Run E.World)
      → same_type ready t ≡ false
      → outcome t cs ≡ none
      → outcome t st.object.status.conditions ≡ none
      → outcome t (summarize_sorted E cs st).object.status.conditions ≡ none
  unfolding summarize_sorted
  outcome-summarize_sorted-none t [] st n h k = k
  outcome-summarize_sorted-none t (c ∷ cs) st n h k =
      laws.set_other st.object.generation _ _ t n
      ∙ outcome-cleared_none t
          (is_status_true (if same_type c.type remediated then condition_false else c.status))
          (update_conditions (λ _. c ∷ cs) st) h

  outcome-current_none :
      (t : ConditionType) (b : Bool) (st : Run E.World)
      → outcome t st.object.status.conditions ≡ none
      → outcome t (if b then delete E test_success st else st).object.status.conditions ≡ none
  outcome-current_none t true st h =
      outcome-delete_none t test_success st.object.status.conditions h
  outcome-current_none t false st h = h

  -- `summarize` adds no condition but Ready.
  pub outcome-summarize-none :
      (t : ConditionType) (st : Run E.World)
      → same_type ready t ≡ false
      → outcome t st.object.status.conditions ≡ none
      → outcome t (summarize E st).object.status.conditions ≡ none
  unfolding summarize
  outcome-summarize-none t st n h =
      let current : Run E.World =
        if not (get_test st.object).enable then delete E test_success st else st in
      let k = outcome-current_none t (not (get_test st.object).enable) st h in
      outcome-summarize_sorted-none t _ current n
        (outcome-sort_none (summary_conditions current.object) t current.object.status.conditions k)
        k
