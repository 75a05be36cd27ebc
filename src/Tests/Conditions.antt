-- ===== src/Tests/Conditions.antt =====
-- A concrete conditions package, which shows that its laws can hold.
use helm_controller.Base.{
  ℕ, ◌≡◌, refl, ◌∙◌, false, not, ◌&&◌, List, [], ◌∷◌, none, some, if◌then◌else◌, arith,
}
use helm_controller.Api.Conditions.{
  ConditionType, ready, reconciling, stalled, same_type, Reason, ConditionStatus, condition_true,
  Message, Condition,
}
use helm_controller.External.Conditions.{
  find_type, outcome, is_true_outcome, reason_outcome, message_outcome, ConditionsApi,
  ConditionsLaws,
}

unfoldable pub delete_type : ConditionType → List Condition → List Condition
delete_type t [] = []
delete_type t (c ∷ cs) =
    let rest = delete_type t cs in if same_type c.type t then rest else c ∷ rest

unfoldable pub put : ℕ → List Condition → Condition → List Condition
put g cs c = record c { observed_generation = g } ∷ delete_type c.type cs

unfoldable pub put_mark :
    ℕ → List Condition → ConditionType → ConditionStatus → Reason → Message → List Condition
put_mark g cs t s r m = put g cs (record {
  type = t;
  status = s;
  observed_generation = g;
  last_transition_time = 0;
  reason = r;
  message = m;
})

find-delete_self : (t : ConditionType) (cs : List Condition) → find_type t (delete_type t cs) ≡ none
unfolding find_type delete_type
find-delete_self t [] = refl
find-delete_self t (c ∷ cs) = ground (arith, find-delete_self t cs)

find-delete_other :
    (t u : ConditionType) (cs : List Condition)
    → same_type t u ≡ false
    → find_type u (delete_type t cs) ≡ find_type u cs
unfolding find_type delete_type
find-delete_other t u [] h = refl
find-delete_other t u (c ∷ cs) h = ground (arith, find-delete_other t u cs h)

delete_self : (t : ConditionType) (cs : List Condition) → outcome t (delete_type t cs) ≡ none
unfolding outcome
delete_self t cs = rw (find-delete_self t cs) refl

delete_other :
    (t u : ConditionType) (cs : List Condition)
    → same_type t u ≡ false
    → outcome u (delete_type t cs) ≡ outcome u cs
unfolding outcome
delete_other t u cs h = rw (find-delete_other t u cs h) refl

put_self :
    (g : ℕ) (cs : List Condition) (c : Condition)
    → outcome c.type (put g cs c) ≡ some (c.status, c.reason, c.message)
unfolding outcome put find_type
put_self g cs c = ground arith

put_other :
    (g : ℕ) (cs : List Condition) (c : Condition) (t : ConditionType)
    → same_type c.type t ≡ false
    → outcome t (put g cs c) ≡ outcome t cs
unfolding outcome put find_type
put_other g cs c t h = ground (arith, find-delete_other c.type t cs h)

abbrev pub sample_conditions : ConditionsApi
sample_conditions = record {
  get = λ cs t. find_type t cs;
  set = put;
  delete = λ cs t. delete_type t cs;
  mark = put_mark;
  mark_reconciling = λ g cs r m. put_mark g (delete_type stalled cs) reconciling condition_true r m;
  mark_stalled = λ g cs r m. put_mark g (delete_type reconciling cs) stalled condition_true r m;
  is_true = λ cs t. is_true_outcome (outcome t cs);
  is_ready = λ cs. is_true_outcome (outcome ready cs) && not (is_true_outcome (outcome stalled cs));
  is_reconciling =
      λ cs. is_true_outcome (outcome reconciling cs) && not (is_true_outcome (outcome stalled cs));
  get_reason = λ cs t. reason_outcome (outcome t cs);
  get_message = λ cs t. message_outcome (outcome t cs);
}

pub sample_conditions-ConditionsLaws : ConditionsLaws sample_conditions
unfolding put_mark
sample_conditions-ConditionsLaws = record {
  get_lem = λ cs t. refl;
  set_self = put_self;
  set_other = put_other;
  delete_self = λ cs t. delete_self t cs;
  delete_other = λ cs t u h. delete_other t u cs h;
  mark_self = λ g cs t s r m. put_self g cs _;
  mark_other = λ g cs t s r m u h. put_other g cs _ u h;
  mark_reconciling_self = λ g cs r m. put_self g (delete_type stalled cs) _;
  mark_reconciling_stalled =
      λ g cs r m. put_other g (delete_type stalled cs) _ stalled refl ∙ delete_self stalled cs;
  mark_reconciling_other =
      λ g cs r m u h k. put_other g (delete_type stalled cs) _ u h ∙ delete_other stalled u cs k;
  mark_stalled_self = λ g cs r m. put_self g (delete_type reconciling cs) _;
  mark_stalled_reconciling = λ g cs r m.
      put_other g (delete_type reconciling cs) _ reconciling refl ∙ delete_self reconciling cs;
  mark_stalled_other = λ g cs r m u h k.
      put_other g (delete_type reconciling cs) _ u k ∙ delete_other reconciling u cs h;
  is_true_lem = λ cs t. refl;
  get_reason_lem = λ cs t. refl;
  get_message_lem = λ cs t. refl;
}
