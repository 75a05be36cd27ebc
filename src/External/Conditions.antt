-- ===== src/External/Conditions.antt =====
-- github.com/fluxcd/pkg/runtime/conditions: setters and getters on a list of status conditions.
-- The first argument of a setter is the generation of the object.
use helm_controller.Base.{
  ℕ, ◌≡◌, Bool, true, false, List, [], ◌∷◌, Option, none, some, if◌then◌else◌,
}
use helm_controller.Api.Conditions.{
  ConditionType, reconciling, stalled, same_type, Reason, no_reason, ConditionStatus,
  condition_true, condition_false, condition_unknown, Message, empty, Condition,
}

-- The condition with a type, as a reader of the status sees it.
unfoldable pub find_type : ConditionType → List Condition → Option Condition
find_type t [] = none
find_type t (c ∷ cs) = if same_type c.type t then some c else find_type t cs

abbrev pub Outcome : Type 0
Outcome = ConditionStatus × Reason × Message

abbrev pub outcome_of : Option Condition → Option Outcome
outcome_of none = none
outcome_of (some c) = some (c.status, c.reason, c.message)

-- What the status says of a condition type.
unfoldable pub outcome : ConditionType → List Condition → Option Outcome
unfolding find_type
outcome t cs = outcome_of (find_type t cs)

abbrev pub is_true_outcome : Option Outcome → Bool
is_true_outcome none = false
is_true_outcome (some (condition_true, r, m)) = true
is_true_outcome (some (condition_false, r, m)) = false
is_true_outcome (some (condition_unknown, r, m)) = false

abbrev pub reason_outcome : Option Outcome → Reason
reason_outcome none = no_reason
reason_outcome (some (s, r, m)) = r

abbrev pub message_outcome : Option Outcome → Message
message_outcome none = empty
message_outcome (some (s, r, m)) = m

pub record ConditionsApi : Type 0 where
  pub get : List Condition → ConditionType → Option Condition
  pub set : ℕ → List Condition → Condition → List Condition
  pub delete : List Condition → ConditionType → List Condition
  -- MarkTrue, MarkFalse and MarkUnknown.
  pub mark :
      ℕ → List Condition → ConditionType → ConditionStatus → Reason → Message → List Condition
  pub mark_reconciling : ℕ → List Condition → Reason → Message → List Condition
  pub mark_stalled : ℕ → List Condition → Reason → Message → List Condition
  pub is_true : List Condition → ConditionType → Bool
  pub is_ready : List Condition → Bool
  pub is_reconciling : List Condition → Bool
  pub get_reason : List Condition → ConditionType → Reason
  pub get_message : List Condition → ConditionType → Message

-- The laws of the setters and getters. `is_ready` and `is_reconciling`, which also look at whether the
-- object is stalled, have none: the controller only branches on them.
pub record ConditionsLaws (api : ConditionsApi) : Type 0 where
  pub get_lem : (cs : List Condition) (t : ConditionType) → api.get cs t ≡ find_type t cs
  pub set_self :
      (g : ℕ) (cs : List Condition) (c : Condition)
      → outcome c.type (api.set g cs c) ≡ some (c.status, c.reason, c.message)
  pub set_other :
      (g : ℕ) (cs : List Condition) (c : Condition) (t : ConditionType)
      → same_type c.type t ≡ false
      → outcome t (api.set g cs c) ≡ outcome t cs
  pub delete_self : (cs : List Condition) (t : ConditionType) → outcome t (api.delete cs t) ≡ none
  pub delete_other :
      (cs : List Condition) (t u : ConditionType)
      → same_type t u ≡ false
      → outcome u (api.delete cs t) ≡ outcome u cs
  pub mark_self :
      (g : ℕ) (cs : List Condition) (t : ConditionType) (s : ConditionStatus) (r : Reason)
      (m : Message)
      → outcome t (api.mark g cs t s r m) ≡ some (s, r, m)
  pub mark_other :
      (g : ℕ) (cs : List Condition) (t : ConditionType) (s : ConditionStatus) (r : Reason)
      (m : Message) (u : ConditionType)
      → same_type t u ≡ false
      → outcome u (api.mark g cs t s r m) ≡ outcome u cs
  -- Reconciling and Stalled exclude one another.
  pub mark_reconciling_self :
      (g : ℕ) (cs : List Condition) (r : Reason) (m : Message)
      → outcome reconciling (api.mark_reconciling g cs r m) ≡ some (condition_true, r, m)
  pub mark_reconciling_stalled :
      (g : ℕ) (cs : List Condition) (r : Reason) (m : Message)
      → outcome stalled (api.mark_reconciling g cs r m) ≡ none
  pub mark_reconciling_other :
      (g : ℕ) (cs : List Condition) (r : Reason) (m : Message) (u : ConditionType)
      → same_type reconciling u ≡ false
      → same_type stalled u ≡ false
      → outcome u (api.mark_reconciling g cs r m) ≡ outcome u cs
  pub mark_stalled_self :
      (g : ℕ) (cs : List Condition) (r : Reason) (m : Message)
      → outcome stalled (api.mark_stalled g cs r m) ≡ some (condition_true, r, m)
  pub mark_stalled_reconciling :
      (g : ℕ) (cs : List Condition) (r : Reason) (m : Message)
      → outcome reconciling (api.mark_stalled g cs r m) ≡ none
  pub mark_stalled_other :
      (g : ℕ) (cs : List Condition) (r : Reason) (m : Message) (u : ConditionType)
      → same_type reconciling u ≡ false
      → same_type stalled u ≡ false
      → outcome u (api.mark_stalled g cs r m) ≡ outcome u cs
  pub is_true_lem :
      (cs : List Condition) (t : ConditionType) → api.is_true cs t ≡ is_true_outcome (outcome t cs)
  pub get_reason_lem :
      (cs : List Condition) (t : ConditionType)
      → api.get_reason cs t ≡ reason_outcome (outcome t cs)
  pub get_message_lem :
      (cs : List Condition) (t : ConditionType)
      → api.get_message cs t ≡ message_outcome (outcome t cs)
