-- ===== src/Reconcile/Request.antt =====
-- internal/reconcile/reconcile.go and the event metadata of release.go: what a reconciler is given,
-- the state that it changes, and the elementary updates of that state.
use helm_controller.Base.{
  ℕ, suc, String, ◌<>◌, Bool, false, not, ◌||◌, List, [], ◌∷◌, ◌++◌, Option, none, some, ◌==◌,
  str_eq, if◌then◌else◌,
}
use helm_controller.Helm.{ChartMetadata, Value}
use helm_controller.Api.Conditions.{ConditionType, ConditionStatus, Reason, Message, Condition}
use helm_controller.Api.HelmRelease.{HelmRelease, HelmReleaseStatus}
use helm_controller.Api.Snapshots.{sort_by_version}
use helm_controller.External.Cluster.{Env}

pub data ReconcilerType : Type 0 where
  type_release type_remediate type_test type_unlock type_drift_correction : ReconcilerType

abbrev pub reconciler_code : ReconcilerType → ℕ
reconciler_code type_release = 0
reconciler_code type_remediate = 1
reconciler_code type_test = 2
reconciler_code type_unlock = 3
reconciler_code type_drift_correction = 4

abbrev pub same_reconciler : ReconcilerType → ReconcilerType → Bool
same_reconciler a b = reconciler_code a == reconciler_code b

-- ReconcilerTypeSet, with `Contains` and `Count`.
unfoldable pub contains : List ReconcilerType → ReconcilerType → Bool
contains [] t = false
contains (r ∷ rs) t = same_reconciler r t || contains rs t

unfoldable pub count : List ReconcilerType → ReconcilerType → ℕ
count [] t = 0
count (r ∷ rs) t = let rest = count rs t in if same_reconciler r t then suc rest else rest

-- A Request without its object, which is part of the state.
pub record Request : Type 0 where
  pub chart : ChartMetadata
  pub values : Value

pub record Event : Type 0 where
  pub warning : Bool
  pub reason : Reason
  pub message : Message
  pub metadata : Option (List (String × String))

-- The object that a reconciliation works on, the outside world, and the events emitted so far.
pub record Run (World : Type 0) : Type 0 where
  pub object : HelmRelease
  pub world : World
  pub events : List Event

module _ {World : Type 0} where
  abbrev pub update_status : (HelmReleaseStatus → HelmReleaseStatus) → Run World → Run World
  update_status f st = record st { object = record st.object { status = f st.object.status } }

  abbrev pub update_conditions : (List Condition → List Condition) → Run World → Run World
  update_conditions f st = update_status (λ s. record s { conditions = f s.conditions }) st

  -- `Latest` and `Previous` leave the history sorted.
  abbrev pub sort_history : Run World → Run World
  sort_history st = update_status (λ s. record s { history = sort_by_version s.history }) st

  abbrev pub emit :
      Bool → Reason → Message → Option (List (String × String)) → Run World → Run World
  emit warning reason message metadata st = record st {
    events =
        st.events
        ++ record { warning = warning; reason = reason; message = message; metadata = metadata }
          ∷ [];
  }

  abbrev pub set_world : World → Run World → Run World
  set_world w st = record st { world = w }

-- The setters of the conditions package, on the object.
module _ (E : Env) where
  abbrev pub mark : ConditionType → ConditionStatus → Reason → Message → Run E.World → Run E.World
  mark t s r m st = update_conditions (λ cs. E.conditions.mark st.object.generation cs t s r m) st

  abbrev pub mark_reconciling : Reason → Message → Run E.World → Run E.World
  mark_reconciling r m st =
      update_conditions (λ cs. E.conditions.mark_reconciling st.object.generation cs r m) st

  abbrev pub mark_stalled : Reason → Message → Run E.World → Run E.World
  mark_stalled r m st =
      update_conditions (λ cs. E.conditions.mark_stalled st.object.generation cs r m) st

  abbrev pub delete : ConditionType → Run E.World → Run E.World
  delete t st = update_conditions (λ cs. E.conditions.delete cs t) st

-- The group of the API, api/v2/groupversion_info.go.
abbrev event_meta_group_key : String → String
event_meta_group_key key = "helm.toolkit.fluxcd.io" <> "/" <> key

-- addOCIDigest and addAppVersion: on a `nil` map they write to a map of their own, which is lost.
unfoldable pub add_meta :
    String → String → Option (List (String × String)) → Option (List (String × String))
add_meta key value none = none
add_meta key value (some m) =
    if not (str_eq value "") then some (m ++ (event_meta_group_key key, value) ∷ []) else some m

entry_unless_empty : String → String → List (String × String)
entry_unless_empty key value =
    if not (str_eq value "") then (event_meta_group_key key, value) ∷ [] else []

unfoldable pub event_meta : String → String → String → String → Option (List (String × String))
unfolding add_meta entry_unless_empty
event_meta revision token app_version oci_digest =
    let base =
      if not (str_eq revision "") || not (str_eq token "")
      then some (entry_unless_empty "revision" revision ++ entry_unless_empty "token" token)
      else none in
    add_meta "oci-digest" oci_digest (add_meta "app-version" app_version base)
