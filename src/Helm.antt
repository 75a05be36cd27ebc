-- ===== src/Helm.antt =====
-- The data of the Helm SDK that the controller reads and stores: chart values, charts, releases,
-- their statuses and their hooks. Only the fields that the controller touches are kept.
use helm_controller.Base.{ℕ, String, Bool, true, false, List, ◌==◌}

-- A value of `map[string]any`, as decoded from YAML.
mutual
  pub data Value : Type 0 where
    null : Value
    boolean : Bool → Value
    number text : String → Value
    mapping : Fields → Value
    sequence : Items → Value

  pub data Fields : Type 0 where
    no_fields : Fields
    field : String → Value → Fields → Fields

  pub data Items : Type 0 where
    no_items : Items
    item : Value → Items → Items

-- Release status, of helm.sh/helm/v4/pkg/release/common.
pub data Status : Type 0 where
  unknown deployed uninstalled superseded failed uninstalling : Status
  pending_install pending_upgrade pending_rollback : Status

abbrev pub status_code : Status → ℕ
status_code unknown = 0
status_code deployed = 1
status_code uninstalled = 2
status_code superseded = 3
status_code failed = 4
status_code uninstalling = 5
status_code pending_install = 6
status_code pending_upgrade = 7
status_code pending_rollback = 8

abbrev pub same_status : Status → Status → Bool
same_status a b = status_code a == status_code b

-- Status.IsPending: documented to hold of the three pending statuses.
abbrev pub is_pending : Status → Bool
is_pending pending_install = true
is_pending pending_upgrade = true
is_pending pending_rollback = true
is_pending _ = false

pub data HookPhase : Type 0 where
  phase_unknown phase_running phase_succeeded phase_failed : HookPhase

abbrev pub phase_code : HookPhase → ℕ
phase_code phase_unknown = 0
phase_code phase_running = 1
phase_code phase_succeeded = 2
phase_code phase_failed = 3

abbrev pub same_phase : HookPhase → HookPhase → Bool
same_phase a b = phase_code a == phase_code b

pub data HookEvent : Type 0 where
  pre_install post_install pre_delete post_delete pre_upgrade post_upgrade : HookEvent
  pre_rollback post_rollback test : HookEvent

abbrev pub event_code : HookEvent → ℕ
event_code pre_install = 0
event_code post_install = 1
event_code pre_delete = 2
event_code post_delete = 3
event_code pre_upgrade = 4
event_code post_upgrade = 5
event_code pre_rollback = 6
event_code post_rollback = 7
event_code test = 8

pub record Hook : Type 0 where
  pub name : String
  pub events : List HookEvent
  pub started_at : ℕ
  pub completed_at : ℕ
  pub phase : HookPhase

pub record Info : Type 0 where
  pub first_deployed : ℕ
  pub last_deployed : ℕ
  pub deleted : ℕ
  pub status : Status

pub record ChartMetadata : Type 0 where
  pub name : String
  pub version : String
  pub app_version : String

pub record Release : Type 0 where
  pub name : String
  pub namespace : String
  pub version : ℕ
  pub info : Info
  pub chart : ChartMetadata
  pub config : Value
  pub manifest : String
  pub hooks : List Hook
