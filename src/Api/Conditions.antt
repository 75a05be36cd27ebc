-- ===== src/Api/Conditions.antt =====
-- api/v2/condition_types.go: the condition types and reasons of a HelmRelease, and the conditions of
-- the shared toolkit (Ready, Reconciling, Stalled) that the controller sets.
-- A message is the format that it is printed by, with its arguments.
use helm_controller.Base.{ℕ, String, Bool, List, ◌==◌, ℤ}
use helm_controller.Errors.{Error}
use helm_controller.Helm

pub data ConditionType : Type 0 where
  released test_success remediated drifted ready reconciling stalled : ConditionType

abbrev pub type_code : ConditionType → ℕ
type_code released = 0
type_code test_success = 1
type_code remediated = 2
type_code drifted = 3
type_code ready = 4
type_code reconciling = 5
type_code stalled = 6

abbrev pub same_type : ConditionType → ConditionType → Bool
same_type a b = type_code a == type_code b

pub data Reason : Type 0 where
  no_reason install_succeeded install_failed upgrade_succeeded upgrade_failed : Reason
  test_succeeded test_failed rollback_succeeded rollback_failed : Reason
  uninstall_succeeded uninstall_failed artifact_failed dependency_not_ready : Reason
  drift_detected no_drift_detected : Reason
  progressing progressing_with_retry state_error retries_exceeded missing_target : Reason
  reconcile_error awaiting_tests pending_release drift_correction_failed drift_corrected : Reason
  inventory_build_failed namespace_check_skipped : Reason
  access_denied invalid_cel_expression health_check_canceled source_not_ready : Reason
  values_error chart_mutate_error rest_client_error resource_manager_error factory_error : Reason
  config_factory_error chart_sync_error chart_changed chart_deleted : Reason

pub data ConditionStatus : Type 0 where
  condition_true condition_false condition_unknown : ConditionStatus

abbrev pub status_code : ConditionStatus → ℕ
status_code condition_true = 0
status_code condition_false = 1
status_code condition_unknown = 2

-- v2.ReleaseAction; `no_action` is the empty string.
pub data ReleaseAction : Type 0 where
  no_action install upgrade rollback uninstall uninstall_remediation : ReleaseAction

pub data Arg : Type 0 where
  text : String → Arg
  full_release_name : String → String → ℕ → Arg
  versioned_chart_name : String → String → Arg
  no_name : Arg
  duration : ℕ → Arg
  count : ℤ → Arg
  size : ℕ → Arg
  error : Error → Arg
  helm_status : Helm.Status → Arg
  action : ReleaseAction → Arg

pub data Format : Type 0 where
  install_failure_fmt install_success_fmt upgrade_failure_fmt upgrade_success_fmt : Format
  test_pending_fmt test_failure_fmt test_success_fmt : Format
  rollback_failure_fmt rollback_success_fmt : Format
  uninstall_remediation_failure_fmt uninstall_remediation_success_fmt : Format
  uninstall_failure_fmt uninstall_success_fmt assume_uninstalled_fmt already_uninstalled_fmt :
      Format
  unlock_failure_fmt unlock_success_fmt running_action_fmt retrying_after_fmt : Format
  retries_exceeded_fmt missing_target_fmt state_error_fmt correcting_drift_fmt : Format
  no_drift_fmt drift_detected_fmt drift_failed_fmt drift_corrected_fmt error_fmt : Format
  inventory_failed_fmt warnings_fmt : Format
  prerequisites_fmt in_progress_fmt terminal_fmt source_failed_fmt not_ready_fmt : Format
  artifact_retry_fmt load_failed_fmt health_checks_canceled_fmt new_reconciliation_fmt : Format
  getter_failed_fmt account_failed_fmt manager_failed_fmt chart_changed_fmt chart_deleted_fmt :
      Format

pub data Message : Type 0 where
  empty : Message
  printf : Format → List Arg → Message

-- metav1.Condition.
pub record Condition : Type 0 where
  pub type : ConditionType
  pub status : ConditionStatus
  pub observed_generation : ℕ
  pub last_transition_time : ℕ
  pub reason : Reason
  pub message : Message
