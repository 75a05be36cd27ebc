-- ===== src/Api/HelmRelease.antt =====
-- api/v2/helmrelease_types.go: the HelmRelease resource with its status, and its accessors.
pub mod Remediate
use helm_controller.Base.{
  ℕ, ◌*◌, String, ◌<>◌, Bool, true, false, not, ◌&&◌, List, [], ◌∷◌, Option, none, some, ℤ, pos,
  ltz, inc64, deref, str_eq, if◌then◌else◌,
}
use helm_controller.Helm.{Value}
use helm_controller.Api.Conditions.{Condition, ReleaseAction}
use helm_controller.Api.Conditions
use helm_controller.Api.Snapshots.{Snapshots, default_max_history}
use helm_controller.Api.Spec.{
  HelmReleaseSpec, DriftDetection, Install, Upgrade, Test, Rollback, Uninstall, Remediation,
  ActionStrategy, ObjectReference, no_mode, of_install, of_upgrade, no_install, no_upgrade, no_test,
  no_rollback, no_uninstall, no_install_remediation, no_upgrade_remediation, get_retries, get_retry,
  second,
}

pub record HelmReleaseStatus : Type 0 where
  pub observed_generation : ℕ
  pub observed_post_renderers_digest : String
  pub observed_common_metadata_digest : String
  pub last_attempted_generation : ℕ
  pub conditions : List Condition
  pub helm_chart : String
  pub storage_namespace : String
  pub history : Snapshots
  pub inventory : Option (List String)
  pub last_attempted_release_action : ReleaseAction
  pub last_attempted_release_action_duration : Option ℕ
  pub failures : ℤ
  pub install_failures : ℤ
  pub upgrade_failures : ℤ
  pub last_attempted_revision : String
  pub last_attempted_revision_digest : String
  pub last_attempted_values_checksum : String
  pub last_release_revision : ℤ
  pub last_attempted_config_digest : String
  pub last_handled_reset_at : String
  pub last_handled_reconcile_at : String
  pub last_handled_force_at : String

pub record HelmRelease : Type 0 where
  pub name : String
  pub namespace : String
  pub generation : ℕ
  pub annotations : List (String × String)
  pub finalizers : List String
  -- The deletion timestamp is set.
  pub deleting : Bool
  pub spec : HelmReleaseSpec
  pub status : HelmReleaseStatus

unfoldable pub clear_history : HelmReleaseStatus → HelmReleaseStatus
clear_history st = record st { history = [] }

unfoldable pub clear_failures : HelmReleaseStatus → HelmReleaseStatus
clear_failures st = record st {
  failures = pos 0;
  install_failures = pos 0;
  upgrade_failures = pos 0;
}

unfoldable pub get_drift_detection : HelmRelease → DriftDetection
get_drift_detection obj = deref obj.spec.drift_detection (record { mode = no_mode; ignore = [] })

unfoldable pub get_install : HelmRelease → Install
get_install obj = deref obj.spec.install no_install

unfoldable pub get_upgrade : HelmRelease → Upgrade
get_upgrade obj = deref obj.spec.upgrade no_upgrade

unfoldable pub get_chart_name_change_strategy : Upgrade → String
get_chart_name_change_strategy u =
    if str_eq u.chart_name_change_strategy "" then "Reinstall" else u.chart_name_change_strategy

unfoldable pub get_test : HelmRelease → Test
get_test obj = deref obj.spec.test no_test

unfoldable pub get_rollback : HelmRelease → Rollback
get_rollback obj = deref obj.spec.rollback no_rollback

unfoldable pub get_uninstall : HelmRelease → Uninstall
get_uninstall obj = deref obj.spec.uninstall no_uninstall

-- `GetRemediation` of Install and of Upgrade.
unfoldable pub install_remediation : Install → Remediation
install_remediation i = of_install (deref i.remediation no_install_remediation)

unfoldable pub upgrade_remediation : Upgrade → Remediation
upgrade_remediation u = of_upgrade (deref u.remediation no_upgrade_remediation)

-- The counters of a HelmRelease that a Remediation reads and increments.
unfoldable pub get_failure_count : Remediation → HelmRelease → ℤ
get_failure_count (of_install r) obj = obj.status.install_failures
get_failure_count (of_upgrade r) obj = obj.status.upgrade_failures

unfoldable pub increment_failure_count : Remediation → HelmReleaseStatus → HelmReleaseStatus
increment_failure_count (of_install r) st = record st {
  install_failures = inc64 st.install_failures;
}
increment_failure_count (of_upgrade r) st = record st {
  upgrade_failures = inc64 st.upgrade_failures;
}

-- `RetriesExhausted` of both implementations, which are the same code.
unfoldable pub retries_exhausted : Remediation → HelmRelease → Bool
unfolding get_retries get_failure_count
retries_exhausted r obj =
    not (ltz (get_retries r) (pos 0)) && ltz (get_retries r) (get_failure_count r obj)

active_remediation_of : ReleaseAction → HelmRelease → Option Remediation
unfolding get_install get_upgrade install_remediation upgrade_remediation
active_remediation_of Conditions.install obj = some (install_remediation (get_install obj))
active_remediation_of Conditions.upgrade obj = some (upgrade_remediation (get_upgrade obj))
active_remediation_of _ obj = none

unfoldable pub get_active_remediation : HelmRelease → Option Remediation
unfolding active_remediation_of
get_active_remediation obj = active_remediation_of obj.status.last_attempted_release_action obj

unfoldable pub active_retry_of : ReleaseAction → HelmRelease → Bool → Option ActionStrategy
unfolding get_install get_upgrade get_retry
active_retry_of Conditions.install obj def = get_retry (get_install obj).strategy def
active_retry_of Conditions.upgrade obj def = get_retry (get_upgrade obj).strategy def
active_retry_of _ obj def = none

unfoldable pub get_active_retry : HelmRelease → Bool → Option ActionStrategy
unfolding active_retry_of
get_active_retry obj def = active_retry_of obj.status.last_attempted_release_action obj def

unfoldable pub get_release_name : HelmRelease → String
get_release_name obj =
    if not (str_eq obj.spec.release_name "")
    then obj.spec.release_name
    else if not (str_eq obj.spec.target_namespace "")
    then obj.spec.target_namespace <> "-" <> obj.name
    else obj.name

unfoldable pub get_release_namespace : HelmRelease → String
get_release_namespace obj =
    if not (str_eq obj.spec.target_namespace "") then obj.spec.target_namespace else obj.namespace

unfoldable pub get_storage_namespace : HelmRelease → String
get_storage_namespace obj =
    if not (str_eq obj.spec.storage_namespace "") then obj.spec.storage_namespace else obj.namespace

unfoldable pub get_timeout : HelmRelease → ℕ
get_timeout obj = deref obj.spec.timeout (300 * second)

unfoldable pub get_max_history : HelmRelease → ℤ
get_max_history obj = deref obj.spec.max_history (pos default_max_history)

unfoldable pub use_persistent_client : HelmRelease → Bool
use_persistent_client obj = deref obj.spec.persistent_client true
