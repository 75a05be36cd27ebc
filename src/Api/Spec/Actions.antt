-- ===== src/Api/Spec/Actions.antt =====
-- api/v2/helmrelease_types.go: the settings of the Helm actions, their remediation and retry
-- strategies.
use helm_controller.Base.{
  ℕ, ◌*◌, String, Bool, true, false, List, [], Option, none, some, ℤ, pos, ltz, deref,
  if◌then◌else◌,
}

abbrev pub second : ℕ
second = 1000000000

abbrev pub minute : ℕ
minute = 60 * second

pub data ActionStrategyName : Type 0 where
  remediate_on_failure retry_on_failure : ActionStrategyName

-- InstallStrategy and UpgradeStrategy have the same fields and methods, and both implement Retry.
pub record ActionStrategy : Type 0 where
  pub name : ActionStrategyName
  pub retry_interval : Option ℕ

unfoldable pub get_retry_interval : ActionStrategy → ℕ
get_retry_interval s = deref s.retry_interval (5 * minute)

-- `GetRetry` of Install and of Upgrade, which are the same code.
unfoldable pub get_retry : Option ActionStrategy → Bool → Option ActionStrategy
get_retry none default_to_retry_on_failure =
    if default_to_retry_on_failure
    then some (record { name = retry_on_failure; retry_interval = none })
    else none
get_retry (some strategy) default_to_retry_on_failure = elim (strategy.name) [
  | retry_on_failure ↦ some strategy
  | remediate_on_failure ↦ none
]

-- A strategy that the API validation does not know reaches the code as `other_strategy`.
pub data RemediationStrategy : Type 0 where
  rollback_strategy uninstall_strategy other_strategy : RemediationStrategy

pub record InstallRemediation : Type 0 where
  pub retries : ℤ
  pub ignore_test_failures : Option Bool
  pub remediate_last_failure : Option Bool

pub record UpgradeRemediation : Type 0 where
  pub retries : ℤ
  pub ignore_test_failures : Option Bool
  pub remediate_last_failure : Option Bool
  pub strategy : Option RemediationStrategy

abbrev pub no_install_remediation : InstallRemediation
no_install_remediation = record {
  retries = pos 0;
  ignore_test_failures = none;
  remediate_last_failure = none;
}

abbrev pub no_upgrade_remediation : UpgradeRemediation
no_upgrade_remediation = record {
  retries = pos 0;
  ignore_test_failures = none;
  remediate_last_failure = none;
  strategy = none;
}

-- The interface Remediation, with its two implementations.
pub data Remediation : Type 0 where
  of_install : InstallRemediation → Remediation
  of_upgrade : UpgradeRemediation → Remediation

unfoldable pub get_retries : Remediation → ℤ
get_retries (of_install r) = r.retries
get_retries (of_upgrade r) = r.retries

unfoldable pub must_ignore_test_failures : Remediation → Bool → Bool
must_ignore_test_failures (of_install r) def = deref r.ignore_test_failures def
must_ignore_test_failures (of_upgrade r) def = deref r.ignore_test_failures def

unfoldable pub must_remediate_last_failure : Remediation → Bool
must_remediate_last_failure (of_install r) = deref r.remediate_last_failure false
must_remediate_last_failure (of_upgrade r) = deref r.remediate_last_failure (ltz (pos 0) r.retries)

unfoldable pub get_strategy : Remediation → RemediationStrategy
get_strategy (of_install r) = uninstall_strategy
get_strategy (of_upgrade r) = deref r.strategy rollback_strategy

unfoldable pub is_uninstall_after_upgrade : Remediation → Bool
unfolding get_strategy
is_uninstall_after_upgrade (of_install r) = false
is_uninstall_after_upgrade (of_upgrade r) = elim (get_strategy (of_upgrade r)) [
  | uninstall_strategy ↦ true
  | _ ↦ false
]

pub record Install : Type 0 where
  pub timeout : Option ℕ
  pub strategy : Option ActionStrategy
  pub remediation : Option InstallRemediation
  pub disable_take_ownership : Bool
  pub disable_wait : Bool
  pub disable_wait_for_jobs : Bool
  pub disable_hooks : Bool
  pub disable_open_api_validation : Bool
  pub disable_schema_validation : Bool
  pub replace : Bool
  pub skip_crds : Bool
  pub crds : String
  pub create_namespace : Bool
  pub server_side_apply : Option Bool

pub record Upgrade : Type 0 where
  pub timeout : Option ℕ
  pub strategy : Option ActionStrategy
  pub remediation : Option UpgradeRemediation
  pub disable_take_ownership : Bool
  pub disable_wait : Bool
  pub disable_wait_for_jobs : Bool
  pub disable_hooks : Bool
  pub disable_open_api_validation : Bool
  pub disable_schema_validation : Bool
  pub force : Bool
  pub preserve_values : Bool
  pub cleanup_on_fail : Bool
  pub crds : String
  pub server_side_apply : String
  pub chart_name_change_strategy : String

pub record Filter : Type 0 where
  pub name : String
  pub exclude : Bool

pub record Test : Type 0 where
  pub enable : Bool
  pub timeout : Option ℕ
  pub ignore_failures : Bool
  pub filters : Option (List Filter)

pub record Rollback : Type 0 where
  pub timeout : Option ℕ
  pub disable_wait : Bool
  pub disable_wait_for_jobs : Bool
  pub disable_hooks : Bool
  pub recreate : Bool
  pub force : Bool
  pub cleanup_on_fail : Bool
  pub server_side_apply : String

pub record Uninstall : Type 0 where
  pub timeout : Option ℕ
  pub disable_hooks : Bool
  pub keep_history : Bool
  pub disable_wait : Bool
  pub deletion_propagation : Option String

-- The zero values of the settings, which the getters return for a `nil` pointer.
abbrev pub no_install : Install
no_install = record {
  timeout = none;
  strategy = none;
  remediation = none;
  disable_take_ownership = false;
  disable_wait = false;
  disable_wait_for_jobs = false;
  disable_hooks = false;
  disable_open_api_validation = false;
  disable_schema_validation = false;
  replace = false;
  skip_crds = false;
  crds = "";
  create_namespace = false;
  server_side_apply = none;
}

abbrev pub no_upgrade : Upgrade
no_upgrade = record {
  timeout = none;
  strategy = none;
  remediation = none;
  disable_take_ownership = false;
  disable_wait = false;
  disable_wait_for_jobs = false;
  disable_hooks = false;
  disable_open_api_validation = false;
  disable_schema_validation = false;
  force = false;
  preserve_values = false;
  cleanup_on_fail = false;
  crds = "";
  server_side_apply = "";
  chart_name_change_strategy = "";
}

abbrev pub no_test : Test
no_test = record { enable = false; timeout = none; ignore_failures = false; filters = none }

abbrev pub no_rollback : Rollback
no_rollback = record {
  timeout = none;
  disable_wait = false;
  disable_wait_for_jobs = false;
  disable_hooks = false;
  recreate = false;
  force = false;
  cleanup_on_fail = false;
  server_side_apply = "";
}

abbrev pub no_uninstall : Uninstall
no_uninstall = record {
  timeout = none;
  disable_hooks = false;
  keep_history = false;
  disable_wait = false;
  deletion_propagation = none;
}

unfoldable pub get_filters : Test → List Filter
get_filters t = deref t.filters []

-- `GetTimeout` of each of the five settings: the configured timeout, or the default.
unfoldable pub timeout_or : Option ℕ → ℕ → ℕ
timeout_or timeout default_timeout = deref timeout default_timeout
