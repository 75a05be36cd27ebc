-- ===== src/Action/Options.antt =====
-- internal/action/install.go, upgrade.go, rollback.go, uninstall.go and test.go: the settings of the
-- Helm actions, with wait.go (getWaitStrategy), ssa.go, post_render.go and defaults.go. A post-renderer is built by another package, and no options follow the settings.
use helm_controller.Base.{
  ℕ, String, Bool, true, false, not, ◌&&◌, ◌||◌, List, [], ◌∷◌, deref, str_eq, ℤ, if◌then◌else◌,
}
use helm_controller.Api.Spec.{Filter, get_filters, timeout_or}
use helm_controller.Api.HelmRelease.{
  HelmRelease, get_install, get_upgrade, get_rollback, get_uninstall, get_test, get_release_name,
  get_release_namespace, get_timeout, get_max_history,
}
use helm_controller.Release.Name.{shorten_name}

-- The feature gates UseHelm3Defaults and AllowDNSLookups.
pub record Features : Type 0 where
  pub use_helm3_defaults : Bool
  pub allow_dns_lookups : Bool

-- helmkube.WaitStrategy; `named` is a name of the specification.
pub data WaitStrategy : Type 0 where
  hook_only status_watcher legacy : WaitStrategy
  named : String → WaitStrategy

unfoldable pub get_wait_strategy : HelmRelease → String
get_wait_strategy obj = deref obj.spec.wait_strategy ""

-- getWaitStrategy, of the name and whether the action does not wait.
unfoldable pub wait_strategy_for : Features → String → Bool → WaitStrategy
wait_strategy_for f strategy disable_wait =
    if disable_wait
    then hook_only
    else if str_eq strategy "poller"
    then status_watcher
    else if not (str_eq strategy "")
    then named strategy
    else if f.use_helm3_defaults
    then legacy
    else status_watcher

unfoldable pub to_helm_post_render_strategy : Features → String → String
to_helm_post_render_strategy f strategy =
    if str_eq strategy "" then if f.use_helm3_defaults then "nohooks" else "combined" else strategy

unfoldable pub to_helm_ssa_value : String → String
to_helm_ssa_value mode =
    if str_eq mode "enabled" then "true" else if str_eq mode "disabled" then "false" else mode

-- The settings of the actions of the Helm SDK that the controller makes.
pub record InstallAction : Type 0 where
  pub server_side_apply : Bool
  pub force_conflicts : Bool
  pub release_name : String
  pub namespace : String
  pub timeout : ℕ
  pub take_ownership : Bool
  pub wait_strategy : WaitStrategy
  pub wait_for_jobs : Bool
  pub disable_hooks : Bool
  pub disable_open_api_validation : Bool
  pub skip_schema_validation : Bool
  pub replace : Bool
  pub devel : Bool
  pub skip_crds : Bool
  pub create_namespace : Bool
  pub enable_dns : Bool
  pub post_render_strategy : String

-- ForceConflicts is set when the action runs.
-- The digest of a long name is by the function `hash`.
unfoldable pub new_install : (String → String) → Features → HelmRelease → InstallAction
new_install hash f obj = record {
  server_side_apply = deref (get_install obj).server_side_apply (not f.use_helm3_defaults);
  force_conflicts = false;
  release_name = shorten_name hash (get_release_name obj);
  namespace = get_release_namespace obj;
  timeout = timeout_or (get_install obj).timeout (get_timeout obj);
  take_ownership = not (get_install obj).disable_take_ownership;
  wait_strategy = wait_strategy_for f (get_wait_strategy obj) (get_install obj).disable_wait;
  wait_for_jobs = not (get_install obj).disable_wait_for_jobs;
  disable_hooks = (get_install obj).disable_hooks;
  disable_open_api_validation = (get_install obj).disable_open_api_validation;
  skip_schema_validation = (get_install obj).disable_schema_validation;
  replace = (get_install obj).replace;
  devel = true;
  skip_crds = true;
  create_namespace =
      not (str_eq obj.spec.target_namespace "") && (get_install obj).create_namespace;
  enable_dns = f.allow_dns_lookups;
  post_render_strategy = to_helm_post_render_strategy f obj.spec.post_render_strategy;
}

pub record UpgradeAction : Type 0 where
  pub server_side_apply : String
  pub force_conflicts : Bool
  pub force_replace : Bool
  pub namespace : String
  pub reset_values : Bool
  pub reuse_values : Bool
  pub max_history : ℤ
  pub timeout : ℕ
  pub take_ownership : Bool
  pub wait_strategy : WaitStrategy
  pub wait_for_jobs : Bool
  pub disable_hooks : Bool
  pub disable_open_api_validation : Bool
  pub skip_schema_validation : Bool
  pub cleanup_on_fail : Bool
  pub devel : Bool
  pub enable_dns : Bool
  pub post_render_strategy : String

-- The mode of server-side apply, `auto` where none is given.
unfoldable pub ssa_mode : String → String
ssa_mode mode = if not (str_eq mode "") then to_helm_ssa_value mode else "auto"

unfoldable pub new_upgrade : Features → HelmRelease → UpgradeAction
new_upgrade f obj = record {
  server_side_apply = ssa_mode (get_upgrade obj).server_side_apply;
  force_conflicts = false;
  force_replace = false;
  namespace = get_release_namespace obj;
  reset_values = not (get_upgrade obj).preserve_values;
  reuse_values = (get_upgrade obj).preserve_values;
  max_history = get_max_history obj;
  timeout = timeout_or (get_upgrade obj).timeout (get_timeout obj);
  take_ownership = not (get_upgrade obj).disable_take_ownership;
  wait_strategy = wait_strategy_for f (get_wait_strategy obj) (get_upgrade obj).disable_wait;
  wait_for_jobs = not (get_upgrade obj).disable_wait_for_jobs;
  disable_hooks = (get_upgrade obj).disable_hooks;
  disable_open_api_validation = (get_upgrade obj).disable_open_api_validation;
  skip_schema_validation = (get_upgrade obj).disable_schema_validation;
  cleanup_on_fail = (get_upgrade obj).cleanup_on_fail;
  devel = true;
  enable_dns = f.allow_dns_lookups;
  post_render_strategy = to_helm_post_render_strategy f obj.spec.post_render_strategy;
}

pub record RollbackAction : Type 0 where
  pub server_side_apply : String
  pub force_conflicts : Bool
  pub force_replace : Bool
  pub version : ℕ
  pub timeout : ℕ
  pub wait_strategy : WaitStrategy
  pub wait_for_jobs : Bool
  pub disable_hooks : Bool
  pub cleanup_on_fail : Bool
  pub max_history : ℤ

unfoldable pub new_rollback : Features → HelmRelease → ℕ → RollbackAction
new_rollback f obj version = record {
  server_side_apply = ssa_mode (get_rollback obj).server_side_apply;
  force_conflicts = false;
  force_replace = false;
  version = version;
  timeout = timeout_or (get_rollback obj).timeout (get_timeout obj);
  wait_strategy = wait_strategy_for f (get_wait_strategy obj) (get_rollback obj).disable_wait;
  wait_for_jobs = not (get_rollback obj).disable_wait_for_jobs;
  disable_hooks = (get_rollback obj).disable_hooks;
  cleanup_on_fail = (get_rollback obj).cleanup_on_fail;
  max_history = get_max_history obj;
}

pub record UninstallAction : Type 0 where
  pub timeout : ℕ
  pub disable_hooks : Bool
  pub keep_history : Bool
  pub wait_strategy : WaitStrategy
  pub deletion_propagation : String

unfoldable pub new_uninstall : Features → HelmRelease → UninstallAction
new_uninstall f obj = record {
  timeout = timeout_or (get_uninstall obj).timeout (get_timeout obj);
  disable_hooks = (get_uninstall obj).disable_hooks;
  keep_history = (get_uninstall obj).keep_history;
  wait_strategy = wait_strategy_for f (get_wait_strategy obj) (get_uninstall obj).disable_wait;
  deletion_propagation = deref (get_uninstall obj).deletion_propagation "background";
}

-- The filters of the tests, by the keys `name` and `!name` of the map.
pub record TestAction : Type 0 where
  pub namespace : String
  pub timeout : ℕ
  pub names : List String
  pub excluded : List String

unfoldable pub filter_names : Bool → List Filter → List String
filter_names exclude [] = []
filter_names exclude (f ∷ fs) =
    let rest = filter_names exclude fs in
    if f.exclude && exclude || not f.exclude && not exclude then f.name ∷ rest else rest

unfoldable pub new_test : HelmRelease → TestAction
new_test obj = record {
  namespace = get_release_namespace obj;
  timeout = timeout_or (get_test obj).timeout (get_timeout obj);
  names = filter_names false (get_filters (get_test obj));
  excluded = filter_names true (get_filters (get_test obj));
}
