-- ===== src/Action/Run.antt =====
-- internal/action/install.go, upgrade.go, rollback.go, uninstall.go and test.go: how the Helm actions
-- run with their settings.
pub mod Resolved
use helm_controller.Base.{
  ℕ, ◌-◌, String, Bool, true, false, not, ◌&&◌, List, [], ◌∷◌, Option, none, some, str_eq, ◌==◌,
  if◌then◌else◌,
}
use helm_controller.Errors
use helm_controller.Errors.{Error, is}
use helm_controller.Helm.{Release, ChartMetadata, Value}
use helm_controller.Api.HelmRelease.{
  HelmRelease, get_install, get_upgrade, get_rollback, get_release_name,
}
use helm_controller.External.Cluster.{Env, Result, ok, err, Releaser, typed, other_api}
use helm_controller.Release.Name.{shorten_name}
use helm_controller.Action.Crds.{CrdClient, crd_policy_or_default, apply_crds}
use helm_controller.Action.Options.{
  Features, InstallAction, UpgradeAction, RollbackAction, UninstallAction, TestAction, new_install,
  new_upgrade, new_rollback, new_uninstall, new_test,
}

-- The Helm SDK that runs an action, the history of a release in the storage, how a release was
-- applied, and the clients that apply CRDs.
pub record Sdk (E : Env) : Type 0 where
  pub history : E.World → String → Result (List Releaser)
  pub apply_method : Release → String
  pub crds : CrdClient E.World
  pub run_install : E.World → InstallAction → ChartMetadata → Value → E.World × Result Releaser
  pub run_upgrade :
      E.World → UpgradeAction → String → ChartMetadata → Value → E.World × Result Releaser
  pub run_rollback : E.World → RollbackAction → String → E.World × Option Error
  pub run_uninstall : E.World → UninstallAction → String → E.World × Result (Option Releaser)
  pub run_test : E.World → TestAction → String → E.World × Result Releaser

abbrev pub unsupported : Error
unsupported = Errors.external "only the Chart API v2 is supported"

unfoldable pub typed_result : Result Releaser → Result Release
typed_result (err e) = err e
typed_result (ok other_api) = err unsupported
typed_result (ok (typed r)) = ok r

-- `fmt.Sprint` of a Boolean.
abbrev pub bool_text : Bool → String
bool_text b = if b then "true" else "false"

-- The releases of a history up to the one with a version.
unfoldable pub has_version : ℕ → List Releaser → Result Bool
has_version n [] = ok false
has_version n (other_api ∷ rs) = err unsupported
has_version n (typed r ∷ rs) =
    let rest = has_version n rs in if n == r.version then ok true else rest

module _ (E : Env) (K : Sdk E) (f : Features) where
  unfoldable pub install : E.World → HelmRelease → ChartMetadata → Value → E.World × Result Release
  install w obj chart values =
      let made = new_install E.sha256_hex f obj in
      let action = record made { force_conflicts = made.server_side_apply } in
      elim (crd_policy_or_default (get_install obj).crds) [
        | err e ↦ (w, err e)
        | ok policy ↦
            let (applied, result) =
              apply_crds K.crds w obj policy chart values action.server_side_apply
                action.wait_strategy in
            elim result [
              | err e ↦ (applied, err e)
              | ok processed ↦
                  let (ended, releaser) = K.run_install applied action processed values in
                  (ended, typed_result releaser)
            ]
      ]

  unfoldable pub with_upgrade_mode : HelmRelease → Bool → String → UpgradeAction → UpgradeAction
  with_upgrade_mode obj server_side_apply mode action = record action {
    server_side_apply = mode;
    force_conflicts = server_side_apply;
    force_replace = (get_upgrade obj).force && not server_side_apply;
  }

  -- The upgrade with `auto` resolved by the last release.
  unfoldable pub resolve_upgrade : E.World → HelmRelease → Result UpgradeAction
  resolve_upgrade w obj =
      let action = new_upgrade f obj in
      if not (str_eq action.server_side_apply "auto")
      then ok (
          with_upgrade_mode obj (str_eq action.server_side_apply "true") action.server_side_apply
            action)
      else elim (E.last w (shorten_name E.sha256_hex (get_release_name obj))) [
        | err e ↦
            if is e Errors.driver_release_not_found
            then err (Errors.external "has no deployed releases")
            else err e
        | ok other_api ↦ err unsupported
        | ok (typed r) ↦
            let ssa = str_eq (K.apply_method r) "ssa" in
            ok (with_upgrade_mode obj ssa (bool_text ssa) action)
      ]

  unfoldable pub upgrade : E.World → HelmRelease → ChartMetadata → Value → E.World × Result Release
  upgrade w obj chart values = elim (resolve_upgrade w obj) [
    | err e ↦ (w, err e)
    | ok action ↦ elim (crd_policy_or_default (get_upgrade obj).crds) [
      | err e ↦ (w, err e)
      | ok policy ↦
          let (applied, result) =
            apply_crds K.crds w obj policy chart values action.force_conflicts
              action.wait_strategy in
          elim result [
            | err e ↦ (applied, err e)
            | ok processed ↦
                let (ended, releaser) =
                  K.run_upgrade applied action (shorten_name E.sha256_hex (get_release_name obj))
                    processed values in
                (ended, typed_result releaser)
          ]
    ]
  ]

  unfoldable pub with_rollback_mode : HelmRelease → Bool → String → RollbackAction → RollbackAction
  with_rollback_mode obj server_side_apply mode action = record action {
    server_side_apply = mode;
    force_conflicts = server_side_apply;
    force_replace = (get_rollback obj).force && not server_side_apply;
  }

  unfoldable pub rollback_as_before :
      HelmRelease → RollbackAction → Result Releaser → Result RollbackAction
  rollback_as_before obj action (err e) = err e
  rollback_as_before obj action (ok other_api) = err unsupported
  rollback_as_before obj action (ok (typed r)) =
      let ssa = str_eq (K.apply_method r) "ssa" in
      ok (with_rollback_mode obj ssa (bool_text ssa) action)

  -- The version to roll back to; Helm's versions start at 1.
  unfoldable pub previous_version : RollbackAction → Release → ℕ
  previous_version action current =
      if action.version == 0 then current.version - 1 else action.version

  unfoldable pub resolve_to :
      E.World → HelmRelease → String → RollbackAction → ℕ → Result RollbackAction
  resolve_to w obj name action previous = elim (K.history w name) [
    | err e ↦ err e
    | ok releases ↦ elim (has_version previous releases) [
      | err e ↦ err e
      | ok false ↦ err (Errors.external "release has no such version")
      | ok true ↦ rollback_as_before obj action (E.get w name previous)
    ]
  ]

  -- The rollback with `auto` resolved by the release that is rolled back to.
  unfoldable pub resolve_rollback : E.World → HelmRelease → String → ℕ → Result RollbackAction
  resolve_rollback w obj name version =
      let action = new_rollback f obj version in
      if not (str_eq action.server_side_apply "auto")
      then ok (
          with_rollback_mode obj (str_eq action.server_side_apply "true") action.server_side_apply
            action)
      else elim (E.last w name) [
        | err e ↦ err e
        | ok other_api ↦ err unsupported
        | ok (typed current) ↦ resolve_to w obj name action (previous_version action current)
      ]

  unfoldable pub rollback : E.World → HelmRelease → String → ℕ → E.World × Option Error
  rollback w obj name version = elim (resolve_rollback w obj name version) [
    | err e ↦ (w, some e)
    | ok action ↦ K.run_rollback w action name
  ]

  unfoldable pub uninstall : E.World → HelmRelease → String → E.World × Result (Option Releaser)
  uninstall w obj name = K.run_uninstall w (new_uninstall f obj) name

  unfoldable pub test : E.World → HelmRelease → E.World × Result Release
  test w obj =
      let (ended, result) =
        K.run_test w (new_test obj) (shorten_name E.sha256_hex (get_release_name obj)) in
      (ended, typed_result result)
