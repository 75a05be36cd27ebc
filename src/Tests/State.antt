-- ===== src/Tests/State.antt =====
-- Instances of the results on verification, the state of a release and the choice of an action.
use helm_controller.Base.{◌≡◌, ◌≢◌, ◌⊎◌, ◌↔◌, refl, false, [], none}
use helm_controller.Helm
use helm_controller.Helm.{Release}
use helm_controller.Api.Snapshots.{latest}
use helm_controller.Api.HelmRelease.{
  get_release_name, get_install, install_remediation, retries_exhausted, get_failure_count,
}
use helm_controller.Api.Spec.{get_retries}
use helm_controller.Errors
use helm_controller.Api.Conditions
use helm_controller.Action.Verify.{last_release}
use helm_controller.Tests.Program.{program}
use helm_controller.Action.Reset.{must_reset_failures, reset_request_annotation}
use helm_controller.Action.Reset.Reasons.{HasSameValues, must_reset_failures_iff}
use helm_controller.External.Cluster.{ok, err}
use helm_controller.Reconcile.State.{determine_release_state, in_sync, absent, unmanaged, failed}
use helm_controller.Reconcile.State.InSync.{InSync, in_sync_iff, absent_safe}
use helm_controller.Reconcile.Actions
use helm_controller.Reconcile.Atomic.Choose.{choose, run, release_or_refuse}
use helm_controller.Reconcile.Atomic.Choose.Limits.{Exceeded, exceeded_lem}
use helm_controller.Reconcile.Atomic.Choose.Rollback.{RollbackDue, rollback_chosen_iff}
use helm_controller.Reconcile.Atomic.Choose.Keeps.{latest-choose}
use helm_controller.Tests.World.{sample_env, sample_chart}
use helm_controller.Tests.Samples.{
  sample_object, sample_request, deployed, upgrade_failed, exhausted, fresh,
}

must_reset_failures_iff_example :
    let request =
      sample_env.handle_annotation sample_object.annotations reset_request_annotation
        sample_object.status.last_handled_reset_at in
    let (reason, obj') = must_reset_failures sample_env sample_object sample_chart Helm.null in
    ((reason ≡ none) ↔ (
      (sample_object.status.last_attempted_generation ≡ sample_object.generation)
      × (sample_object.status.last_attempted_revision ≡ sample_chart.version)
      × HasSameValues sample_env sample_object Helm.null
      × (request.0 ≡ false)))
    × (obj'.status.last_handled_reset_at ≡ request.1)
must_reset_failures_iff_example =
    must_reset_failures_iff sample_env sample_object sample_chart Helm.null

in_sync_iff_example :
    (determine_release_state sample_env [] sample_request deployed.object deployed.world
      ≡ ok in_sync)
    ↔ InSync sample_env [] sample_request deployed.object deployed.world
in_sync_iff_example = in_sync_iff sample_env [] sample_request deployed.object deployed.world

rollback_chosen_iff_example :
    ((choose sample_env false failed false upgrade_failed).1 ≡ run Actions.rollback_remediation)
    ↔ (failed ≡ failed) × RollbackDue sample_env false false upgrade_failed
rollback_chosen_iff_example = rollback_chosen_iff sample_env false failed false upgrade_failed

-- An install that failed once and may not be retried.
exceeded_lem_example : (false ≡ false) × Exceeded sample_env false absent exhausted
unfolding choose release_or_refuse install_remediation get_install retries_exhausted get_retries
    get_failure_count
exceeded_lem_example = exceeded_lem sample_env false absent false exhausted refl

latest-choose_example :
    let history = (choose sample_env false failed false upgrade_failed).0.object.status.history in
    (failed ≢ unmanaged) × (latest history ≡ latest upgrade_failed.object.status.history)
    ⊎ (failed ≡ unmanaged) × (history ≡ [])
latest-choose_example = latest-choose sample_env false failed false upgrade_failed

absent_safe_example :
    (last_release sample_env fresh.world (get_release_name fresh.object)
      ≡ err Errors.release_not_found)
    ⊎ ((rls : Release) × (last_release sample_env fresh.world (get_release_name fresh.object)
          ≡ ok rls)
        × (rls.info.status ≡ Helm.uninstalled))
unfolding program
absent_safe_example = absent_safe sample_env [] sample_request fresh.object fresh.world refl
