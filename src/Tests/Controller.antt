-- ===== src/Tests/Controller.antt =====
-- Instances of the results on the controller and the chart template.
use helm_controller.Base.{
  ◌≡◌, ◌⊎◌, ◌↔◌, ◌<>◌, refl, String, true, false, [], Option, none, some, if◌then◌else◌,
}
use helm_controller.Helm
use helm_controller.External.Cluster.{ok}
use helm_controller.Reconcile.Request.{Run}
use helm_controller.Reconcile.Actions.{Exit, done}
use helm_controller.Reconcile.Atomic.Loop
use helm_controller.Reconcile.Atomic.Loop.Same.{reconcile_same}
use helm_controller.Reconcile.Summary.Frame.{SameObject}
use helm_controller.Api.Charts.{
  HelmChartReference, set_chart, status_reference, template_reference, has_chart,
}
use helm_controller.Api.Charts.RoundTrip.{set_chart-status_reference}
use helm_controller.Reconcile.ChartTemplate.{reconcile_chart}
use helm_controller.Reconcile.ChartTemplate.Cleanup.{reconcile_chart-status}
use helm_controller.Controller.Delete.{reconcile_delete, contains_finalizer, helm_release_finalizer}
use helm_controller.Controller.Delete.Safe.{Ends, reconcile_delete_lem}
use helm_controller.Controller.Dependencies.{check_dependencies}
use helm_controller.Controller.Dependencies.Ready.{all_fulfilled, check_dependencies_iff}
use helm_controller.Controller.Revision.Digest.{IsDigest, IsDigestOf, tracked, mutate_version_lem}
use helm_controller.Controller.Source.Allowed.{wanted_reference, IsFetched, get_source-IsFetched}
use helm_controller.Controller.Stages.Same.{step_run, is_dropped}
use helm_controller.Controller.Release.{prepare}
use helm_controller.Controller.Release.Prepared.{IsPrepared, prepare_lem}
use helm_controller.Errors
use helm_controller.Controller.Stages.{confirm_dependencies, confirm_source, load_failed}
use helm_controller.Controller.Entry.Waiting.{IsTerminal, Delays, stages-Delays}
use helm_controller.Controller.Entry.{reconcile_object}
use helm_controller.Controller.Entry.Finalizer.{reconcile_object-contains}
use helm_controller.Controller.Entry.Scheduled.{reconcile_object-is_dropped}
use helm_controller.Tests.Program.{program}
use helm_controller.Tests.World.{Cluster, sample_env, sample_chart}
use helm_controller.Tests.Samples.{sample_request, sample_status, fresh, deployed}
use helm_controller.Tests.Platform.{
  sample_platform, sample_settings, sample_source, active, templated, deleting,
}

reconcile_delete_lem_example :
    Ends sample_platform sample_settings deleting
      (reconcile_delete sample_platform sample_settings deleting)
reconcile_delete_lem_example =
    reconcile_delete_lem sample_platform sample_settings deleting refl refl

check_dependencies_iff_example :
    (check_dependencies sample_platform sample_settings active.world active.object ≡ none) ↔ (
      all_fulfilled sample_platform sample_settings active.world active.object Helm.null
        active.object.spec.depends_on
      ≡ true)
check_dependencies_iff_example =
    check_dependencies_iff sample_platform sample_settings active.world active.object Helm.null refl

abbrev prepared : Run Cluster
prepared = step_run (prepare sample_platform sample_settings active)

prepare_lem_example :
    IsPrepared sample_platform sample_settings active prepared
      (record sample_request { chart = record sample_chart { version = "1.0.0+0123456789ab" } })
unfolding program
prepare_lem_example =
    prepare_lem sample_platform sample_settings active prepared
      (record sample_request { chart = record sample_chart { version = "1.0.0+0123456789ab" } })
      refl

reconcile_object-contains_example :
    let end = (reconcile_object sample_platform sample_settings active).0 in
    contains_finalizer helm_release_finalizer end.object.finalizers ≡ true
reconcile_object-contains_example =
    (reconcile_object-contains sample_platform sample_settings active refl).0

reconcile_object-is_dropped_example :
    is_dropped (reconcile_object sample_platform sample_settings active).1 ≡ false
unfolding program
reconcile_object-is_dropped_example =
    reconcile_object-is_dropped sample_platform sample_settings active refl refl refl refl

stages-Delays_example :
    (IsTerminal sample_platform sample_settings active
      ⊎ Delays sample_platform sample_settings
          (confirm_dependencies sample_platform sample_settings active))
    × Delays sample_platform sample_settings
        (confirm_source sample_platform sample_settings sample_source active)
    × Delays sample_platform sample_settings
        (load_failed sample_platform sample_settings Errors.file_not_found active)
    × Delays sample_platform sample_settings
        (load_failed sample_platform sample_settings Errors.digest_mismatch active)
stages-Delays_example = stages-Delays sample_platform sample_settings sample_source active refl refl

get_source-IsFetched_example :
    (ref : HelmChartReference) × (wanted_reference active.object ≡ some ref)
    × IsFetched sample_platform sample_settings active.world active.object sample_source ref
unfolding program
get_source-IsFetched_example =
    get_source-IsFetched sample_platform sample_settings active.world active.object sample_source
      refl

abbrev digest : String
digest = "sha256:0123456789abcdef"

mutate_version_lem_example :
    (sha : String) × (v : String) × IsDigest digest sha
    × (ok ("1.0.0" <> ("+" <> sha)) ≡ ok v)
    × (record sample_chart { version = "1.0.0+0123456789ab" }
        ≡ tracked sample_platform sample_settings sample_chart v)
    × IsDigestOf sample_platform sample_settings "1.0.0" ("1.0.0@" <> digest) digest
unfolding program
mutate_version_lem_example =
    mutate_version_lem sample_platform sample_settings sample_chart "1.0.0" ("1.0.0@" <> digest)
      (record sample_chart { version = "1.0.0+0123456789ab" }) digest refl

abbrev stored_reference : HelmChartReference
stored_reference = record { kind = "OCIRepository"; namespace = "apps"; name = "app" }

set_chart-status_reference_example :
    (status_reference (set_chart (some stored_reference) sample_status) ≡ some stored_reference)
    × (status_reference (set_chart none sample_status) ≡ none)
    × (has_chart (set_chart none sample_status) ≡ false)
unfolding program
set_chart-status_reference_example =
    set_chart-status_reference stored_reference sample_status refl refl refl

abbrev charted : Run Cluster
charted = (reconcile_chart sample_platform sample_settings templated).0

reconcile_chart-status_example :
    status_reference charted.object.status
    ≡ (if templated.object.deleting then none else template_reference templated.object)
unfolding program
reconcile_chart-status_example =
    reconcile_chart-status sample_platform sample_settings templated charted refl refl
      (refl, refl, refl) refl

abbrev ended : Option (Run Cluster × Exit) → Run Cluster
ended none = fresh
ended (some (st, exit)) = st

abbrev settled : Run Cluster
settled = ended (Loop.reconcile sample_env false "helm-controller" [] sample_request deployed)

reconcile_same_example : SameObject deployed settled
unfolding program
reconcile_same_example =
    reconcile_same sample_env false "helm-controller" [] sample_request deployed settled done refl
