-- ===== src/Tests/History.antt =====
-- Instances of the results on the history, on releases and on failure counters.
use helm_controller.Base.{
  ℕ, ◌≡◌, ◌⊎◌, ◌↔◌, refl, true, false, not, ◌&&◌, ◌||◌, List, [], ◌∷◌, none, some, take, arith,
}
use helm_controller.Errors
use helm_controller.Errors.{is}
use helm_controller.Errors.Laws.{is_iff}
use helm_controller.Helm
use helm_controller.Api.Spec.{Filter, Remediation, get_retries}
use helm_controller.Api.Snapshots.{Snapshot, Snapshots, sort_by_version, latest, previous, truncate}
use helm_controller.Api.Snapshots.Order.{IsSorted, sort-IsSorted}
use helm_controller.Api.Snapshots.Truncate.{latest-previous-truncate}
use helm_controller.Api.Snapshots.Bounds.{EndsAt, truncate_bounds}
use helm_controller.Api.HelmRelease.{
  get_failure_count, get_upgrade, upgrade_remediation, retries_exhausted,
}
use helm_controller.Api.HelmRelease.Remediate.{fail_times, exceeds, exhausted-fail_times}
use helm_controller.Release.Observation.{Observation, observe_release}
use helm_controller.Release.TestHooks.{is_test_hook_selected}
use helm_controller.Release.TestHooks.Selection.{
  names_any, includes_some, is_test_hook_selected_lem,
}
use helm_controller.External.Cluster.{Releaser, typed}
use helm_controller.Reconcile.Record.{observe_writes}
use helm_controller.Reconcile.Record.Observed.{
  IsDescending, find_version, last_written, observe_writes_lem,
}
use helm_controller.Tests.World.{release_of}
use helm_controller.Tests.Samples.{sample_object, snapshot_of}

-- A history that is out of order: two failed upgrades after a release that was superseded.
abbrev three : Snapshots
three = snapshot_of 1 Helm.superseded ∷ snapshot_of 3 Helm.failed ∷ snapshot_of 2 Helm.failed ∷ []

sort-IsSorted_example : IsSorted (sort_by_version three)
sort-IsSorted_example = sort-IsSorted three

latest-previous-truncate_example :
    (latest (truncate false three) ≡ latest three)
    × (previous false (truncate false three) ≡ previous false three)
latest-previous-truncate_example = latest-previous-truncate false three

truncate_bounds_example :
    ((p : Snapshot) × (previous false three ≡ some p)
      × EndsAt p (sort_by_version three) (truncate false three))
    ⊎ (previous false three ≡ none) × (truncate false three ≡ take 5 (sort_by_version three))
truncate_bounds_example = truncate_bounds false three

-- The remediation of the sample object has two retries.
abbrev two_retries : Remediation
two_retries = upgrade_remediation (get_upgrade sample_object)

exhausted-fail_times_example :
    retries_exhausted two_retries (fail_times 3 two_retries sample_object)
    ≡ exceeds 3 (get_retries two_retries)
unfolding get_failure_count upgrade_remediation
exhausted-fail_times_example = exhausted-fail_times 3 two_retries sample_object (omega arith) refl

is_iff_example :
    (is Errors.release_not_found Errors.release_digest ≡ true)
    ↔ (Errors.release_not_found ≡ Errors.release_digest)
is_iff_example = is_iff Errors.release_not_found Errors.release_digest

abbrev two_filters : List Filter
two_filters =
    record { name = "smoke"; exclude = false } ∷ record { name = "load"; exclude = true } ∷ []

is_test_hook_selected_lem_example : is_test_hook_selected "smoke" two_filters ≡ (
    not (names_any true "smoke" two_filters)
    && (not (includes_some two_filters) || names_any false "smoke" two_filters))
is_test_hook_selected_lem_example = is_test_hook_selected_lem "smoke" two_filters

-- A release that is written twice: pending, then deployed.
abbrev two_writes : List Releaser
two_writes = typed (release_of 2 Helm.pending_upgrade) ∷ typed (release_of 2 Helm.deployed) ∷ []

observe_writes_lem_example :
    IsDescending (observe_writes [] two_writes)
    × ((v : ℕ) → find_version v (observe_writes [] two_writes) ≡ last_written v none two_writes)
observe_writes_lem_example = observe_writes_lem two_writes

abbrev observed_release : Observation
observed_release = observe_release (release_of 4 Helm.deployed)

abbrev observed_older : Observation
observed_older = observe_release (release_of 3 Helm.superseded)
