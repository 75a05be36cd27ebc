-- ===== src/Reconcile/State.antt =====
-- internal/reconcile/state.go: the state of a Helm release, as compared to its HelmRelease.
pub mod InSync
use helm_controller.Base.{
  ℕ, String, Bool, true, false, not, ◌&&◌, ◌||◌, List, [], ◌∷◌, Option, none, some, str_eq, is_some,
  deref, if◌then◌else◌,
}
use helm_controller.Errors
use helm_controller.Errors.{Error, is, is_one_of}
use helm_controller.Helm
use helm_controller.Helm.{Release, is_pending, same_status, phase_failed}
use helm_controller.Api.HelmRelease.{
  HelmRelease, get_release_name, get_test, get_drift_detection, get_active_remediation,
}
use helm_controller.Api.Snapshots.{Snapshot, latest, has_been_tested, has_test_in_phase}
use helm_controller.Api.Spec.{
  PostRenderer, CommonMetadata, must_detect_changes, must_ignore_test_failures,
}
use helm_controller.External.Digests.{Digests}
use helm_controller.External.Cluster.{Env, Diff, ok, err, Result}
use helm_controller.Action.Verify.{last_release, verify_release_object, verify_release}
use helm_controller.Reconcile.Request.{Request, Run, sort_history}

pub data OutOfSyncReason : Type 0 where
  by_error : Error → OutOfSyncReason
  post_renderers_changed common_metadata_changed : OutOfSyncReason

-- ReleaseState: the status of the release with its reason, and the differences of a drifted one.
pub data ReleaseState : Type 0 where
  in_sync unmanaged absent locked untested failed : ReleaseState
  out_of_sync : OutOfSyncReason → ReleaseState
  drifted : List Diff → ReleaseState

unfoldable pub is_locked_status : Helm.Status → Bool
is_locked_status status = is_pending status || same_status status Helm.uninstalling

unfoldable pub observed_digest_algorithm : Digests → String → String
observed_digest_algorithm d observed = deref (d.algorithm observed) d.canonical

-- The digest of the desired post-renderers, by the algorithm of the observed digest.
unfoldable pub desired_post_renderers_digest : Digests → HelmRelease → String
desired_post_renderers_digest d obj = elim (obj.spec.post_renderers) [
  | none ↦ ""
  | some ps ↦
      d.post_renderers_digest
        (observed_digest_algorithm d obj.status.observed_post_renderers_digest) ps
]

unfoldable pub desired_common_metadata_digest : Digests → HelmRelease → String
desired_common_metadata_digest d obj = elim (obj.spec.common_metadata) [
  | none ↦ ""
  | some m ↦
      d.common_metadata_digest
        (observed_digest_algorithm d obj.status.observed_common_metadata_digest) m
]

-- The failure of a test counts unless there is no remediation, or it ignores test failures.
unfoldable pub test_failure_counts : HelmRelease → Bool
test_failure_counts obj = elim (get_active_remediation obj) [
  | none ↦ false
  | some r ↦ not (must_ignore_test_failures r (get_test obj).ignore_failures)
]

-- The checks of a deployed release that end in `Untested` or `Failed`.
unfoldable pub test_state : HelmRelease → Snapshot → Option ReleaseState
test_state obj cur =
    if not (get_test obj).enable
    then none
    else if not (has_been_tested cur)
    then some untested
    else if test_failure_counts obj && has_test_in_phase cur phase_failed
    then some failed
    else none

module _ (E : Env) (disallowed_field_managers : List String) (req : Request) where
  unfoldable pub drift_state : List Diff → Option Error → Result ReleaseState
  drift_state diffs none = if E.has_changes diffs then ok (drifted diffs) else ok in_sync
  drift_state diffs (some e) = if E.has_changes diffs then ok (drifted diffs) else err e

  -- The release is deployed, and is what the latest snapshot `cur` recorded.
  unfoldable pub deployed_state : HelmRelease → E.World → Release → Snapshot → Result ReleaseState
  deployed_state obj w rls cur =
      let (diffs, diff_error) =
        E.diff w rls disallowed_field_managers (get_drift_detection obj).ignore in
      let drift_checked =
        if must_detect_changes (get_drift_detection obj)
        then drift_state diffs diff_error
        else ok in_sync in
      let tested : Result ReleaseState = elim (test_state obj cur) [
        | some s ↦ ok s
        | none ↦ drift_checked
      ] in
      elim (verify_release E.digests rls (some cur) (some req.chart) req.values) [
        | some e ↦
            if is_one_of e (Errors.chart_changed ∷ Errors.config_digest ∷ [])
            then ok (out_of_sync (by_error e))
            else err e
        | none ↦
            if not (
              str_eq (desired_post_renderers_digest E.digests obj)
                obj.status.observed_post_renderers_digest)
            then ok (out_of_sync post_renderers_changed)
            else if not (
                str_eq (desired_common_metadata_digest E.digests obj)
                  obj.status.observed_common_metadata_digest)
            then ok (out_of_sync common_metadata_changed)
            else tested
      ]

  -- The `switch` on the status of a release that the object manages.
  unfoldable pub managed_state :
      HelmRelease → E.World → Release → Snapshot → Helm.Status → Result ReleaseState
  managed_state obj w rls cur Helm.failed = ok failed
  managed_state obj w rls cur Helm.uninstalled = ok absent
  managed_state obj w rls cur Helm.deployed = deployed_state obj w rls cur
  managed_state obj w rls cur _ = err Errors.unknown_helm_status

  unfoldable pub verified_state : HelmRelease → E.World → Release → Snapshot → Result ReleaseState
  verified_state obj w rls cur = elim (verify_release_object E.digests cur rls) [
    | some e ↦
        if is_one_of e (Errors.release_digest ∷ Errors.release_not_observed ∷ [])
        then ok unmanaged
        else err e
    | none ↦ managed_state obj w rls cur rls.info.status
  ]

  unfoldable pub found_state : HelmRelease → E.World → Release → Result ReleaseState
  found_state obj w rls =
      let compared : Result ReleaseState = elim (latest obj.status.history) [
        | none ↦ if same_status rls.info.status Helm.uninstalled then ok absent else ok unmanaged
        | some cur ↦ verified_state obj w rls cur
      ] in
      if is_locked_status rls.info.status then ok locked else compared

  -- DetermineReleaseState as a function of the object and the world, which it does not change (but
  -- for the order of the history).
  unfoldable pub determine_release_state : HelmRelease → E.World → Result ReleaseState
  determine_release_state obj w = elim (last_release E w (get_release_name obj)) [
    | err e ↦ if is e Errors.release_not_found then ok absent else err e
    | ok rls ↦ found_state obj w rls
  ]

module _ (E : Env) where
  -- `Latest` sorts the history on the way, if a release is found that is not locked.
  unfoldable pub after_determine : Run E.World → Run E.World
  after_determine st = elim (last_release E st.world (get_release_name st.object)) [
    | err e ↦ st
    | ok rls ↦ if is_locked_status rls.info.status then st else sort_history st
  ]
