-- ===== src/Reconcile/State/InSync.antt =====
-- When a release is in sync, locked or absent (internal/reconcile/state.go).
use helm_controller.Base.{
  ◌≡◌, ◌≢◌, ap, ◌∙◌, ◌↔◌, ◌⊎◌, inl, inr, String, true, false, List, Option, none, some, arith,
  eq_iff, Option-cases,
}
use helm_controller.Errors
use helm_controller.Errors.{Error, is}
use helm_controller.Errors.Laws.{is_iff}
use helm_controller.Helm
use helm_controller.Helm.{Release, same_status, phase_failed}
use helm_controller.Api.HelmRelease.{
  HelmRelease, get_release_name, get_test, get_drift_detection, get_active_remediation,
}
use helm_controller.Api.Snapshots.{Snapshot, latest, has_been_tested, has_test_in_phase}
use helm_controller.Api.Spec.{Remediation, must_detect_changes, must_ignore_test_failures}
use helm_controller.External.Cluster.{Env, Diff, ok, err, Result-cases}
use helm_controller.Action.Verify.{last_release, verify_release_object, verify_release}
use helm_controller.Reconcile.Request.{Request}
use helm_controller.Reconcile.State.{
  ReleaseState, in_sync, absent, locked, untested, failed, is_locked_status,
  desired_post_renderers_digest, desired_common_metadata_digest, test_state, test_failure_counts,
  drift_state, deployed_state, managed_state, verified_state, found_state, determine_release_state,
}

-- A failure of the tests does not count: no remediation is active, or the active one ignores it.
pub IgnoresFailures : HelmRelease → Type 0
IgnoresFailures obj =
    (get_active_remediation obj ≡ none)
    ⊎ ((r : Remediation) × (get_active_remediation obj ≡ some r)
        × (must_ignore_test_failures r (get_test obj).ignore_failures ≡ true))

-- The tests of a release stand in the way of nothing: they are disabled, or they were run, and none
-- has failed or their failures do not count.
pub TestsPass : HelmRelease → Snapshot → Type 0
TestsPass obj cur =
    ((get_test obj).enable ≡ false)
    ⊎ (has_been_tested cur ≡ true)
      × (IgnoresFailures obj ⊎ (has_test_in_phase cur phase_failed ≡ false))

test_failure_counts_iff :
    (obj : HelmRelease) → (test_failure_counts obj ≡ false) ↔ IgnoresFailures obj
unfolding test_failure_counts IgnoresFailures
test_failure_counts_iff obj = elim (Option-cases (get_active_remediation obj)) [
  | inl e ↦ ground (arith, e)
  | inr (r, e) ↦ (
    λ h. inr (r, e, ground (arith, e)),
    λ h. elim h [ inl n ↦ absurd (ground arith) | inr (q, f, i) ↦ ground arith ],
  )
]

pub same_status_eq : (s t : Helm.Status) → same_status s t ≡ true → s ≡ t
same_status_eq s t e = ground arith

test_state-none :
    (obj : HelmRelease) (cur : Snapshot) → (test_state obj cur ≡ none) ↔ TestsPass obj cur
unfolding test_state TestsPass
test_state-none obj cur = ground (arith, test_failure_counts_iff obj)

test_state-some :
    (obj : HelmRelease) (cur : Snapshot) (s : ReleaseState)
    → test_state obj cur ≡ some s
    → (s ≡ untested) ⊎ (s ≡ failed)
unfolding test_state
test_state-some obj cur s e = ground arith

module _ (E : Env) (disallowed_field_managers : List String) (req : Request) where
  -- No drift is looked for, or the cluster was compared without an error and does not differ.
  pub NoDrift : HelmRelease → E.World → Release → Type 0
  NoDrift obj w rls =
      (must_detect_changes (get_drift_detection obj) ≡ false)
      ⊎ (E.has_changes (E.diff w rls disallowed_field_managers (get_drift_detection obj).ignore).0
          ≡ false)
        × ((E.diff w rls disallowed_field_managers (get_drift_detection obj).ignore).1 ≡ none)

  drift_state_in_sync :
      (diffs : List Diff) (e : Option Error)
      → (drift_state E disallowed_field_managers req diffs e ≡ ok in_sync)
        ↔ (E.has_changes diffs ≡ false) × (e ≡ none)
  unfolding drift_state
  drift_state_in_sync diffs none = ground arith
  drift_state_in_sync diffs (some x) = ground arith

  -- What the release and its latest snapshot are compared with.
  pub AsDesired : HelmRelease → E.World → Release → Snapshot → Type 0
  AsDesired obj w rls cur =
      (verify_release E.digests rls (some cur) (some req.chart) req.values ≡ none)
      × (desired_post_renderers_digest E.digests obj ≡ obj.status.observed_post_renderers_digest)
      × (desired_common_metadata_digest E.digests obj ≡ obj.status.observed_common_metadata_digest)
      × TestsPass obj cur
      × NoDrift obj w rls

  deployed_state_in_sync :
      (obj : HelmRelease) (w : E.World) (rls : Release) (cur : Snapshot)
      → (deployed_state E disallowed_field_managers req obj w rls cur ≡ ok in_sync)
        ↔ AsDesired obj w rls cur
  unfolding deployed_state AsDesired NoDrift
  deployed_state_in_sync obj w rls cur =
      let diffs = E.diff w rls disallowed_field_managers (get_drift_detection obj).ignore in
      ground (
        arith,
        test_state-none obj cur,
        test_state-some obj cur in_sync,
        drift_state_in_sync diffs.0 diffs.1,
        eq_iff (desired_post_renderers_digest E.digests obj)
            obj.status.observed_post_renderers_digest,
        eq_iff (desired_common_metadata_digest E.digests obj)
            obj.status.observed_common_metadata_digest,
      )

  -- The release in storage, the latest snapshot, and that they are what the object desires.
  pub InSync : HelmRelease → E.World → Type 0
  InSync obj w =
      (rls : Release) × (cur : Snapshot) × (last_release E w (get_release_name obj) ≡ ok rls)
      × (latest obj.status.history ≡ some cur)
      × (rls.info.status ≡ Helm.deployed)
      × (verify_release_object E.digests cur rls ≡ none)
      × AsDesired obj w rls cur

  managed_state_in_sync :
      (obj : HelmRelease) (w : E.World) (rls : Release) (cur : Snapshot) (status : Helm.Status)
      → (managed_state E disallowed_field_managers req obj w rls cur status ≡ ok in_sync)
        ↔ (status ≡ Helm.deployed) × AsDesired obj w rls cur
  unfolding managed_state
  managed_state_in_sync obj w rls cur Helm.deployed =
      ground (arith, deployed_state_in_sync obj w rls cur)
  managed_state_in_sync obj w rls cur status = ground arith

  verified_state_in_sync :
      (obj : HelmRelease) (w : E.World) (rls : Release) (cur : Snapshot)
      → (verified_state E disallowed_field_managers req obj w rls cur ≡ ok in_sync)
        ↔ (verify_release_object E.digests cur rls ≡ none)
          × (rls.info.status ≡ Helm.deployed)
          × AsDesired obj w rls cur
  unfolding verified_state
  verified_state_in_sync obj w rls cur =
      ground (arith, managed_state_in_sync obj w rls cur rls.info.status)

  found_state_in_sync :
      (obj : HelmRelease) (w : E.World) (rls : Release)
      → (found_state E disallowed_field_managers req obj w rls ≡ ok in_sync)
      → (cur : Snapshot) × (latest obj.status.history ≡ some cur)
        × (rls.info.status ≡ Helm.deployed)
        × (verify_release_object E.digests cur rls ≡ none)
        × AsDesired obj w rls cur
  unfolding found_state
  found_state_in_sync obj w rls e = elim (Option-cases (latest obj.status.history)) [
    | inl n ↦ absurd (ground arith)
    | inr (cur, l) ↦
        let v : (verify_release_object E.digests cur rls ≡ none)
            × (rls.info.status ≡ Helm.deployed)
            × AsDesired obj w rls cur =
          ground (arith, verified_state_in_sync obj w rls cur) in
        (cur, l, v.1, v.0, v.2)
  ]

  found_of_in_sync :
      (obj : HelmRelease) (w : E.World) (rls : Release) (cur : Snapshot)
      → latest obj.status.history ≡ some cur
      → rls.info.status ≡ Helm.deployed
      → verify_release_object E.digests cur rls ≡ none
      → AsDesired obj w rls cur
      → found_state E disallowed_field_managers req obj w rls ≡ ok in_sync
  unfolding found_state is_locked_status
  found_of_in_sync obj w rls cur l s v d =
      let unlocked : is_locked_status rls.info.status ≡ false = ap is_locked_status s in
      rw (unlocked, l) ((verified_state_in_sync obj w rls cur).1 (v, s, d))

  -- A release is in sync if and only if it is in the storage with the status deployed, passes the
  -- verifications against the latest snapshot and against the desired chart and values, the digests
  -- of the desired post-renderers and common metadata are the observed ones, the tests are disabled,
  -- or were run with none failed, or were run while no remediation is active or the active one ignores
  -- their failures, and no drift is looked for, or a comparison without an error finds none.
  pub in_sync_iff :
      (obj : HelmRelease) (w : E.World)
      → (determine_release_state E disallowed_field_managers req obj w ≡ ok in_sync) ↔ InSync obj w
  unfolding determine_release_state InSync
  in_sync_iff obj w = (
    λ e. elim (Result-cases (last_release E w (get_release_name obj))) [
      | inl (x, f) ↦ absurd (ground arith)
      | inr (rls, f) ↦
          let (cur, l, s, v, d) =
            found_state_in_sync obj w rls (rw (f, determine_release_state) at e) in
          (rls, cur, f, l, s, v, d)
    ],
    λ (rls, cur, f, l, s, v, d).
        rw (f, determine_release_state) (found_of_in_sync obj w rls cur l s v d),
  )

  deployed_state-not_locked :
      (obj : HelmRelease) (w : E.World) (rls : Release) (cur : Snapshot)
      → deployed_state E disallowed_field_managers req obj w rls cur ≢ ok locked
  unfolding deployed_state drift_state
  deployed_state-not_locked obj w rls cur e = ground (arith, test_state-some obj cur locked)

  managed_state-not_locked :
      (obj : HelmRelease) (w : E.World) (rls : Release) (cur : Snapshot) (status : Helm.Status)
      → managed_state E disallowed_field_managers req obj w rls cur status ≢ ok locked
  unfolding managed_state
  managed_state-not_locked obj w rls cur Helm.deployed e = deployed_state-not_locked obj w rls cur e
  managed_state-not_locked obj w rls cur status e = ground arith

  found_state_locked :
      (obj : HelmRelease) (w : E.World) (rls : Release)
      → (found_state E disallowed_field_managers req obj w rls ≡ ok locked)
        ↔ (is_locked_status rls.info.status ≡ true)
  unfolding found_state verified_state
  found_state_locked obj w rls = grind (arith, managed_state-not_locked)

  -- A release that is found in the storage is locked if and only if its status is pending or
  -- uninstalling, whatever else is true of it.
  pub locked_iff :
      (obj : HelmRelease) (w : E.World) (rls : Release)
      → last_release E w (get_release_name obj) ≡ ok rls
      → (determine_release_state E disallowed_field_managers req obj w ≡ ok locked)
        ↔ (is_locked_status rls.info.status ≡ true)
  unfolding determine_release_state
  locked_iff obj w rls f = rw (f, determine_release_state) (found_state_locked obj w rls)

  deployed_state-not_absent :
      (obj : HelmRelease) (w : E.World) (rls : Release) (cur : Snapshot)
      → deployed_state E disallowed_field_managers req obj w rls cur ≢ ok absent
  unfolding deployed_state drift_state
  deployed_state-not_absent obj w rls cur e = ground (arith, test_state-some obj cur absent)

  managed_state-absent :
      (obj : HelmRelease) (w : E.World) (rls : Release) (cur : Snapshot) (status : Helm.Status)
      → managed_state E disallowed_field_managers req obj w rls cur status ≡ ok absent
      → status ≡ Helm.uninstalled
  unfolding managed_state
  managed_state-absent obj w rls cur Helm.deployed e =
      absurd (deployed_state-not_absent obj w rls cur e)
  managed_state-absent obj w rls cur status e = ground arith

  found_state-absent :
      (obj : HelmRelease) (w : E.World) (rls : Release)
      → found_state E disallowed_field_managers req obj w rls ≡ ok absent
      → rls.info.status ≡ Helm.uninstalled
  unfolding found_state verified_state
  found_state-absent obj w rls e = grind (arith, managed_state-absent, same_status_eq)

  -- A release is taken to be absent, so that it is installed, only if the storage has no release of its
  -- name, or the last one has the status uninstalled.
  pub absent_safe :
      (obj : HelmRelease) (w : E.World)
      → determine_release_state E disallowed_field_managers req obj w ≡ ok absent
      → (last_release E w (get_release_name obj) ≡ err Errors.release_not_found)
        ⊎ ((rls : Release) × (last_release E w (get_release_name obj) ≡ ok rls)
            × (rls.info.status ≡ Helm.uninstalled))
  unfolding determine_release_state
  absent_safe obj w e = elim (Result-cases (last_release E w (get_release_name obj))) [
    | inr (rls, f) ↦
        inr (rls, f, found_state-absent obj w rls (rw (f, determine_release_state) at e))
    | inl (x, f) ↦ inl (f ∙ ap err ((is_iff x Errors.release_not_found).0 (ground arith)))
  ]
