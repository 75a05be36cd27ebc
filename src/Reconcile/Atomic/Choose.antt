-- ===== src/Reconcile/Atomic/Choose.antt =====
-- internal/reconcile/atomic_release.go: actionForState, the choice of the next action.
pub mod Same
pub mod Rollback
pub mod Limits
pub mod Keeps
use helm_controller.Base.{
  ℕ, String, Bool, true, false, not, ◌&&◌, ◌||◌, List, [], ◌∷◌, ◌++◌, Option, none, some, ltz, pos,
  is_some, if◌then◌else◌,
}
use helm_controller.Errors
use helm_controller.Errors.{Error, is, is_one_of}
use helm_controller.Api.Conditions
use helm_controller.Api.Conditions.{
  ConditionType, ConditionStatus, condition_true, condition_false, released, remediated, drifted,
  Reason, no_reason, install_failed, install_succeeded, upgrade_failed, upgrade_succeeded,
  no_drift_detected, drift_detected, Message, printf, Format, install_success_fmt,
  upgrade_success_fmt, no_drift_fmt, drift_detected_fmt, ReleaseAction, no_action, Condition,
}
use helm_controller.Api.Snapshots.{
  Snapshot, latest, previous, truncate, truncate_ignoring_previous_snapshots, full_name_of,
  get_action,
}
use helm_controller.Api.Spec.{
  Remediation, must_ignore_test_failures, must_remediate_last_failure, get_strategy,
  RemediationStrategy, rollback_strategy, uninstall_strategy, other_strategy, must_detect_changes,
  get_mode, same_mode, enabled,
}
use helm_controller.Api.HelmRelease.{
  HelmRelease, clear_history, get_test, get_install, get_upgrade, install_remediation,
  upgrade_remediation, get_active_retry, get_active_remediation, retries_exhausted,
  get_failure_count, get_drift_detection,
}
use helm_controller.External.Cluster.{Env, Diff, Result, ok, err}
use helm_controller.Helm.{Release}
use helm_controller.Action.Verify.{verify_snapshot}
use helm_controller.Reconcile.Request.{
  Run, update_status, update_conditions, emit, sort_history, mark, delete,
}
use helm_controller.Reconcile.Summary.{summarize}
use helm_controller.Reconcile.State.{
  ReleaseState, in_sync, unmanaged, absent, locked, untested, failed, out_of_sync,
  drifted as state_drifted,
}
use helm_controller.Reconcile.Actions
use helm_controller.Reconcile.Actions.{Action, names_of}

-- `nil, nil` is `nothing`.
pub data Next : Type 0 where
  nothing : Next
  run : Action → Next
  refuse : Error → Next

-- MustIgnoreTestFailures of the active remediation, or the setting of the tests.
unfoldable pub ignores_test_failures : HelmRelease → Bool
ignores_test_failures obj = elim (get_active_remediation obj) [
  | none ↦ (get_test obj).ignore_failures
  | some r ↦ must_ignore_test_failures r (get_test obj).ignore_failures
]

-- The action whose success is reported for a release that is in sync.
abbrev pub success_of_action : ReleaseAction → Option (Reason × Format)
success_of_action Conditions.install = some (install_succeeded, install_success_fmt)
success_of_action Conditions.upgrade = some (upgrade_succeeded, upgrade_success_fmt)
success_of_action _ = none

abbrev pub attempted_action : ReleaseAction → Option Snapshot → ReleaseAction
attempted_action no_action cur = get_action cur
attempted_action act cur = act

unfoldable pub success_reason : Reason → ReleaseAction → Option Snapshot → Option (Reason × Format)
success_reason install_failed act cur = some (install_succeeded, install_success_fmt)
success_reason upgrade_failed act cur = some (upgrade_succeeded, upgrade_success_fmt)
success_reason _ act cur = success_of_action (attempted_action act cur)

module _ (E : Env) (default_to_retry_on_failure : Bool) where
  -- replaceCondition.
  unfoldable pub replace_condition :
      ConditionType → ConditionType → Reason → Message → ConditionStatus → Run E.World → Run E.World
  replace_condition target replacement why msg status st =
      elim (E.conditions.get st.object.status.conditions target) [
        | none ↦ st
        | some c ↦
            let set_new =
              update_conditions
                (λ cs.
                  E.conditions.set st.object.generation cs
                    (record c { type = replacement; status = status; reason = why; message = msg }))
                (delete E replacement st) in
            delete E target set_new
      ]

  -- A remediated release that turns out to be in sync counts as upgraded.
  unfoldable pub forget_remediation : Run E.World → Run E.World
  forget_remediation st =
      let cur = latest st.object.status.history in
      if E.conditions.is_true st.object.status.conditions remediated
      then replace_condition remediated released upgrade_succeeded
          (printf upgrade_success_fmt (names_of cur)) condition_true (sort_history st)
      else st

  -- The history up to the previous release is dropped, unless the active strategy is to retry.
  unfoldable pub prune_history : Run E.World → Run E.World
  prune_history st =
      if is_some (get_active_retry st.object default_to_retry_on_failure)
      then update_status
          (λ s. record s { history = truncate_ignoring_previous_snapshots s.history }) st
      else update_status
          (λ s. record s { history = truncate (ignores_test_failures st.object) s.history }) st

  unfoldable pub report_success :
      Option (Reason × Format) → Option Snapshot → Run E.World → Run E.World
  report_success none cur st = st
  report_success (some (why, fmt)) cur st =
      summarize E (mark E released condition_true why (printf fmt (names_of cur)) st)

  -- Released and Ready are set to reflect the state in sync if needed.
  unfoldable pub restore_released : Run E.World → Run E.World
  restore_released st =
      let cs = st.object.status.conditions in
      let cur = latest st.object.status.history in
      if not (E.conditions.is_ready cs) || not (E.conditions.is_true cs released)
      then report_success
          (success_reason (E.conditions.get_reason cs released)
            st.object.status.last_attempted_release_action cur)
          cur st
      else st

  unfoldable pub clear_drift : Run E.World → Run E.World
  clear_drift st =
      if must_detect_changes (get_drift_detection st.object)
      then mark E drifted condition_false no_drift_detected (printf no_drift_fmt []) st
      else st

  unfoldable pub in_sync_next : Bool → Run E.World → Run E.World × Next
  in_sync_next forced st =
      let pruned = prune_history st in
      if forced
      then (pruned, run Actions.upgrade)
      else (clear_drift (restore_released (forget_remediation pruned)), nothing)

  -- The choice for an absent release, and for one that is out of sync.
  unfoldable pub release_or_refuse : Remediation → Action → Bool → Run E.World → Run E.World × Next
  release_or_refuse r act forced st = (
    st,
    if retries_exhausted r st.object && not forced
        then refuse Errors.exceeded_max_retries
        else run act,
  )

  unfoldable pub drifted_next : List Diff → Run E.World → Run E.World × Next
  drifted_next diffs st =
      let msg = printf drift_detected_fmt (full_name_of (latest st.object.status.history) ∷ []) in
      (
        mark E drifted condition_true drift_detected msg
            (emit true drift_detected msg none (sort_history st)),
        if same_mode (get_mode (get_drift_detection st.object)) enabled
            then run (Actions.correct_cluster_drift diffs)
            else nothing,
      )

  -- The rollback target must still be in storage, unmodified.
  unfoldable pub rollback_next : Result Release → Next
  rollback_next (ok rls) = run Actions.rollback_remediation
  rollback_next (err e) =
      if is e Errors.release_not_found
      then refuse Errors.missing_rollback_target
      else if is_one_of e
          (Errors.release_disappeared ∷ Errors.release_not_observed ∷ Errors.release_digest ∷ [])
      then run Actions.upgrade
      else refuse e

  unfoldable pub remediate_by : RemediationStrategy → Bool → Run E.World → Run E.World × Next
  remediate_by rollback_strategy ignore st = (
    sort_history st,
    rollback_next (verify_snapshot E st.world (previous ignore st.object.status.history)),
  )
  remediate_by uninstall_strategy ignore st = (st, run Actions.uninstall_remediation)
  remediate_by other_strategy ignore st = (st, refuse Errors.unknown_remediation_strategy)

  unfoldable pub failed_remediation : Remediation → Bool → Run E.World → Run E.World × Next
  failed_remediation r forced st =
      let ignore = must_ignore_test_failures r (get_test st.object).ignore_failures in
      let truncated = update_status (λ s. record s { history = truncate ignore s.history }) st in
      if not (ltz (pos 0) (get_failure_count r st.object))
      then (st, run Actions.upgrade)
      else if forced
      then (st, run Actions.upgrade)
      else if retries_exhausted r st.object && not (must_remediate_last_failure r)
      then (st, refuse Errors.exceeded_max_retries)
      else remediate_by (get_strategy r) ignore truncated

  unfoldable pub failed_next : Bool → Run E.World → Run E.World × Next
  failed_next forced st =
      let remediation : Run E.World × Next = elim (get_active_remediation st.object) [
        | none ↦ (st, run Actions.upgrade)
        | some r ↦ failed_remediation r forced st
      ] in
      if is_some (get_active_retry st.object default_to_retry_on_failure)
      then (
        update_status (λ s. record s { history = truncate_ignoring_previous_snapshots s.history })
            st,
        run Actions.upgrade,
      )
      else remediation

  -- The `switch` of actionForState.
  unfoldable pub choose : ReleaseState → Bool → Run E.World → Run E.World × Next
  choose in_sync forced st = in_sync_next forced st
  choose locked forced st = (st, run Actions.unlock)
  choose absent forced st =
      release_or_refuse (install_remediation (get_install st.object)) Actions.install forced st
  choose unmanaged forced st = (update_status clear_history st, run Actions.upgrade)
  choose (out_of_sync why) forced st =
      release_or_refuse (upgrade_remediation (get_upgrade st.object)) Actions.upgrade forced st
  choose (state_drifted diffs) forced st = drifted_next diffs st
  choose untested forced st = (forget_remediation st, run Actions.test)
  choose failed forced st = failed_next forced st

  -- ShouldHandleForceRequest, with the status that it updates.
  unfoldable pub should_handle_force_request : Run E.World → Bool × Run E.World
  should_handle_force_request st =
      let (forced, token) =
        E.handle_force st.object.annotations st.object.status.last_handled_force_at in
      (forced, update_status (λ s. record s { last_handled_force_at = token }) st)

  unfoldable pub action_for_state : ReleaseState → Run E.World → Run E.World × Next
  action_for_state state st =
      let (forced, handled) = should_handle_force_request st in choose state forced handled
