-- ===== src/Reconcile/Actions/Uninstall.antt =====
-- internal/reconcile/uninstall.go and uninstall_remediation.go
pub mod Frame
pub mod History
pub mod Settled
pub mod Gone
use helm_controller.Base.{
  ℕ, String, Bool, true, false, not, ◌&&◌, List, [], ◌∷◌, ◌++◌, Option, none, some, str_eq,
  if◌then◌else◌,
}
use helm_controller.Errors
use helm_controller.Errors.{Error, is}
use helm_controller.Helm
use helm_controller.Helm.{Release, same_status}
use helm_controller.Api.Conditions
use helm_controller.Api.Conditions.{
  released, remediated, condition_true, condition_false, uninstall_failed, uninstall_succeeded,
  printf, error, uninstall_remediation_failure_fmt, uninstall_remediation_success_fmt,
  uninstall_failure_fmt, uninstall_success_fmt, assume_uninstalled_fmt, already_uninstalled_fmt,
}
use helm_controller.Api.Snapshots.{Snapshot, Snapshots, latest, full_name_of}
use helm_controller.Api.HelmRelease.{HelmRelease, get_uninstall}
use helm_controller.External.Digests.{Digests}
use helm_controller.External.Cluster.{Env, HelmOutcome, Releaser, typed, other_api}
use helm_controller.Release.Observation
use helm_controller.Release.Observation.{observe_release}
use helm_controller.Reconcile.Request.{Run, update_status, sort_history, set_world, mark}
use helm_controller.Reconcile.Summary.{summarize}
use helm_controller.Reconcile.Actions.{Exit, done, failed, count_failure, emit_about, names_of}
use helm_controller.Reconcile.Actions.Rollback.{replace_snapshot}

-- observeUninstall, over the writes of the uninstall action.
unfoldable pub observe_uninstall :
    Digests → Conditions.ReleaseAction → List Releaser → Snapshots → Snapshots
observe_uninstall d act [] history = history
observe_uninstall d act (other_api ∷ ws) history = observe_uninstall d act ws history
observe_uninstall d act (typed rls ∷ ws) history =
    observe_uninstall d act ws
      (elim (replace_snapshot d act rls history) [ some l ↦ l | none ↦ history ])

-- The digest of the latest snapshot is still that of `cur`. The history is not empty here.
unfoldable pub same_digest : Snapshot → Option Snapshot → Bool
same_digest cur none = false
same_digest cur (some new) = str_eq cur.digest new.digest

-- The error after the checks of the release that was uninstalled and of the storage update;
-- `exempt` is the exception for a release that was marked as uninstalled before.
unfoldable pub uninstall_error :
    Bool → Snapshot → Option Releaser → Option Error → Option Snapshot → Option Error
uninstall_error exempt cur res e new =
    let checked : Option Error = elim res [
      | some (typed rls) ↦
          if not (Observation.targets (observe_release rls) cur.name cur.namespace cur.version)
          then some Errors.release_mismatch
          else e
      | _ ↦ e
    ] in
    elim checked [
      | some x ↦ some x
      | none ↦ if same_digest cur new && not exempt then some Errors.no_storage_update else none
    ]

abbrev pub is_other_api : Option Releaser → Bool
is_other_api none = false
is_other_api (some (typed rls)) = false
is_other_api (some other_api) = true

module _ (E : Env) where
  unfoldable pub uninstall_remediation_failure : Error → Run E.World → Run E.World × Exit
  uninstall_remediation_failure e st =
      let cur = latest st.object.status.history in
      let msg = printf uninstall_remediation_failure_fmt (names_of cur ++ error e ∷ []) in
      emit_about true uninstall_failed msg cur done
        (mark E remediated condition_false uninstall_failed msg (count_failure (sort_history st)))

  unfoldable pub uninstall_remediation_success : Run E.World → Run E.World × Exit
  uninstall_remediation_success st =
      let cur = latest st.object.status.history in
      let msg = printf uninstall_remediation_success_fmt (names_of cur) in
      emit_about false uninstall_succeeded msg cur done
        (mark E remediated condition_true uninstall_succeeded msg (sort_history st))

  unfoldable pub uninstall_remediation_finish :
      Snapshot → Option Error → Run E.World → Run E.World × Exit
  uninstall_remediation_finish cur (some e) st =
      let (failed_st, exit) = uninstall_remediation_failure e st in
      elim exit [
        | done ↦ (
          failed_st,
          if same_digest cur (latest failed_st.object.status.history) then failed e else done,
        )
        | other ↦ (failed_st, other)
      ]
  uninstall_remediation_finish cur none st = uninstall_remediation_success st

  -- The state after the uninstall action, with what its observer recorded.
  unfoldable pub uninstall_observed :
      Conditions.ReleaseAction → HelmOutcome E.World → Run E.World → Run E.World
  uninstall_observed act out st =
      update_status
        (λ s. record s { history = observe_uninstall E.digests act out.writes s.history })
        (set_world out.world st)

  -- `Reconcile` of UninstallRemediation, which does not summarize the conditions.
  unfoldable pub uninstall_remediation_run : Option Snapshot → Run E.World → Run E.World × Exit
  uninstall_remediation_run none st = (st, failed Errors.no_latest)
  uninstall_remediation_run (some cur) st =
      let out = E.uninstall st.world st.object cur.name in
      let observed = uninstall_observed Conditions.uninstall_remediation out st in
      let e =
        uninstall_error false cur out.release out.error (latest observed.object.status.history) in
      if is_other_api out.release
      then (observed, failed Errors.unsupported_chart_api)
      else uninstall_remediation_finish cur e observed

  unfoldable pub uninstall_remediation_reconcile : Run E.World → Run E.World × Exit
  uninstall_remediation_reconcile st =
      uninstall_remediation_run (latest st.object.status.history) (sort_history st)

  unfoldable pub uninstall_failure : Error → Run E.World → Run E.World × Exit
  uninstall_failure e st =
      let cur = latest st.object.status.history in
      let msg = printf uninstall_failure_fmt (names_of cur ++ error e ∷ []) in
      emit_about true uninstall_failed msg cur (failed e)
        (mark E released condition_false uninstall_failed msg (count_failure (sort_history st)))

  unfoldable pub uninstall_success : Run E.World → Run E.World × Exit
  uninstall_success st =
      let cur = latest st.object.status.history in
      let msg = printf uninstall_success_fmt (names_of cur) in
      emit_about false uninstall_succeeded msg cur done (
        mark E released condition_false uninstall_succeeded msg
          (update_status (λ s. record s { inventory = none }) (sort_history st)))

  unfoldable pub uninstall_finish : Option Error → Run E.World → Run E.World × Exit
  uninstall_finish (some e) st = uninstall_failure e st
  uninstall_finish none st = uninstall_success st

  -- The two errors that mean that the release is gone already.
  unfoldable pub is_gone : HelmRelease → Option Error → Option Conditions.Format
  is_gone obj none = none
  is_gone obj (some e) =
      if is e Errors.driver_release_not_found
      then some assume_uninstalled_fmt
      else if (get_uninstall obj).keep_history && E.is_already_deleted e
      then some already_uninstalled_fmt
      else none

  unfoldable pub uninstall_run : Option Snapshot → Run E.World → Run E.World × Exit
  uninstall_run none st = (st, failed Errors.no_latest)
  uninstall_run (some cur) st =
      let out = E.uninstall st.world st.object cur.name in
      let observed = uninstall_observed Conditions.uninstall out st in
      let e =
        uninstall_error (same_status cur.status Helm.uninstalled) cur out.release out.error
          (latest observed.object.status.history) in
      let finished =
        if is_other_api out.release
        then (observed, failed Errors.unsupported_chart_api)
        else uninstall_finish e observed in
      elim (is_gone observed.object out.error) [
        | some fmt ↦ (
          mark E released condition_false uninstall_succeeded
              (printf fmt (full_name_of (some cur) ∷ [])) observed,
          done,
        )
        | none ↦ finished
      ]

  -- `Reconcile` of Uninstall, whose deferred `summarize` runs on every path.
  unfoldable pub uninstall_reconcile : Run E.World → Run E.World × Exit
  uninstall_reconcile st =
      let (finished, exit) = uninstall_run (latest st.object.status.history) (sort_history st) in
      (summarize E finished, exit)
