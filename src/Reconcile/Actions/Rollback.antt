-- ===== src/Reconcile/Actions/Rollback.antt =====
-- internal/reconcile/rollback_remediation.go
pub mod Settled
use helm_controller.Base.{
  Bool, true, false, not, ◌||◌, List, [], ◌∷◌, ◌++◌, Option, none, some, str_eq, if◌then◌else◌,
}
use helm_controller.Errors
use helm_controller.Errors.{Error}
use helm_controller.Helm.{Release}
use helm_controller.Api.Conditions
use helm_controller.Api.Conditions.{
  remediated, condition_true, condition_false, rollback_failed, rollback_succeeded, printf,
  rollback_failure_fmt, rollback_success_fmt, error,
}
use helm_controller.Api.Snapshots.{Snapshot, Snapshots, latest, previous, targets, set_test_hooks}
use helm_controller.Api.Spec.{must_ignore_test_failures}
use helm_controller.Api.HelmRelease.{HelmRelease, get_test, get_upgrade, upgrade_remediation}
use helm_controller.External.Digests.{Digests}
use helm_controller.External.Cluster.{Env, Releaser, typed, other_api}
use helm_controller.Release.Observation.{observe_release}
use helm_controller.Release.Snapshot.{observed_to_snapshot}
use helm_controller.Reconcile.Request.{
  Request, Run, update_status, emit, event_meta, sort_history, set_world, mark,
}
use helm_controller.Reconcile.Summary.{summarize}
use helm_controller.Reconcile.Record.{release_to_observation, observe_inventory}
use helm_controller.Reconcile.Actions.{Exit, done, failed, count_failure, names_of}

-- The loop of observeRollback and of observeUninstall: the first snapshot that the release targets
-- is taken anew, and keeps its test hooks.
unfoldable pub replace_snapshot :
    Digests → Conditions.ReleaseAction → Release → Snapshots → Option Snapshots
replace_snapshot d act rls [] = none
replace_snapshot d act rls (snap ∷ ss) =
    let rest = replace_snapshot d act rls ss in
    if targets snap rls.name rls.namespace rls.version
    then some (
        set_test_hooks (observed_to_snapshot d (release_to_observation rls snap act))
          snap.test_hooks
        ∷ ss)
    else elim rest [ none ↦ none | some l ↦ some (snap ∷ l) ]

-- A release that no snapshot stands for is put in front of the history.
unfoldable pub observe_rollback : Digests → List Releaser → Snapshots → Snapshots
observe_rollback d [] history = history
observe_rollback d (other_api ∷ ws) history = observe_rollback d ws history
observe_rollback d (typed rls ∷ ws) history =
    observe_rollback d ws (elim (replace_snapshot d Conditions.rollback rls history) [
      | some l ↦ l
      | none ↦ observed_to_snapshot d (observe_release rls) ∷ history
    ])

-- `newCur == nil || newCur.Digest == cur.Digest`.
unfoldable pub nothing_stored : Option Snapshot → Option Snapshot → Bool
nothing_stored cur none = true
nothing_stored none (some new) = false
nothing_stored (some cur) (some new) = str_eq new.digest cur.digest

module _ (E : Env) (req : Request) where
  unfoldable pub rollback_failure : Snapshot → Error → Run E.World → Run E.World
  rollback_failure prev e st =
      let msg = printf rollback_failure_fmt (names_of (some prev) ++ error e ∷ []) in
      emit true rollback_failed msg
        (event_meta prev.chart_version (E.digests.digest_values req.values) prev.app_version
          prev.oci_digest)
        (mark E remediated condition_false rollback_failed msg (count_failure st))

  unfoldable pub rollback_success : Snapshot → Run E.World → Run E.World
  rollback_success prev st =
      let msg = printf rollback_success_fmt (names_of (some prev)) in
      emit false rollback_succeeded msg
        (event_meta prev.chart_version (E.digests.digest_values req.values) prev.app_version
          prev.oci_digest)
        (mark E remediated condition_true rollback_succeeded msg st)

  unfoldable pub rollback_finish :
      Option Snapshot → Snapshot → Option Error → Run E.World → Run E.World × Exit
  rollback_finish cur prev none st = (rollback_success prev st, done)
  rollback_finish cur prev (some e) st =
      let failed_st = rollback_failure prev e st in
      (
        sort_history failed_st,
        if nothing_stored cur (latest failed_st.object.status.history) then failed e else done,
      )

  unfoldable pub other_release : Option Snapshot → Snapshot → Bool
  other_release none prev = false
  other_release (some cur) prev =
      not (str_eq prev.name cur.name) || not (str_eq prev.namespace cur.namespace)

  unfoldable pub rollback_run : Option Snapshot → Option Snapshot → Run E.World → Run E.World × Exit
  rollback_run cur none st = (st, failed Errors.missing_rollback_target)
  rollback_run cur (some prev) st =
      let out = E.rollback st.world st.object prev.name prev.version in
      let observed =
        update_status (λ s. record s { history = observe_rollback E.digests out.writes s.history })
          (set_world out.world st) in
      if other_release cur prev
      then (st, failed Errors.release_mismatch)
      else rollback_finish cur prev out.error
          (observe_inventory E (some req.chart) out.writes observed)

  -- Test failures are ignored as the upgrade remediation says.
  unfoldable pub rollback_ignores_tests : HelmRelease → Bool
  rollback_ignores_tests obj =
      must_ignore_test_failures (upgrade_remediation (get_upgrade obj))
        (get_test obj).ignore_failures

  unfoldable pub rollback_reconcile : Run E.World → Run E.World × Exit
  rollback_reconcile st =
      let history = st.object.status.history in
      let (finished, exit) =
        rollback_run (latest history) (previous (rollback_ignores_tests st.object) history)
          (sort_history st) in
      (summarize E finished, exit)
