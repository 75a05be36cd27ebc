-- ===== src/Reconcile/Actions/Test.antt =====
-- internal/reconcile/test.go
pub mod Observed
pub mod Counting
use helm_controller.Base.{
  ℕ, true, false, not, List, [], ◌∷◌, ◌++◌, Option, none, some, length, if◌then◌else◌,
}
use helm_controller.Errors
use helm_controller.Errors.{Error}
use helm_controller.Helm.{Release}
use helm_controller.Api.Conditions.{
  test_success, condition_true, condition_false, test_failed, test_succeeded, printf,
  test_failure_fmt, test_success_fmt, error, size,
}
use helm_controller.Api.Snapshots.{
  Snapshot, Snapshots, latest, targets, set_test_hooks, sort_by_version, get_test_hooks,
}
use helm_controller.Api.Spec.{get_filters, must_ignore_test_failures, Remediation}
use helm_controller.Api.HelmRelease.{
  HelmRelease, get_test, get_active_remediation, increment_failure_count,
}
use helm_controller.External.Cluster.{Env, Releaser, typed, other_api}
use helm_controller.Release.Observation
use helm_controller.Release.Observation.{observe_release}
use helm_controller.Release.Snapshot.{observed_to_snapshot}
use helm_controller.Release.TestHooks.{test_hooks_from_release}
use helm_controller.Reconcile.Request.{Run, update_status, sort_history, set_world, mark}
use helm_controller.Reconcile.Summary.{summarize}
use helm_controller.Reconcile.Record.{release_to_observation}
use helm_controller.Reconcile.Actions.{
  Exit, done, failed, count_failure, emit_about, names_of, tested,
}

module _ (E : Env) where
  -- The history with the results of a test run of its latest release.
  unfoldable pub observed_test : HelmRelease → Release → Snapshots → Snapshots
  observed_test obj rls [] = []
  observed_test obj rls (cur ∷ older) =
      if targets cur rls.name rls.namespace rls.version
      then set_test_hooks
          (observed_to_snapshot E.digests (release_to_observation rls cur cur.action))
          (some (test_hooks_from_release rls (get_filters (get_test obj))))
        ∷ older
      else cur ∷ older

  -- observeTest, over the writes of the test action.
  unfoldable pub observe_test : List Releaser → Run E.World → Run E.World
  observe_test [] st = st
  observe_test (typed rls ∷ ws) st = observe_test ws (
      update_status
        (λ s. record s { history = observed_test st.object rls (sort_by_version s.history) }) st)
  observe_test (other_api ∷ ws) st = observe_test ws st

  unfoldable pub count_for : Option Remediation → Run E.World → Run E.World
  count_for none st = st
  count_for (some r) st =
      if not (must_ignore_test_failures r (get_test st.object).ignore_failures)
      then update_status (increment_failure_count r) st
      else st

  -- The remediation counter is incremented if the release has been tested.
  unfoldable pub test_count : Option Snapshot → Run E.World → Run E.World
  test_count cur st = if tested cur then count_for (get_active_remediation st.object) st else st

  unfoldable pub test_failure : Error → Run E.World → Run E.World × Exit
  test_failure e st =
      let cur = latest st.object.status.history in
      let msg = printf test_failure_fmt (names_of cur ++ error e ∷ []) in
      let (emitted, exit) =
        emit_about true test_failed msg cur done
          (mark E test_success condition_false test_failed msg (count_failure (sort_history st))) in
      elim exit [ done ↦ (test_count cur emitted, done) | other ↦ (emitted, other) ]

  unfoldable pub hook_count : Option Snapshot → ℕ
  hook_count none = 0
  hook_count (some cur) = length (get_test_hooks cur)

  unfoldable pub test_succeed : Run E.World → Run E.World × Exit
  test_succeed st =
      let cur = latest st.object.status.history in
      let msg = printf test_success_fmt (names_of cur ++ size (hook_count cur) ∷ []) in
      emit_about false test_succeeded msg cur done
        (mark E test_success condition_true test_succeeded msg (sort_history st))

  -- The error of the test action, or a mismatch of the release that it ran for.
  unfoldable pub mismatch_or : Snapshot → Option Releaser → Option Error → Option Error
  mismatch_or cur none e = e
  mismatch_or cur (some other_api) e = e
  mismatch_or cur (some (typed rls)) e =
      if not (Observation.targets (observe_release rls) cur.name cur.namespace cur.version)
      then some Errors.release_mismatch
      else e

  unfoldable pub test_finish : Option Error → Run E.World → Run E.World × Exit
  test_finish (some e) st =
      let (failed_st, exit) = test_failure e st in
      elim exit [
        | done ↦ (
          sort_history failed_st,
          if not (tested (latest failed_st.object.status.history)) then failed e else done,
        )
        | other ↦ (failed_st, other)
      ]
  test_finish none st = test_succeed st

  unfoldable pub test_run : Option Snapshot → Run E.World → Run E.World × Exit
  test_run none st = (st, failed Errors.no_latest)
  test_run (some cur) st =
      let out = E.test st.world st.object in
      test_finish (mismatch_or cur out.release out.error)
        (observe_test out.writes (set_world out.world st))

  unfoldable pub test_reconcile : Run E.World → Run E.World × Exit
  test_reconcile st =
      let (finished, exit) = test_run (latest st.object.status.history) (sort_history st) in
      (summarize E finished, exit)
