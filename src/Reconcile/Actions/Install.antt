-- ===== src/Reconcile/Actions/Install.antt =====
-- internal/reconcile/install.go
pub mod Counting
use helm_controller.Base.{
  ℕ, String, Bool, true, false, not, ◌&&◌, List, [], ◌∷◌, ◌++◌, Option, none, some, is_some,
  if◌then◌else◌,
}
use helm_controller.Errors.{Error}
use helm_controller.Api.Conditions
use helm_controller.Api.Conditions.{
  released, test_success, remediated, condition_true, condition_false, condition_unknown,
  install_failed, install_succeeded, awaiting_tests, printf, install_failure_fmt,
  install_success_fmt, test_pending_fmt, text, error,
}
use helm_controller.Api.Snapshots.{Snapshot, latest, has_been_tested}
use helm_controller.Api.Spec.{get_retry}
use helm_controller.Api.HelmRelease.{
  HelmRelease, clear_history, clear_failures, get_install, get_test, get_release_name,
  get_release_namespace, install_remediation, increment_failure_count,
}
use helm_controller.External.Cluster.{Env, HelmOutcome}
use helm_controller.Release.Observation.{Observation}
use helm_controller.Reconcile.Request.{
  Request, Run, update_status, emit, event_meta, sort_history, set_world, mark, delete,
}
use helm_controller.Reconcile.Summary.{summarize, observe_post_renderers}
use helm_controller.Reconcile.Record.{observe_writes, observe_inventory, record_on_object}
use helm_controller.Reconcile.Actions.{
  Exit, done, failed, panicked, count_failure, emit_about, names_of, tested,
}

module _ (E : Env) (default_to_retry_on_failure : Bool) (req : Request) where
  unfoldable pub install_failure : Error → Run E.World → Run E.World
  install_failure e st =
      let obj = st.object in
      let msg = printf install_failure_fmt (
        text (get_release_namespace obj)
        ∷ text (get_release_name obj)
        ∷ text req.chart.name
        ∷ text req.chart.version
        ∷ error e
        ∷ []) in
      emit true install_failed msg
        (event_meta req.chart.version (E.digests.digest_values req.values) req.chart.app_version
          obj.status.last_attempted_revision_digest)
        (mark E released condition_false install_failed msg (count_failure st))

  -- The conditions and counters that `success` writes, before its event.
  unfoldable pub install_succeeded_status : Option Snapshot → Run E.World → Run E.World
  install_succeeded_status cur st =
      let marked =
        mark E released condition_true install_succeeded (printf install_success_fmt (names_of cur))
          st in
      let awaiting =
        if (get_test st.object).enable && not (tested cur)
        then mark E test_success condition_unknown awaiting_tests
            (printf test_pending_fmt (names_of cur)) marked
        else marked in
      if is_some (get_retry (get_install st.object).strategy default_to_retry_on_failure)
      then update_status clear_failures awaiting
      else awaiting

  unfoldable pub install_success : Run E.World → Run E.World × Exit
  install_success st =
      let cur = latest st.object.status.history in
      emit_about false install_succeeded (printf install_success_fmt (names_of cur)) cur done
        (install_succeeded_status cur (sort_history st))

  -- The state in which the Helm action runs.
  unfoldable pub install_prepare : Run E.World → Run E.World
  install_prepare st = delete E remediated (
      delete E test_success (
        update_status
          (λ s. clear_history (record s { last_attempted_release_action = Conditions.install }))
          st))

  -- What is recorded of the Helm action, whether it failed or not.
  unfoldable pub install_record : HelmOutcome E.World → Run E.World → Run E.World
  install_record out st =
      let built = observe_inventory E (some req.chart) out.writes (set_world out.world st) in
      let timed =
        update_status (λ s. record s { last_attempted_release_action_duration = some out.elapsed })
          built in
      record_on_object E Conditions.install (observe_writes [] out.writes) timed

  unfoldable pub install_finish : List Observation → Option Error → Run E.World → Run E.World × Exit
  install_finish observed (some e) st =
      let failed_st = install_failure e st in
      elim observed [
        | [] ↦ (failed_st, failed e)
        | o ∷ os ↦ (
          update_status
              (increment_failure_count (install_remediation (get_install failed_st.object)))
              failed_st,
          done,
        )
      ]
  install_finish observed none st =
      let (succeeded, exit) = install_success st in
      elim exit [ done ↦ (observe_post_renderers E succeeded, done) | other ↦ (succeeded, other) ]

  -- `Reconcile`, whose deferred `summarize` runs on every path.
  unfoldable pub install_reconcile : Run E.World → Run E.World × Exit
  install_reconcile st =
      let prepared = install_prepare st in
      let out = E.install prepared.world prepared.object req.chart req.values in
      let (finished, exit) =
        install_finish (observe_writes [] out.writes) out.error (install_record out prepared) in
      (summarize E finished, exit)
