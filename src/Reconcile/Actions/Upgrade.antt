-- ===== src/Reconcile/Actions/Upgrade.antt =====
-- internal/reconcile/upgrade.go
pub mod Counting
use helm_controller.Base.{
  ℕ, String, Bool, true, false, not, ◌&&◌, List, [], ◌∷◌, ◌++◌, Option, none, some, is_some,
  if◌then◌else◌,
}
use helm_controller.Errors.{Error}
use helm_controller.Api.Conditions
use helm_controller.Api.Conditions.{
  released, test_success, remediated, condition_true, condition_false, condition_unknown,
  upgrade_failed, upgrade_succeeded, awaiting_tests, printf, upgrade_failure_fmt,
  upgrade_success_fmt, test_pending_fmt, text, error,
}
use helm_controller.Api.Snapshots.{Snapshot, latest, has_been_tested}
use helm_controller.Api.Spec.{get_retry}
use helm_controller.Api.HelmRelease.{
  HelmRelease, clear_failures, get_upgrade, get_test, get_release_name, get_release_namespace,
  upgrade_remediation, increment_failure_count,
}
use helm_controller.External.Cluster.{Env, HelmOutcome}
use helm_controller.Release.Observation.{Observation}
use helm_controller.Reconcile.Request.{
  Request, Run, update_status, emit, event_meta, sort_history, set_world, mark, delete,
}
use helm_controller.Reconcile.Summary.{summarize, observe_post_renderers}
use helm_controller.Reconcile.Record.{observe_writes, observe_inventory, record_on_object}
use helm_controller.Reconcile.Actions.{
  Exit, done, failed, panicked, count_failure, emit_about, names_of, tested,
}

module _ (E : Env) (default_to_retry_on_failure : Bool) (req : Request) where
  unfoldable pub upgrade_failure : Error → Run E.World → Run E.World
  upgrade_failure e st =
      let obj = st.object in
      let msg = printf upgrade_failure_fmt (
        text (get_release_namespace obj)
        ∷ text (get_release_name obj)
        ∷ text req.chart.name
        ∷ text req.chart.version
        ∷ error e
        ∷ []) in
      emit true upgrade_failed msg
        (event_meta req.chart.version (E.digests.digest_values req.values) req.chart.app_version
          obj.status.last_attempted_revision_digest)
        (mark E released condition_false upgrade_failed msg (count_failure st))

  -- The conditions and counters that `success` writes, before its event.
  unfoldable pub upgrade_succeeded_status : Option Snapshot → Run E.World → Run E.World
  upgrade_succeeded_status cur st =
      let marked =
        mark E released condition_true upgrade_succeeded (printf upgrade_success_fmt (names_of cur))
          st in
      let awaiting =
        if (get_test st.object).enable && not (tested cur)
        then mark E test_success condition_unknown awaiting_tests
            (printf test_pending_fmt (names_of cur)) marked
        else marked in
      if is_some (get_retry (get_upgrade st.object).strategy default_to_retry_on_failure)
      then update_status clear_failures awaiting
      else awaiting

  unfoldable pub upgrade_success : Run E.World → Run E.World × Exit
  upgrade_success st =
      let cur = latest st.object.status.history in
      emit_about false upgrade_succeeded (printf upgrade_success_fmt (names_of cur)) cur done
        (upgrade_succeeded_status cur (sort_history st))

  -- The state in which the Helm action runs.
  unfoldable pub upgrade_prepare : Run E.World → Run E.World
  upgrade_prepare st = delete E remediated (
      delete E test_success
        (update_status (λ s. record s { last_attempted_release_action = Conditions.upgrade }) st))

  -- What is recorded of the Helm action, whether it failed or not.
  unfoldable pub upgrade_record : HelmOutcome E.World → Run E.World → Run E.World
  upgrade_record out st =
      let built = observe_inventory E (some req.chart) out.writes (set_world out.world st) in
      let timed =
        update_status (λ s. record s { last_attempted_release_action_duration = some out.elapsed })
          built in
      record_on_object E Conditions.upgrade (observe_writes [] out.writes) timed

  unfoldable pub upgrade_finish : List Observation → Option Error → Run E.World → Run E.World × Exit
  upgrade_finish observed (some e) st =
      let failed_st = upgrade_failure e st in
      elim observed [
        | [] ↦ (failed_st, failed e)
        | o ∷ os ↦ (
          update_status
              (increment_failure_count (upgrade_remediation (get_upgrade failed_st.object)))
              failed_st,
          done,
        )
      ]
  upgrade_finish observed none st =
      let (succeeded, exit) = upgrade_success st in
      elim exit [ done ↦ (observe_post_renderers E succeeded, done) | other ↦ (succeeded, other) ]

  -- `Reconcile`, whose deferred `summarize` runs on every path.
  unfoldable pub upgrade_reconcile : Run E.World → Run E.World × Exit
  upgrade_reconcile st =
      let prepared = upgrade_prepare st in
      let out = E.upgrade prepared.world prepared.object req.chart req.values in
      let (finished, exit) =
        upgrade_finish (observe_writes [] out.writes) out.error (upgrade_record out prepared) in
      (summarize E finished, exit)
