-- ===== src/Reconcile/Actions/Upgrade/Counting.antt =====
-- How the upgrade reconciler counts failures (internal/reconcile/upgrade.go).
use helm_controller.Base.{
  not, deref, ◌≡◌, refl, ap, ◌∙◌, Bool, true, ◌||◌, List, [], ◌∷◌, Option, none, some, is_some,
  inc64, arith, if◌then◌else◌,
}
use helm_controller.Errors.{Error}
use helm_controller.Api.Spec.{get_retry, no_upgrade}
use helm_controller.Api.HelmRelease.{
  get_upgrade, clear_failures, increment_failure_count, upgrade_remediation,
}
use helm_controller.Api.Snapshots.{latest}
use helm_controller.Api.Conditions
use helm_controller.Api.Conditions.{ReleaseAction}
use helm_controller.External.Cluster.{Env, HelmOutcome}
use helm_controller.Release.Observation.{Observation}
use helm_controller.Reconcile.Request.{Request, Run, set_world}
use helm_controller.Reconcile.Summary.{observe_post_renderers}
use helm_controller.Reconcile.Record.{
  observe_writes, observe_inventory, record_on_object, record_observed,
}
use helm_controller.Reconcile.Actions.{Exit, done, failed, panicked, emit_about}
use helm_controller.Reconcile.Actions.Upgrade.{
  upgrade_reconcile, upgrade_finish, upgrade_prepare, upgrade_record, upgrade_failure,
  upgrade_success, upgrade_succeeded_status,
}
use helm_controller.Reconcile.Actions.Tally.{
  Tally, tally, tally-summarize, tally-observe_inventory, history-observe_inventory,
  is_some-latest-record, is_nil, counted, cleared_if,
}

or_true : (b : Bool) → true ≡ (b || true)
or_true b = ground arith

module _ (E : Env) (retry : Bool) (req : Request) where
  tally-upgrade_record :
      (out : HelmOutcome E.World) (st : Run E.World)
      → tally (upgrade_record E retry req out st) ≡ tally st
  unfolding upgrade_record record_on_object
  tally-upgrade_record out st = tally-observe_inventory E (some req.chart) out.writes _

  -- Whether the strategy of the upgrade is to retry, which clears the counters on success.
  abbrev pub upgrade_retries : Tally → Bool
  upgrade_retries t = is_some (get_retry (deref t.spec.upgrade no_upgrade).strategy retry)

  -- The counters and the exit of an upgrade, by what it wrote to the storage and its error.
  abbrev pub upgrade_table : List Observation → Option Error → Bool → Tally → Tally × Exit
  upgrade_table [] (some e) known t = (counted t, failed e)
  upgrade_table (o ∷ os) (some e) known t =
      (record (counted t) { upgrade_failures = inc64 t.upgrade_failures }, done)
  upgrade_table [] none known t =
      (cleared_if (upgrade_retries t) t, if known then done else panicked)
  upgrade_table (o ∷ os) none known t = (cleared_if (upgrade_retries t) t, done)

  upgrade_finish-tally :
      (observed : List Observation) (e : Option Error) (known : Bool) (st : Run E.World)
      → is_some (latest st.object.status.history) ≡ (known || not (is_nil observed))
      → (
        tally (upgrade_finish E retry req observed e st).0,
        (upgrade_finish E retry req observed e st).1,
      )
        ≡ upgrade_table observed e known (tally st)
  unfolding upgrade_finish upgrade_failure increment_failure_count upgrade_remediation get_upgrade
      emit_about upgrade_success upgrade_succeeded_status observe_post_renderers clear_failures
  upgrade_finish-tally [] (some x) known st h = refl
  upgrade_finish-tally (o ∷ os) (some x) known st h = refl
  upgrade_finish-tally [] none known st h = ground arith
  upgrade_finish-tally (o ∷ os) none known st h = ground arith

  is_some-latest-upgrade_record :
      (out : HelmOutcome E.World) (st : Run E.World)
      → is_some (latest (upgrade_record E retry req out st).object.status.history)
        ≡ (is_some (latest st.object.status.history) || not (is_nil (observe_writes [] out.writes)))
  unfolding upgrade_record record_on_object record_observed
  is_some-latest-upgrade_record out st =
      let before = observe_inventory E (some req.chart) out.writes (set_world out.world st) in
      of_observed (observe_writes [] out.writes) before
      ∙ ap (λ h. is_some (latest h) || not (is_nil (observe_writes [] out.writes)))
          (history-observe_inventory E (some req.chart) out.writes (set_world out.world st))
    where
      of_observed :
          (os : List Observation) (before : Run E.World)
          → is_some (
              latest (
                record_observed E.digests before.object.status.last_attempted_revision_digest
                  Conditions.upgrade os before.object.status.history))
            ≡ (is_some (latest before.object.status.history) || not (is_nil os))
      of_observed [] before = ground arith
      of_observed (o ∷ os) before =
          is_some-latest-record E.digests before.object.status.last_attempted_revision_digest
            Conditions.upgrade o os before.object.status.history
          ∙ or_true (is_some (latest before.object.status.history))

  tally-upgrade_prepare : (st : Run E.World) → tally (upgrade_prepare E retry req st) ≡ tally st
  unfolding upgrade_prepare
  tally-upgrade_prepare st = refl

  history-upgrade_prepare :
      (st : Run E.World)
      → (upgrade_prepare E retry req st).object.status.history ≡ st.object.status.history
  unfolding upgrade_prepare
  history-upgrade_prepare st = refl

  -- What an upgrade does to the failure counters, and how it exits, is decided by its error and by
  -- whether it wrote a release to the storage. A failure is counted; it counts against the upgrade
  -- remediation, and is not passed on as an error, if and only if something was stored. A success
  -- clears all counters if and only if the strategy is to retry on failure, and leaves them alone
  -- otherwise. A success with nothing stored panics where the history is empty.
  pub upgrade_reconcile-tally :
      (st : Run E.World)
      → let prepared = upgrade_prepare E retry req st in
        let out = E.upgrade prepared.world prepared.object req.chart req.values in
        let (ended, exit) = upgrade_reconcile E retry req st in
        (tally ended, exit)
        ≡ upgrade_table
            (observe_writes [] out.writes)
            out.error
            (is_some (latest st.object.status.history))
            (tally st)
  unfolding upgrade_reconcile
  upgrade_reconcile-tally st =
      let prepared = upgrade_prepare E retry req st in
      let out = E.upgrade prepared.world prepared.object req.chart req.values in
      let observed = observe_writes [] out.writes in
      let recorded = upgrade_record E retry req out prepared in
      let finished = upgrade_finish E retry req observed out.error recorded in
      ap (λ t. (t, finished.1)) (tally-summarize E finished.0)
      ∙ upgrade_finish-tally observed out.error (is_some (latest st.object.status.history)) recorded
          (is_some-latest-upgrade_record out prepared
            ∙ ap (λ h. is_some (latest h) || not (is_nil observed)) (history-upgrade_prepare st))
      ∙ ap (upgrade_table observed out.error (is_some (latest st.object.status.history)))
          (tally-upgrade_record out prepared ∙ tally-upgrade_prepare st)
