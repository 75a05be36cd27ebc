-- ===== src/Reconcile/Actions/Install/Counting.antt =====
-- How the install reconciler counts failures (internal/reconcile/install.go).
use helm_controller.Base.{
  not, deref, ◌≡◌, refl, ap, ◌∙◌, Bool, List, [], ◌∷◌, Option, none, some, is_some, inc64, arith,
}
use helm_controller.Errors.{Error}
use helm_controller.Api.Spec.{get_retry, no_install}
use helm_controller.Api.HelmRelease.{
  get_install, clear_history, clear_failures, increment_failure_count, install_remediation,
}
use helm_controller.Api.Snapshots.{latest, sort_by_version}
use helm_controller.Api.Conditions
use helm_controller.Api.Conditions.{ReleaseAction}
use helm_controller.External.Cluster.{Env, HelmOutcome}
use helm_controller.Release.Observation.{Observation}
use helm_controller.Reconcile.Request.{Request, Run, set_world}
use helm_controller.Reconcile.Summary.{observe_post_renderers}
use helm_controller.Reconcile.Record.{
  observe_writes, observe_inventory, record_on_object, record_observed,
}
use helm_controller.Reconcile.Actions.{Exit, done, failed, panicked, emit_about}
use helm_controller.Reconcile.Actions.Install.{
  install_reconcile, install_finish, install_prepare, install_record, install_failure,
  install_success, install_succeeded_status,
}
use helm_controller.Reconcile.Actions.Tally.{
  Tally, tally, tally-summarize, tally-observe_inventory, history-observe_inventory,
  is_some-latest-record, is_nil, counted, cleared_if,
}

module _ (E : Env) (retry : Bool) (req : Request) where
  tally-install_record :
      (out : HelmOutcome E.World) (st : Run E.World)
      → tally (install_record E retry req out st) ≡ tally st
  unfolding install_record record_on_object
  tally-install_record out st = tally-observe_inventory E (some req.chart) out.writes _

  -- Whether the strategy of the install is to retry, which clears the counters on success.
  abbrev pub install_retries : Tally → Bool
  install_retries t = is_some (get_retry (deref t.spec.install no_install).strategy retry)

  -- The counters and the exit of an install, by what it wrote to the storage and its error.
  abbrev pub install_table : List Observation → Option Error → Tally → Tally × Exit
  install_table [] (some e) t = (counted t, failed e)
  install_table (o ∷ os) (some e) t =
      (record (counted t) { install_failures = inc64 t.install_failures }, done)
  install_table [] none t = (cleared_if (install_retries t) t, panicked)
  install_table (o ∷ os) none t = (cleared_if (install_retries t) t, done)

  install_finish-tally :
      (observed : List Observation) (e : Option Error) (st : Run E.World)
      → is_some (latest st.object.status.history) ≡ not (is_nil observed)
      → (
        tally (install_finish E retry req observed e st).0,
        (install_finish E retry req observed e st).1,
      )
        ≡ install_table observed e (tally st)
  unfolding install_finish install_failure increment_failure_count install_remediation get_install
      emit_about install_success install_succeeded_status observe_post_renderers clear_failures
  install_finish-tally [] (some x) st h = refl
  install_finish-tally (o ∷ os) (some x) st h = refl
  install_finish-tally [] none st h = ground arith
  install_finish-tally (o ∷ os) none st h = ground arith

  is_some-latest-install_record :
      (out : HelmOutcome E.World) (st : Run E.World)
      → st.object.status.history ≡ []
      → is_some (latest (install_record E retry req out st).object.status.history)
        ≡ not (is_nil (observe_writes [] out.writes))
  unfolding install_record record_on_object record_observed latest sort_by_version
  is_some-latest-install_record out st empty =
      let before = observe_inventory E (some req.chart) out.writes (set_world out.world st) in
      of_observed (observe_writes [] out.writes) before
        (history-observe_inventory E (some req.chart) out.writes (set_world out.world st) ∙ empty)
    where
      of_observed :
          (os : List Observation) (before : Run E.World)
          → before.object.status.history ≡ []
          → is_some (
              latest (
                record_observed E.digests before.object.status.last_attempted_revision_digest
                  Conditions.install os before.object.status.history))
            ≡ not (is_nil os)
      of_observed [] before e = rw e refl
      of_observed (o ∷ os) before e = is_some-latest-record _ _ _ o os _

  tally-install_prepare : (st : Run E.World) → tally (install_prepare E retry req st) ≡ tally st
  unfolding install_prepare clear_history
  tally-install_prepare st = refl

  history-install_prepare :
      (st : Run E.World) → (install_prepare E retry req st).object.status.history ≡ []
  unfolding install_prepare clear_history
  history-install_prepare st = refl

  -- What an install does to the failure counters, and how it exits, is decided by its error and by
  -- whether it wrote a release to the storage. A failure is counted; it counts against the install
  -- remediation, and is not passed on as an error, if and only if something was stored. A success
  -- clears all counters if and only if the strategy is to retry on failure, and leaves them alone
  -- otherwise. A success with nothing stored panics.
  pub install_reconcile-tally :
      (st : Run E.World)
      → let prepared = install_prepare E retry req st in
        let out = E.install prepared.world prepared.object req.chart req.values in
        let (ended, exit) = install_reconcile E retry req st in
        (tally ended, exit) ≡ install_table (observe_writes [] out.writes) out.error (tally st)
  unfolding install_reconcile
  install_reconcile-tally st =
      let prepared = install_prepare E retry req st in
      let out = E.install prepared.world prepared.object req.chart req.values in
      let observed = observe_writes [] out.writes in
      let recorded = install_record E retry req out prepared in
      let finished = install_finish E retry req observed out.error recorded in
      ap (λ t. (t, finished.1)) (tally-summarize E finished.0)
      ∙ install_finish-tally observed out.error recorded
          (is_some-latest-install_record out prepared (history-install_prepare st))
      ∙ ap (install_table observed out.error)
          (tally-install_record out prepared ∙ tally-install_prepare st)
