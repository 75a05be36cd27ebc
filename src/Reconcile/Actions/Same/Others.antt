-- ===== src/Reconcile/Actions/Same/Others.antt =====
-- The reconcilers of tests, locks, rollbacks and drift change nothing but the status.
use helm_controller.Base.{refl, Bool, true, String, List, [], ◌∷◌, ◌++◌, Option, none, some, arith}
use helm_controller.Errors.{Error}
use helm_controller.Helm.{Release}
use helm_controller.Api.Conditions.{
  Reason, Message, ready, test_success, condition_false, condition_unknown, progressing,
  test_failed, printf, error, test_failure_fmt, correcting_drift_fmt,
}
use helm_controller.Api.Snapshots.{Snapshot, latest, previous, sort_by_version}
use helm_controller.Api.Spec.{Remediation}
use helm_controller.Api.HelmRelease.{get_active_remediation, get_release_name}
use helm_controller.External.Cluster.{Env, Releaser, typed, other_api, Result, ok, err, Diff}
use helm_controller.Action.Verify.{last_release}
use helm_controller.Reconcile.Request.{Request, Run, sort_history, set_world, update_status, mark}
use helm_controller.Reconcile.Summary.Frame.{SameObject, summarize_same}
use helm_controller.Reconcile.Record.{observe_inventory}
use helm_controller.Reconcile.Actions.{Exit, done, emit_about, count_failure, names_of}
use helm_controller.Reconcile.Actions.Same.{observe_inventory_same}
use helm_controller.Reconcile.Actions.Test.{
  observed_test, observe_test, count_for, test_count, test_failure, test_succeed, mismatch_or,
  test_finish, test_run, test_reconcile,
}
use helm_controller.Reconcile.Actions.Unlock.{
  unlock_failure, unlock_success, unlock_updated, unlock_found, unlock_run, unlock_reconcile,
}
use helm_controller.Reconcile.Actions.Rollback.{
  rollback_failure, rollback_success, rollback_finish, rollback_run, rollback_ignores_tests,
  rollback_reconcile, observe_rollback,
}
use helm_controller.Reconcile.Actions.Drift.{drift_report, drift_reconcile}

pub emit_about_same :
    {World : Type 0} (warning : Bool) (why : Reason) (msg : Message) (cur : Option Snapshot)
    (exit : Exit) (st : Run World)
    → SameObject st (emit_about warning why msg cur exit st).0
unfolding emit_about
emit_about_same warning why msg none exit st = refl
emit_about_same warning why msg (some cur) exit st = refl

module _ (E : Env) where
  count_for_same : (r : Option Remediation) (st : Run E.World) → SameObject st (count_for E r st)
  unfolding count_for
  count_for_same none st = refl
  count_for_same (some r) st = ground arith

  test_count_same : (cur : Option Snapshot) (st : Run E.World) → SameObject st (test_count E cur st)
  unfolding test_count
  test_count_same cur st = ground (arith, count_for_same (get_active_remediation st.object) st)

  test_failure_same : (e : Error) (st : Run E.World) → SameObject st (test_failure E e st).0
  unfolding test_failure
  test_failure_same e st =
      let cur = latest st.object.status.history in
      let msg = printf test_failure_fmt (names_of cur ++ error e ∷ []) in
      let marked =
        mark E test_success condition_false test_failed msg (count_failure (sort_history st)) in
      let emitted = (emit_about true test_failed msg cur done marked).0 in
      ground
        (arith, emit_about_same true test_failed msg cur done marked, test_count_same cur emitted)

  test_finish_same : (e : Option Error) (st : Run E.World) → SameObject st (test_finish E e st).0
  unfolding test_finish test_succeed emit_about
  test_finish_same none st = ground arith
  test_finish_same (some e) st = ground (arith, test_failure_same e st)

  observe_test_same : (ws : List Releaser) (st : Run E.World) → SameObject st (observe_test E ws st)
  unfolding observe_test
  observe_test_same [] st = refl
  observe_test_same (other_api ∷ ws) st = observe_test_same ws st
  observe_test_same (typed rls ∷ ws) st =
      let seen =
        update_status
          (λ s. record s { history = observed_test E st.object rls (sort_by_version s.history) })
          st in
      ground (arith, observe_test_same ws seen)

  test_run_same : (cur : Option Snapshot) (st : Run E.World) → SameObject st (test_run E cur st).0
  unfolding test_run
  test_run_same none st = refl
  test_run_same (some cur) st =
      let out = E.test st.world st.object in
      let observed = observe_test E out.writes (set_world out.world st) in
      ground (
        arith,
        observe_test_same out.writes (set_world out.world st),
        test_finish_same (mismatch_or E cur out.release out.error) observed,
      )

  pub test_reconcile_same : (st : Run E.World) → SameObject st (test_reconcile E st).0
  unfolding test_reconcile
  test_reconcile_same st =
      let cur = latest st.object.status.history in
      ground (
        arith,
        test_run_same cur (sort_history st),
        summarize_same E (test_run E cur (sort_history st)).0,
      )

  unlock_found_same : (rls : Release) (st : Run E.World) → SameObject st (unlock_found E rls st).0
  unfolding unlock_found unlock_updated unlock_failure unlock_success
  unlock_found_same rls st = ground arith

  unlock_run_same :
      (res : Result Release) (st : Run E.World) → SameObject st (unlock_run E res st).0
  unfolding unlock_run
  unlock_run_same (ok rls) st = unlock_found_same rls st
  unlock_run_same (err e) st = refl

  pub unlock_reconcile_same : (st : Run E.World) → SameObject st (unlock_reconcile E st).0
  unfolding unlock_reconcile
  unlock_reconcile_same st =
      let last = last_release E st.world (get_release_name st.object) in
      ground (arith, unlock_run_same last st, summarize_same E (unlock_run E last st).0)

  drift_report_same :
      (changes : List String) (e : Option Error) (st : Run E.World)
      → SameObject st (drift_report E changes e st).0
  unfolding drift_report emit_about
  drift_report_same changes (some e) st = ground arith
  drift_report_same [] none st = refl
  drift_report_same (c ∷ cs) none st = ground arith

  pub drift_reconcile_same :
      (ds : List Diff) (manager : String) (st : Run E.World)
      → SameObject st (drift_reconcile E ds manager st).0
  unfolding drift_reconcile
  drift_reconcile_same ds manager st =
      let marked = mark E ready condition_unknown progressing (printf correcting_drift_fmt []) st in
      let out = E.apply_diff marked.world ds manager in
      ground (arith, drift_report_same out.1 out.2 (set_world out.0 marked))

module _ (E : Env) (req : Request) where
  rollback_finish_same :
      (cur : Option Snapshot) (prev : Snapshot) (e : Option Error) (st : Run E.World)
      → SameObject st (rollback_finish E req cur prev e st).0
  unfolding rollback_finish rollback_failure rollback_success
  rollback_finish_same cur prev none st = ground arith
  rollback_finish_same cur prev (some e) st = ground arith

  rollback_run_same :
      (cur target : Option Snapshot) (st : Run E.World)
      → SameObject st (rollback_run E req cur target st).0
  unfolding rollback_run
  rollback_run_same cur none st = refl
  rollback_run_same cur (some prev) st =
      let out = E.rollback st.world st.object prev.name prev.version in
      let observed =
        update_status (λ s. record s { history = observe_rollback E.digests out.writes s.history })
          (set_world out.world st) in
      let built = observe_inventory E (some req.chart) out.writes observed in
      ground (
        arith,
        observe_inventory_same E (some req.chart) out.writes observed,
        rollback_finish_same cur prev out.error built,
      )

  pub rollback_reconcile_same : (st : Run E.World) → SameObject st (rollback_reconcile E req st).0
  unfolding rollback_reconcile
  rollback_reconcile_same st =
      let history = st.object.status.history in
      let target = previous (rollback_ignores_tests E req st.object) history in
      ground (
        arith,
        rollback_run_same (latest history) target (sort_history st),
        summarize_same E (rollback_run E req (latest history) target (sort_history st)).0,
      )
