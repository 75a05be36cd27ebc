-- ===== src/Reconcile/Atomic/Loop.antt =====
-- internal/reconcile/atomic_release.go: the loop of AtomicRelease.Reconcile. One round of the loop is
-- `round`; the loop recurs on fuel, and a separate theorem gives the fuel that it needs.
pub mod Same
pub mod Bound
pub mod Stall
pub mod Reached
pub mod Outcome
use helm_controller.Base.{
  ℕ, zero, suc, String, Bool, true, false, not, ◌&&◌, ◌||◌, List, [], ◌∷◌, ◌++◌, Option, none, some,
  is_some, if◌then◌else◌,
}
use helm_controller.Errors
use helm_controller.Errors.{Error, is}
use helm_controller.Api.Conditions.{
  condition_false, condition_unknown, ready, reconciling, state_error, retries_exceeded,
  missing_target, progressing, progressing_with_retry, reconcile_error, Reason, Message, printf,
  retries_exceeded_fmt, missing_target_fmt, state_error_fmt, running_action_fmt, retrying_after_fmt,
  error_fmt, text, duration, action, count, error,
}
use helm_controller.Api.Spec.{
  ActionStrategy, get_retry_interval, Remediation, is_uninstall_after_upgrade, get_strategy,
  RemediationStrategy, rollback_strategy, timeout_or,
}
use helm_controller.Api.HelmRelease.{
  HelmRelease, get_active_retry, get_active_remediation, get_failure_count, retries_exhausted,
  get_timeout, get_install, get_upgrade, get_test, get_rollback, get_uninstall,
}
use helm_controller.External.Cluster.{Env, Result, ok, err}
use helm_controller.Reconcile.Request.{
  Request, Run, ReconcilerType, same_reconciler, type_release, type_remediate, contains, set_world,
  mark, mark_reconciling, mark_stalled, delete,
}
use helm_controller.Reconcile.Summary.{summarize, observe_post_renderers}
use helm_controller.Reconcile.State.{ReleaseState, determine_release_state, after_determine}
use helm_controller.Reconcile.Actions
use helm_controller.Reconcile.Actions.{
  Action, Exit, done, failed, panicked, type_of, name_of, correct_cluster_drift,
}
use helm_controller.Reconcile.Actions.Install.{install_reconcile}
use helm_controller.Reconcile.Actions.Upgrade.{upgrade_reconcile}
use helm_controller.Reconcile.Actions.Test.{test_reconcile}
use helm_controller.Reconcile.Actions.Unlock.{unlock_reconcile}
use helm_controller.Reconcile.Actions.Rollback.{rollback_reconcile}
use helm_controller.Reconcile.Actions.Uninstall.{uninstall_remediation_reconcile}
use helm_controller.Reconcile.Actions.Drift.{drift_reconcile}
use helm_controller.Reconcile.Atomic.Choose.{Next, nothing, run, refuse, action_for_state}

-- cleanReleaseStrategy.
unfoldable pub must_continue : ReconcilerType → List ReconcilerType → Bool
must_continue current previous = not (contains previous current)

unfoldable pub must_stop : ReconcilerType → Bool
must_stop type_remediate = true
must_stop _ = false

unfoldable pub timeout_for_action : Action → HelmRelease → ℕ
timeout_for_action Actions.install obj = timeout_or (get_install obj).timeout (get_timeout obj)
timeout_for_action Actions.upgrade obj = timeout_or (get_upgrade obj).timeout (get_timeout obj)
timeout_for_action Actions.test obj = timeout_or (get_test obj).timeout (get_timeout obj)
timeout_for_action Actions.rollback_remediation obj =
    timeout_or (get_rollback obj).timeout (get_timeout obj)
timeout_for_action Actions.uninstall_remediation obj =
    timeout_or (get_uninstall obj).timeout (get_timeout obj)
timeout_for_action Actions.unlock obj = get_timeout obj
timeout_for_action (correct_cluster_drift d) obj = get_timeout obj

-- What a round of the loop ends in: `Reconcile` returns, or the type of the action that was run is
-- noted as performed and the next round begins.
pub data Round (World : Type 0) : Type 0 where
  return : Run World → Exit → Round World
  again : Run World → ReconcilerType → Round World

module _ (E : Env) (default_to_retry_on_failure : Bool) (field_manager : String)
    (disallowed_field_managers : List String) (req : Request) where
  abbrev pub active_retry : Run E.World → Option ActionStrategy
  active_retry st = get_active_retry st.object default_to_retry_on_failure

  -- The loop head when the context is done: the last observation is persisted.
  unfoldable pub cancelled_exit : Run E.World → Run E.World
  cancelled_exit st = set_world (E.patch st.world st.object).0 st

  unfoldable pub retry_after_interval : ActionStrategy → Run E.World → Round E.World
  retry_after_interval retry st =
      return
        (mark_reconciling E progressing_with_retry
          (printf retrying_after_fmt (duration (get_retry_interval retry) ∷ [])) st)
        (failed Errors.retry_after_interval)

  -- Reconciling keeps the message of Ready.
  unfoldable pub must_requeue : Run E.World → Round E.World
  must_requeue st =
      return
        (mark_reconciling E progressing_with_retry
          (E.conditions.get_message st.object.status.conditions ready) st)
        (failed Errors.must_requeue)

  -- The failure count of the active remediation; reading it of a nil remediation panics.
  unfoldable pub stalled_exceeded : Error → Option Remediation → Run E.World → Round E.World
  stalled_exceeded e none st = return st panicked
  stalled_exceeded e (some r) st =
      return
        (mark_stalled E retries_exceeded
          (printf retries_exceeded_fmt (
            action st.object.status.last_attempted_release_action
            ∷ count (get_failure_count r st.object)
            ∷ []))
          st)
        (failed e)

  -- The errors of actionForState.
  unfoldable pub refused_exit : Error → Run E.World → Round E.World
  refused_exit e st =
      if is e Errors.exceeded_max_retries
      then stalled_exceeded e (get_active_remediation st.object) st
      else if is e Errors.missing_rollback_target
      then return (mark_stalled E missing_target (printf missing_target_fmt (error e ∷ [])) st)
          (failed e)
      else return st (failed e)

  -- There is nothing to do.
  unfoldable pub completed : Run E.World → Run E.World
  completed st = observe_post_renderers E (summarize E (delete E reconciling st))

  unfoldable pub must_continue_exit :
      Option ActionStrategy → Option Remediation → Run E.World → Round E.World
  must_continue_exit (some retry) remediation st = retry_after_interval retry st
  must_continue_exit none none st = must_requeue st
  must_continue_exit none (some r) st =
      if not (retries_exhausted r st.object)
      then must_requeue st
      else return (delete E reconciling st) done

  unfoldable pub must_stop_exit :
      Option ActionStrategy → Option Remediation → Run E.World → Round E.World
  must_stop_exit (some retry) remediation st = retry_after_interval retry st
  must_stop_exit none none st = must_requeue st
  must_stop_exit none (some r) st =
      if not (retries_exhausted r st.object) || is_uninstall_after_upgrade r
      then must_requeue st
      else stalled_exceeded Errors.exceeded_max_retries (some r) st

  unfoldable pub failed_action_exit : Option ActionStrategy → Error → Run E.World → Round E.World
  failed_action_exit (some retry) e st = retry_after_interval retry st
  failed_action_exit none e st =
      return
        (if E.conditions.is_ready st.object.status.conditions
          then mark E ready condition_false reconcile_error (printf error_fmt (error e ∷ [])) st
          else st)
        (failed e)

  -- Reconciling, and for a release action Ready, show that the action is running.
  unfoldable pub mark_running : Action → Run E.World → Run E.World
  mark_running a st =
      let msg =
        printf running_action_fmt
          (text (name_of a) ∷ duration (timeout_for_action a st.object) ∷ []) in
      let marked = mark_reconciling E progressing msg st in
      if same_reconciler (type_of a) type_release
      then mark E ready condition_unknown progressing msg marked
      else marked

  unfoldable pub run_action : Action → Run E.World → Run E.World × Exit
  run_action Actions.install st = install_reconcile E default_to_retry_on_failure req st
  run_action Actions.upgrade st = upgrade_reconcile E default_to_retry_on_failure req st
  run_action Actions.test st = test_reconcile E st
  run_action Actions.unlock st = unlock_reconcile E st
  run_action Actions.rollback_remediation st = rollback_reconcile E req st
  run_action Actions.uninstall_remediation st = uninstall_remediation_reconcile E st
  run_action (correct_cluster_drift d) st = drift_reconcile E d field_manager st

  -- The patch that ends a round.
  unfoldable pub patch_progress : ReconcilerType → Option Error → Run E.World → Round E.World
  patch_progress t (some e) st = return st (failed e)
  patch_progress t none st = again st t

  unfoldable pub after_action : Action → Run E.World → Exit → Round E.World
  after_action a st panicked = return st panicked
  after_action a st (failed e) = failed_action_exit (active_retry st) e st
  after_action a st done =
      let (w, e) = E.patch st.world st.object in
      if must_stop (type_of a)
      then must_stop_exit (active_retry st) (get_active_remediation st.object) st
      else patch_progress (type_of a) e (set_world w st)

  unfoldable pub start_action : Action → Run E.World → Round E.World
  start_action a st =
      let marked = mark_running a st in
      let (w, e) = E.patch marked.world marked.object in
      let patched = set_world w marked in
      let (ran, exit) = run_action a patched in
      elim e [ some x ↦ return patched (failed x) | none ↦ after_action a ran exit ]

  -- The strategy of the active remediation, by which a remediation was chosen; it is not nil here.
  -- A rollback is not started for an object that has been enqueued again.
  abbrev pub is_rollback : Option Remediation → Bool
  is_rollback none = false
  is_rollback (some r) = elim (get_strategy r) [ rollback_strategy ↦ true | _ ↦ false ]

  unfoldable pub interrupted : Action → Run E.World → Bool
  interrupted a st =
      same_reconciler (type_of a) type_remediate
      && is_rollback (get_active_remediation st.object)
      && E.enqueued st.world

  unfoldable pub perform : List ReconcilerType → Action → Run E.World → Round E.World
  perform previous a st =
      if not (must_continue (type_of a) previous)
      then must_continue_exit (active_retry st) (get_active_remediation st.object) st
      else if interrupted a st
      then must_requeue st
      else start_action a st

  -- The round after the choice of the next action.
  unfoldable pub follow : List ReconcilerType → Next → Run E.World → Round E.World
  follow previous (refuse e) st = refused_exit e st
  follow previous nothing st = return (completed st) done
  follow previous (run a) st = perform previous a st

  unfoldable pub state_error_exit : Error → Run E.World → Run E.World
  state_error_exit e st =
      mark E ready condition_false state_error (printf state_error_fmt (error e ∷ [])) st

  unfoldable pub determined :
      List ReconcilerType → Result ReleaseState → Run E.World → Round E.World
  determined previous (err e) st = return (state_error_exit e st) (failed e)
  determined previous (ok state) st =
      let (chosen, next) =
        action_for_state E default_to_retry_on_failure state (after_determine E st) in
      follow previous next chosen

  unfoldable pub round : List ReconcilerType → Run E.World → Round E.World
  round previous st =
      if E.cancelled st.world
      then return (cancelled_exit st) (failed Errors.canceled)
      else determined previous
          (determine_release_state E disallowed_field_managers req st.object st.world) st

  -- The loop, `none` where the fuel runs out.
  unfoldable pub loop : ℕ → List ReconcilerType → Run E.World → Option (Run E.World × Exit)
  loop zero previous st = none
  loop (suc fuel) previous st = elim (round previous st) [
    | return end exit ↦ some (end, exit)
    | again next t ↦ loop fuel (previous ++ t ∷ []) next
  ]

  -- `Reconcile`. Four action types let the loop go on, so five rounds are enough.
  unfoldable pub reconcile : Run E.World → Option (Run E.World × Exit)
  reconcile st = loop 5 [] st
