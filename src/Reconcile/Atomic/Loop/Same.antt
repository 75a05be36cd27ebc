-- ===== src/Reconcile/Atomic/Loop/Same.antt =====
-- An atomic release changes nothing of a HelmRelease but its status
-- (internal/reconcile/atomic_release.go).
use helm_controller.Base.{
  ℕ, zero, suc, String, ◌≡◌, inl, inr, refl, Bool, List, [], ◌∷◌, ◌++◌, Option, none, some, arith,
}
use helm_controller.Errors.{Error}
use helm_controller.Api.Conditions.{reconciling}
use helm_controller.Api.Spec.{ActionStrategy, Remediation}
use helm_controller.Api.HelmRelease.{get_active_remediation}
use helm_controller.External.Cluster.{Env, Result, ok, err}
use helm_controller.Reconcile.Request.{Request, Run, ReconcilerType, set_world, delete}
use helm_controller.Reconcile.State.{ReleaseState, determine_release_state, after_determine}
use helm_controller.Reconcile.Summary.{observe_post_renderers}
use helm_controller.Reconcile.Summary.Frame.{SameObject, summarize_same}
use helm_controller.Reconcile.Actions
use helm_controller.Reconcile.Actions.{Action, Exit, done, failed, panicked, type_of}
use helm_controller.Reconcile.Actions.Same.{install_reconcile_same, upgrade_reconcile_same}
use helm_controller.Reconcile.Actions.Same.Others.{
  test_reconcile_same, unlock_reconcile_same, rollback_reconcile_same, drift_reconcile_same,
}
use helm_controller.Reconcile.Actions.Uninstall.Frame.{uninstall_remediation_same}
use helm_controller.Reconcile.Atomic.Choose.{Next, nothing, run, refuse, action_for_state}
use helm_controller.Reconcile.Atomic.Choose.Same.{action_for_state_same}
use helm_controller.Reconcile.Atomic.Loop.Reached.{Round-cases}
use helm_controller.Reconcile.Atomic.Loop.{
  Round, return, again, cancelled_exit, retry_after_interval, must_requeue, stalled_exceeded,
  refused_exit, completed, must_continue_exit, must_stop_exit, failed_action_exit, mark_running,
  run_action, patch_progress, after_action, start_action, perform, follow, state_error_exit,
  determined, round, loop, reconcile, active_retry,
}

-- The run at the end of a round.
abbrev pub run_of : {World : Type 0} → Round World → Run World
run_of (return st exit) = st
run_of (again st t) = st

module _ (E : Env) (retry : Bool) (manager : String) (managers : List String) (req : Request) where
  run_action_same :
      (a : Action) (st : Run E.World)
      → SameObject st (run_action E retry manager managers req a st).0
  unfolding run_action
  run_action_same Actions.install st = install_reconcile_same E retry req st
  run_action_same Actions.upgrade st = upgrade_reconcile_same E retry req st
  run_action_same Actions.test st = test_reconcile_same E st
  run_action_same Actions.unlock st = unlock_reconcile_same E st
  run_action_same Actions.rollback_remediation st = rollback_reconcile_same E req st
  run_action_same Actions.uninstall_remediation st = uninstall_remediation_same E st
  run_action_same (Actions.correct_cluster_drift d) st = drift_reconcile_same E d manager st

  stalled_exceeded_same :
      (e : Error) (r : Option Remediation) (st : Run E.World)
      → SameObject st (run_of (stalled_exceeded E retry manager managers req e r st))
  unfolding stalled_exceeded
  stalled_exceeded_same e none st = refl
  stalled_exceeded_same e (some r) st = refl

  refused_exit_same :
      (e : Error) (st : Run E.World)
      → SameObject st (run_of (refused_exit E retry manager managers req e st))
  unfolding refused_exit
  refused_exit_same e st =
      ground (arith, stalled_exceeded_same e (get_active_remediation st.object) st)

  must_continue_exit_same :
      (strategy : Option ActionStrategy) (r : Option Remediation) (st : Run E.World)
      → SameObject st (run_of (must_continue_exit E retry manager managers req strategy r st))
  unfolding must_continue_exit must_requeue retry_after_interval
  must_continue_exit_same (some s) r st = refl
  must_continue_exit_same none none st = refl
  must_continue_exit_same none (some r) st = ground arith

  must_stop_exit_same :
      (strategy : Option ActionStrategy) (r : Option Remediation) (st : Run E.World)
      → SameObject st (run_of (must_stop_exit E retry manager managers req strategy r st))
  unfolding must_stop_exit must_requeue retry_after_interval stalled_exceeded
  must_stop_exit_same (some s) r st = refl
  must_stop_exit_same none none st = refl
  must_stop_exit_same none (some r) st = ground arith

  failed_action_exit_same :
      (strategy : Option ActionStrategy) (e : Error) (st : Run E.World)
      → SameObject st (run_of (failed_action_exit E retry manager managers req strategy e st))
  unfolding failed_action_exit retry_after_interval
  failed_action_exit_same (some s) e st = refl
  failed_action_exit_same none e st = ground arith

  patch_progress_same :
      (t : ReconcilerType) (e : Option Error) (st : Run E.World)
      → SameObject st (run_of (patch_progress E retry manager managers req t e st))
  unfolding patch_progress
  patch_progress_same t none st = refl
  patch_progress_same t (some e) st = refl

  after_action_same :
      (a : Action) (st : Run E.World) (exit : Exit)
      → SameObject st (run_of (after_action E retry manager managers req a st exit))
  unfolding after_action
  after_action_same a st panicked = refl
  after_action_same a st (failed e) =
      failed_action_exit_same (active_retry E retry manager managers req st) e st
  after_action_same a st done =
      let patched = E.patch st.world st.object in
      ground (
        arith,
        must_stop_exit_same (active_retry E retry manager managers req st)
            (get_active_remediation st.object) st,
        patch_progress_same (type_of a) patched.1 (set_world patched.0 st),
      )

  mark_running_same :
      (a : Action) (st : Run E.World)
      → SameObject st (mark_running E retry manager managers req a st)
  unfolding mark_running
  mark_running_same a st = ground arith

  start_action_same :
      (a : Action) (st : Run E.World)
      → SameObject st (run_of (start_action E retry manager managers req a st))
  unfolding start_action
  start_action_same a st =
      let marked = mark_running E retry manager managers req a st in
      let patched = set_world (E.patch marked.world marked.object).0 marked in
      let ran = run_action E retry manager managers req a patched in
      ground
        (arith, mark_running_same a st, run_action_same a patched, after_action_same a ran.0 ran.1)

  perform_same :
      (previous : List ReconcilerType) (a : Action) (st : Run E.World)
      → SameObject st (run_of (perform E retry manager managers req previous a st))
  unfolding perform must_requeue
  perform_same previous a st = ground (
    arith,
    must_continue_exit_same (active_retry E retry manager managers req st)
        (get_active_remediation st.object) st,
    start_action_same a st,
  )

  follow_same :
      (previous : List ReconcilerType) (next : Next) (st : Run E.World)
      → SameObject st (run_of (follow E retry manager managers req previous next st))
  unfolding follow completed observe_post_renderers
  follow_same previous (refuse e) st = refused_exit_same e st
  follow_same previous nothing st = ground (arith, summarize_same E (delete E reconciling st))
  follow_same previous (run a) st = perform_same previous a st

  determined_same :
      (previous : List ReconcilerType) (state : Result ReleaseState) (st : Run E.World)
      → SameObject st (run_of (determined E retry manager managers req previous state st))
  unfolding determined state_error_exit after_determine
  determined_same previous (err e) st = refl
  determined_same previous (ok state) st =
      let sorted = after_determine E st in
      let chosen = action_for_state E retry state sorted in
      ground
        (arith, action_for_state_same E retry state sorted, follow_same previous chosen.1 chosen.0)

  round_same :
      (previous : List ReconcilerType) (st : Run E.World)
      → SameObject st (run_of (round E retry manager managers req previous st))
  unfolding round cancelled_exit
  round_same previous st = ground (
    arith,
    determined_same previous (determine_release_state E managers req st.object st.world) st,
  )

  loop_same :
      (fuel : ℕ) (previous : List ReconcilerType) (st end : Run E.World) (exit : Exit)
      → loop E retry manager managers req fuel previous st ≡ some (end, exit)
      → SameObject st end
  unfolding loop
  loop_same zero previous st end exit h = absurd (ground arith)
  loop_same (suc fuel) previous st end exit h =
      elim (Round-cases (round E retry manager managers req previous st)) [
        | inl (at_end, x, e) ↦ ground (arith, round_same previous st, e)
        | inr (next, t, e) ↦
            ground
              (arith, round_same previous st, e, loop_same fuel (previous ++ t ∷ []) next end exit)
      ]

  -- Whatever a run of the atomic release does, it changes nothing of the HelmRelease but its status:
  -- its specification, annotations and finalizers are as before.
  pub reconcile_same :
      (st end : Run E.World) (exit : Exit)
      → reconcile E retry manager managers req st ≡ some (end, exit)
      → SameObject st end
  unfolding reconcile
  reconcile_same st end exit h = loop_same 5 [] st end exit h
