-- ===== src/Reconcile/Atomic/Loop/Outcome.antt =====
-- What the conditions say when AtomicRelease.Reconcile ends
-- (internal/reconcile/atomic_release.go).
use helm_controller.Base.{
  ◌≡◌, subst, ◌≢◌, refl, Bool, String, List, Option, none, some, arith, Bool-cases, inl, inr,
}
use helm_controller.Api.Conditions.{reconciling}
use helm_controller.Api.Spec.{ActionStrategy, Remediation}
use helm_controller.Api.HelmRelease.{retries_exhausted}
use helm_controller.External.Conditions.{ConditionsLaws, outcome}
use helm_controller.External.Cluster.{Env, Result, ok, err}
use helm_controller.Reconcile.Request.{Request, Run, ReconcilerType, delete}
use helm_controller.Reconcile.Summary.{observe_post_renderers}
use helm_controller.Reconcile.Summary.Absent.{outcome-summarize-none}
use helm_controller.Reconcile.Actions.{Action, Exit, done, failed, panicked, type_of}
use helm_controller.Reconcile.State.{ReleaseState}
use helm_controller.Reconcile.Atomic.Choose.{Next, nothing, run, refuse}
use helm_controller.Reconcile.Atomic.Loop.{
  return, round, reconcile, completed, retry_after_interval, must_requeue, stalled_exceeded,
  refused_exit, must_continue, must_continue_exit, must_stop_exit, failed_action_exit,
  patch_progress, after_action, start_action, perform, follow, determined,
}
use helm_controller.Reconcile.Atomic.Loop.Reached.{reconcile-Reached}

module _ (E : Env) (laws : ConditionsLaws E.conditions) (default_to_retry_on_failure : Bool)
    (field_manager : String) (disallowed_field_managers : List String) (req : Request) where
  -- The object is not being reconciled any more.
  abbrev pub Settled : Run E.World → Type 0
  Settled st = outcome reconciling st.object.status.conditions ≡ none

  completed-Settled :
      (st : Run E.World)
      → Settled
          (completed E default_to_retry_on_failure field_manager disallowed_field_managers req st)
  unfolding completed observe_post_renderers
  completed-Settled st =
      outcome-summarize-none E laws reconciling (delete E reconciling st) refl
        (laws.delete_self st.object.status.conditions reconciling)

  after_action_not_done :
      (a : Action) (st end : Run E.World) (exit : Exit)
      → after_action E default_to_retry_on_failure field_manager disallowed_field_managers req a st
          exit
        ≢ return end done
  unfolding after_action must_stop_exit stalled_exceeded failed_action_exit patch_progress
      retry_after_interval must_requeue
  after_action_not_done a st end panicked e = absurd (ground arith)
  after_action_not_done a st end (failed x) e = absurd (ground arith)
  after_action_not_done a st end done e = absurd (ground arith)

  start_action_not_done :
      (a : Action) (st end : Run E.World)
      → start_action E default_to_retry_on_failure field_manager disallowed_field_managers req a st
        ≢ return end done
  unfolding start_action
  start_action_not_done a st end e = grind (arith, after_action_not_done)

  must_continue_exit_done :
      (retry : Option ActionStrategy) (r : Option Remediation) (st end : Run E.World)
      → must_continue_exit E default_to_retry_on_failure field_manager disallowed_field_managers req
          retry r st
        ≡ return end done
      → Settled end
  unfolding must_continue_exit retry_after_interval must_requeue
  must_continue_exit_done (some s) r st end e = absurd (ground arith)
  must_continue_exit_done none none st end e = absurd (ground arith)
  must_continue_exit_done none (some r) st end e =
      elim (Bool-cases (retries_exhausted r st.object)) [
        | inl x ↦
            let same : delete E reconciling st ≡ end = ground arith in
            subst Settled same (laws.delete_self st.object.status.conditions reconciling)
        | inr x ↦ absurd (ground arith)
      ]

  perform_done :
      (previous : List ReconcilerType) (a : Action) (st end : Run E.World)
      → perform E default_to_retry_on_failure field_manager disallowed_field_managers req previous a
          st
        ≡ return end done
      → Settled end
  unfolding perform must_requeue
  perform_done previous a st end e = elim (Bool-cases (must_continue (type_of a) previous)) [
    | inl c ↦ absurd (ground (arith, start_action_not_done a st end))
    | inr c ↦ must_continue_exit_done _ _ st end (rw (c, perform) at e)
  ]

  follow_done :
      (previous : List ReconcilerType) (next : Next) (st end : Run E.World)
      → follow E default_to_retry_on_failure field_manager disallowed_field_managers req previous
          next st
        ≡ return end done
      → Settled end
  unfolding follow refused_exit stalled_exceeded
  follow_done previous (refuse x) st end e = ground arith
  follow_done previous nothing st end e =
      let same : completed E default_to_retry_on_failure field_manager disallowed_field_managers req
            st
          ≡ end =
        ground arith in
      subst Settled same (completed-Settled st)
  follow_done previous (run a) st end e = perform_done previous a st end e

  determined_done :
      (previous : List ReconcilerType) (r : Result ReleaseState) (st end : Run E.World)
      → determined E default_to_retry_on_failure field_manager disallowed_field_managers req
          previous r st
        ≡ return end done
      → Settled end
  unfolding determined
  determined_done previous (err x) st end e = absurd (ground arith)
  determined_done previous (ok state) st end e = follow_done previous _ _ end e

  round_done :
      (previous : List ReconcilerType) (st end : Run E.World)
      → round E default_to_retry_on_failure field_manager disallowed_field_managers req previous st
        ≡ return end done
      → Settled end
  unfolding round
  round_done previous st end e = elim (Bool-cases (E.cancelled st.world)) [
    | inl c ↦ absurd (ground arith)
    | inr c ↦ determined_done previous _ st end (rw (c, round) at e)
  ]

  -- `Reconcile` returns without an error only after it has removed the Reconciling condition.
  pub reconcile-Settled :
      (st end : Run E.World)
      → reconcile E default_to_retry_on_failure field_manager disallowed_field_managers req st
        ≡ some (end, done)
      → outcome reconciling end.object.status.conditions ≡ none
  reconcile-Settled st end e =
      let (performed, last, reached, f) =
        reconcile-Reached E default_to_retry_on_failure field_manager disallowed_field_managers req
          st end done e in
      round_done performed last end f
