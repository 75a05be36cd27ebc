-- ===== src/Reconcile/Atomic/Loop/Stall.antt =====
-- When a reconciliation stalls, and when it is retried (internal/reconcile/atomic_release.go).
use helm_controller.Base.{
  ◌≡◌, ◌⊎◌, ◌↔◌, refl, Bool, true, false, not, ◌&&◌, String, List, Option, none, some, arith,
  Bool-cases, Option-cases, inl, inr,
}
use helm_controller.Errors
use helm_controller.Errors.{Error}
use helm_controller.Api.Conditions.{
  reconciling, stalled, condition_true, Reason, retries_exceeded, progressing_with_retry, Message,
}
use helm_controller.Api.Spec.{ActionStrategy, Remediation, is_uninstall_after_upgrade}
use helm_controller.Api.HelmRelease.{retries_exhausted, get_active_remediation, get_active_retry}
use helm_controller.External.Conditions.{ConditionsLaws, outcome}
use helm_controller.External.Cluster.{Env}
use helm_controller.Reconcile.Request.{Request, Run, type_remediate}
use helm_controller.Reconcile.Actions.{Action, done, failed, type_of}
use helm_controller.Reconcile.Atomic.Loop.{
  return, retry_after_interval, must_requeue, stalled_exceeded, must_stop_exit, after_action,
  must_stop,
}

module _ (E : Env) (laws : ConditionsLaws E.conditions) (default_to_retry_on_failure : Bool)
    (field_manager : String) (disallowed_field_managers : List String) (req : Request) where
  -- The object is marked as being reconciled, to be retried, and is not stalled.
  pub IsRetried : Run E.World → Type 0
  IsRetried st =
      ((m : Message) × (outcome reconciling st.object.status.conditions
          ≡ some (condition_true, progressing_with_retry, m)))
      × (outcome stalled st.object.status.conditions ≡ none)

  -- The object is stalled with the reason, and is not marked as being reconciled.
  pub IsStalled : Reason → Run E.World → Type 0
  IsStalled why st =
      ((m : Message) × (outcome stalled st.object.status.conditions
          ≡ some (condition_true, why, m)))
      × (outcome reconciling st.object.status.conditions ≡ none)

  retry_after_interval_lem :
      (s : ActionStrategy) (st : Run E.World)
      → (end : Run E.World) × (retry_after_interval E default_to_retry_on_failure field_manager
            disallowed_field_managers req s st
          ≡ return end (failed Errors.retry_after_interval))
        × IsRetried end
  unfolding retry_after_interval IsRetried
  retry_after_interval_lem s st =
      (_, refl, ((_, laws.mark_reconciling_self _ _ _ _), laws.mark_reconciling_stalled _ _ _ _))

  must_requeue_lem :
      (st : Run E.World)
      → (end : Run E.World) × (must_requeue E default_to_retry_on_failure field_manager
            disallowed_field_managers req st
          ≡ return end (failed Errors.must_requeue))
        × IsRetried end
  unfolding must_requeue IsRetried
  must_requeue_lem st =
      (_, refl, ((_, laws.mark_reconciling_self _ _ _ _), laws.mark_reconciling_stalled _ _ _ _))

  stalled_exceeded_lem :
      (e : Error) (r : Remediation) (st : Run E.World)
      → (end : Run E.World) × (stalled_exceeded E default_to_retry_on_failure field_manager
            disallowed_field_managers req e
            (some r)
            st
          ≡ return end (failed e))
        × IsStalled retries_exceeded end
  unfolding stalled_exceeded IsStalled
  stalled_exceeded_lem e r st =
      (_, refl, ((_, laws.mark_stalled_self _ _ _ _), laws.mark_stalled_reconciling _ _ _ _))

  -- Whether the remediation of the last action may be followed by another attempt.
  abbrev pub gives_up : Option ActionStrategy → Option Remediation → Run E.World → Bool
  gives_up (some s) r st = false
  gives_up none none st = false
  gives_up none (some r) st = retries_exhausted r st.object && not (is_uninstall_after_upgrade r)

  must_stop_exit_lem :
      (retry : Option ActionStrategy) (r : Option Remediation) (st : Run E.World)
      → (end : Run E.World) × (e : Error) × (must_stop_exit E default_to_retry_on_failure
            field_manager disallowed_field_managers req retry r st
          ≡ return end (failed e))
        × ((gives_up retry r st ≡ true)
              × (e ≡ Errors.exceeded_max_retries)
              × IsStalled retries_exceeded end
            ⊎ (gives_up retry r st ≡ false) × IsRetried end)
  unfolding must_stop_exit
  must_stop_exit_lem (some s) r st =
      let (end, f, h) = retry_after_interval_lem s st in (end, _, f, inr (refl, h))
  must_stop_exit_lem none none st =
      let (end, f, h) = must_requeue_lem st in (end, _, f, inr (refl, h))
  must_stop_exit_lem none (some r) st = elim (Bool-cases (gives_up none (some r) st)) [
    | inl x ↦
        let (end, f, h) = stalled_exceeded_lem Errors.exceeded_max_retries r st in
        (end, Errors.exceeded_max_retries, ground arith, inl (x, refl, h))
    | inr x ↦
        let (end, f, h) = must_requeue_lem st in
        (end, Errors.must_requeue, ground arith, inr (x, h))
  ]

  -- The retries of the active remediation are exhausted, and the active strategy is neither to retry nor
  -- to uninstall after a failed upgrade.
  pub GivesUp : Run E.World → Type 0
  GivesUp st =
      (get_active_retry st.object default_to_retry_on_failure ≡ none)
      × ((r : Remediation) × (get_active_remediation st.object ≡ some r)
          × (retries_exhausted r st.object ≡ true)
          × (is_uninstall_after_upgrade r ≡ false))

  gives_up_iff :
      (st : Run E.World)
      → (gives_up
            (get_active_retry st.object default_to_retry_on_failure)
            (get_active_remediation st.object)
            st
          ≡ true)
        ↔ GivesUp st
  unfolding GivesUp
  gives_up_iff st = elim (Option-cases (get_active_retry st.object default_to_retry_on_failure)) [
    | inr (s, e) ↦ (λ h. absurd (ground (arith, e)), λ (n, h). absurd (ground (arith, e)))
    | inl e ↦ elim (Option-cases (get_active_remediation st.object)) [
      | inl f ↦
          (λ h. absurd (ground (arith, e, f)), λ (n, (r, k, x, u)). absurd (ground (arith, f, k)))
      | inr (r, f) ↦ (
        λ h. (e, (r, f, ground (arith, e, f), ground (arith, e, f))),
        λ (n, (q, k, x, u)). ground (arith, e, f, k, x, u),
      )
    ]
  ]

  -- After a remediation that ended without an error the loop stops: an error is returned, and the
  -- object is either stalled with exhausted retries or is marked to be retried, never both. It stalls
  -- if and only if the retries of the active remediation are exhausted and the active strategy is
  -- neither to retry nor to uninstall after a failed upgrade.
  pub after_remediation :
      (a : Action) (st : Run E.World)
      → type_of a ≡ type_remediate
      → (end : Run E.World) × (e : Error) × (after_action E default_to_retry_on_failure
            field_manager disallowed_field_managers req a st done
          ≡ return end (failed e))
        × (GivesUp st × (e ≡ Errors.exceeded_max_retries) × IsStalled retries_exceeded end
            ⊎ (¬ GivesUp st) × IsRetried end)
  unfolding after_action must_stop
  after_remediation a st h =
      let (end, e, f, cases) =
        must_stop_exit_lem (get_active_retry st.object default_to_retry_on_failure)
          (get_active_remediation st.object) st in
      (
        end,
        e,
        rw (h, after_action) f,
        elim cases [
          | inl (g, x, y) ↦ inl ((gives_up_iff st).0 g, x, y)
          | inr (g, x) ↦ inr (λ u. ground (arith, g, (gives_up_iff st).1 u), x)
        ],
      )
