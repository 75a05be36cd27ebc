-- ===== src/Reconcile/Actions/Uninstall/Settled.antt =====
-- When an uninstall remediation counts as done (internal/reconcile/uninstall_remediation.go).
use helm_controller.Base.{
  ◌≡◌, refl, ap, ◌∙◌, false, Option, none, some, arith, Option-cases, Bool-cases, inl, inr, head?,
}
use helm_controller.Errors.{Error}
use helm_controller.Api.Conditions
use helm_controller.Api.Snapshots.{Snapshot, Snapshots, latest, sort_by_version}
use helm_controller.Api.Snapshots.Order.{sort_idem}
use helm_controller.External.Cluster.{Env, Releaser}
use helm_controller.Reconcile.Request.{Run, sort_history}
use helm_controller.Reconcile.Actions.{done, emit_about}
use helm_controller.Reconcile.Actions.Uninstall.{
  same_digest, uninstall_error, uninstall_remediation_failure, uninstall_remediation_success,
  uninstall_remediation_finish, uninstall_remediation_run, uninstall_remediation_reconcile,
  uninstall_observed, is_other_api,
}

pub latest-sort : (ss : Snapshots) → latest (sort_by_version ss) ≡ latest ss
unfolding latest
latest-sort ss = ap head? (sort_idem ss)

uninstall_error-none :
    (cur : Snapshot) (res : Option Releaser) (e : Option Error) (new : Option Snapshot)
    → uninstall_error false cur res e new ≡ none
    → same_digest cur new ≡ false
unfolding uninstall_error
uninstall_error-none cur res e new h = ground arith

module _ (E : Env) where
  failure_history :
      (e : Error) (st : Run E.World)
      → (uninstall_remediation_failure E e st).0.object.status.history
        ≡ sort_by_version st.object.status.history
  unfolding uninstall_remediation_failure emit_about
  failure_history e st = ground arith

  success_history :
      (st : Run E.World)
      → (uninstall_remediation_success E st).0.object.status.history
        ≡ sort_by_version st.object.status.history
  unfolding uninstall_remediation_success emit_about
  success_history st = ground arith

  finish_done :
      (cur : Snapshot) (e : Option Error) (st : Run E.World)
      → (uninstall_remediation_finish E cur e st).1 ≡ done
      → (e ≡ none → same_digest cur (latest st.object.status.history) ≡ false)
      → same_digest cur (latest (uninstall_remediation_finish E cur e st).0.object.status.history)
        ≡ false
  unfolding uninstall_remediation_finish
  finish_done cur none st d h =
      ap (λ l. same_digest cur (latest l)) (success_history st)
      ∙ ap (same_digest cur) (latest-sort st.object.status.history)
      ∙ h refl
  finish_done cur (some e) st d h = ground arith

  run_done :
      (cur : Snapshot) (st : Run E.World)
      → (uninstall_remediation_run E (some cur) st).1 ≡ done
      → same_digest cur (latest (uninstall_remediation_run E (some cur) st).0.object.status.history)
        ≡ false
  unfolding uninstall_remediation_run
  run_done cur st d =
      let out = E.uninstall st.world st.object cur.name in
      let observed = uninstall_observed E Conditions.uninstall_remediation out st in
      let e =
        uninstall_error false cur out.release out.error (latest observed.object.status.history) in
      elim (Bool-cases (is_other_api out.release)) [
        | inl o ↦ absurd (ground arith)
        | inr o ↦ rw o (
            finish_done cur e observed (rw o at d) (
              uninstall_error-none cur out.release out.error
                (latest observed.object.status.history)))
      ]

  -- The uninstall remediation ends without an error only if there was a latest snapshot, and the
  -- latest snapshot of the history afterwards does not have its digest: an uninstall that did not
  -- change what is stored is never taken for a remediation, whether Helm reports an error or not.
  pub uninstall_remediation_done :
      (st : Run E.World)
      → (uninstall_remediation_reconcile E st).1 ≡ done
      → (cur : Snapshot) × (latest st.object.status.history ≡ some cur)
        × (same_digest cur (latest (uninstall_remediation_reconcile E st).0.object.status.history)
            ≡ false)
  unfolding uninstall_remediation_reconcile
  uninstall_remediation_done st d = elim (Option-cases (latest st.object.status.history)) [
    | inl n ↦ absurd (unfold uninstall_remediation_run in ground arith)
    | inr (cur, l) ↦ (
      cur,
      l,
      rw (l, uninstall_remediation_reconcile)
          (run_done cur (sort_history st) (rw (l, uninstall_remediation_reconcile) at d)),
    )
  ]
