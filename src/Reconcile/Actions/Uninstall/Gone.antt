-- ===== src/Reconcile/Actions/Uninstall/Gone.antt =====
-- When an uninstall counts as done (internal/reconcile/uninstall.go).
use helm_controller.Base.{
  ◌≡◌, ◌≢◌, ◌⊎◌, refl, subst, ap, sym, ◌∙◌, Bool, true, false, Option, none, some, arith, eq_iff,
  Option-cases, Bool-cases, inl, inr,
}
use helm_controller.Errors
use helm_controller.Errors.{Error}
use helm_controller.Errors.Laws.{is_iff}
use helm_controller.Helm
use helm_controller.Helm.{same_status}
use helm_controller.Api.Conditions
use helm_controller.Api.Snapshots.{Snapshot, latest, sort_by_version}
use helm_controller.Api.HelmRelease.{get_uninstall}
use helm_controller.External.Cluster.{Env, Releaser, HelmOutcome}
use helm_controller.Reconcile.Request.{Run, sort_history}
use helm_controller.Reconcile.State.InSync.{same_status_eq}
use helm_controller.Reconcile.Summary.Frame.{summarize_frame}
use helm_controller.Reconcile.Actions.{done, emit_about}
use helm_controller.Reconcile.Actions.Uninstall.{
  same_digest, uninstall_error, uninstall_failure, uninstall_success, uninstall_finish,
  uninstall_run, uninstall_reconcile, uninstall_observed, is_gone, is_other_api,
}
use helm_controller.Reconcile.Actions.Uninstall.Settled.{latest-sort}

-- The latest snapshot does not have the digest of the one before.
pub DigestChanged : Snapshot → Option Snapshot → Type 0
DigestChanged cur none = Unit {0}
DigestChanged cur (some new) = cur.digest ≢ new.digest

digest_changed_lem :
    (cur : Snapshot) (new : Option Snapshot) → same_digest cur new ≡ false → DigestChanged cur new
unfolding same_digest DigestChanged
digest_changed_lem cur none h = tt
digest_changed_lem cur (some new) h = λ e. ground (arith, (eq_iff cur.digest new.digest).1 e)

uninstall_error-exempt :
    (exempt : Bool) (cur : Snapshot) (res : Option Releaser) (e : Option Error)
    (new : Option Snapshot)
    → uninstall_error exempt cur res e new ≡ none
    → (same_digest cur new ≡ false) ⊎ (exempt ≡ true)
unfolding uninstall_error
uninstall_error-exempt exempt cur res e new h = ground arith

module _ (E : Env) where
  finish_done :
      (e : Option Error) (st : Run E.World)
      → (uninstall_finish E e st).1 ≡ done
      → (e ≡ none)
        × ((uninstall_finish E e st).0.object.status.history
            ≡ sort_by_version st.object.status.history)
  unfolding uninstall_finish uninstall_failure uninstall_success emit_about
  finish_done none st d = (refl, ground arith)
  finish_done (some e) st d = absurd (ground arith)

  is_gone-observed :
      (out : HelmOutcome E.World) (st : Run E.World) (e : Option Error)
      → is_gone E (uninstall_observed E Conditions.uninstall out st).object e
        ≡ is_gone E st.object e
  unfolding is_gone uninstall_observed get_uninstall
  is_gone-observed out st none = refl
  is_gone-observed out st (some e) = refl

  -- The error of Helm says that the release is not found, or, where its history is kept, that it is
  -- deleted already.
  pub IsGone : Run E.World → Option Error → Type 0
  IsGone st reported =
      (e : Error) × (reported ≡ some e)
      × ((e ≡ Errors.driver_release_not_found)
          ⊎ ((get_uninstall st.object).keep_history ≡ true) × (E.is_already_deleted e ≡ true))

  is_gone_lem :
      (st : Run E.World) (e : Option Error) (fmt : Conditions.Format)
      → is_gone E st.object e ≡ some fmt
      → IsGone st e
  unfolding is_gone IsGone
  is_gone_lem st none fmt h = absurd (ground arith)
  is_gone_lem st (some e) fmt h =
      (e, refl, ground (arith, is_iff e Errors.driver_release_not_found))

  -- What makes up for an uninstall: Helm has the release no more, the latest snapshot has changed, or
  -- it had the status uninstalled before.
  pub IsUninstalled : Snapshot → Run E.World → Option Snapshot → Type 0
  IsUninstalled cur st new =
      IsGone st (E.uninstall st.world st.object cur.name).error
      ⊎ (DigestChanged cur new ⊎ (cur.status ≡ Helm.uninstalled))

  run_done :
      (cur : Snapshot) (st : Run E.World)
      → (uninstall_run E (some cur) st).1 ≡ done
      → IsUninstalled cur st (latest (uninstall_run E (some cur) st).0.object.status.history)
  unfolding uninstall_run IsUninstalled
  run_done cur st d =
      let out = E.uninstall st.world st.object cur.name in
      let observed = uninstall_observed E Conditions.uninstall out st in
      let e =
        uninstall_error (same_status cur.status Helm.uninstalled) cur out.release out.error
          (latest observed.object.status.history) in
      elim (Option-cases (is_gone E observed.object out.error)) [
        | inr (fmt, g) ↦
            inl (is_gone_lem st out.error fmt (sym (is_gone-observed out st out.error) ∙ g))
        | inl g ↦ elim (Bool-cases (is_other_api out.release)) [
          | inl o ↦ absurd (ground arith)
          | inr o ↦
              let (none_e, h) = finish_done e observed (rw (g, o, uninstall_run) at d) in
              rw (g, o, uninstall_run)
                (inr
                  (elim (uninstall_error-exempt (same_status cur.status Helm.uninstalled) cur
                    out.release out.error (latest observed.object.status.history) none_e) [
                      | inl n ↦ inl (
                          digest_changed_lem cur _ (
                            ap (λ l. same_digest cur (latest l)) h
                            ∙ ap (same_digest cur) (latest-sort observed.object.status.history)
                            ∙ n))
                      | inr x ↦ inr (same_status_eq cur.status Helm.uninstalled x)
                    ]))
        ]
      ]

  -- Uninstall ends without an error only if there was a latest snapshot, and Helm reports that the
  -- release is not found (or, with a history that is kept, that it is deleted already), or the latest
  -- snapshot has another digest afterwards (or there is none), or it had the status uninstalled
  -- before.
  pub uninstall_reconcile_done :
      (st : Run E.World)
      → (uninstall_reconcile E st).1 ≡ done
      → (cur : Snapshot) × (latest st.object.status.history ≡ some cur)
        × IsUninstalled cur
            (sort_history st)
            (latest (uninstall_reconcile E st).0.object.status.history)
  unfolding uninstall_reconcile
  uninstall_reconcile_done st d = elim (Option-cases (latest st.object.status.history)) [
    | inl n ↦ absurd (unfold uninstall_run in ground arith)
    | inr (cur, l) ↦ (
      cur,
      l,
      rw (l, uninstall_reconcile)
          (subst (λ s. IsUninstalled cur (sort_history st) (latest s.object.status.history))
            (summarize_frame E (uninstall_run E (some cur) (sort_history st)).0)
            (run_done cur (sort_history st) (rw (l, uninstall_reconcile) at d))),
    )
  ]
