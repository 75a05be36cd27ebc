-- ===== src/Reconcile/Actions/Rollback/Settled.antt =====
-- When a rollback counts as done (internal/reconcile/rollback_remediation.go).
use helm_controller.Base.{
  ◌≡◌, ◌≢◌, ◌⊎◌, refl, subst, ap, ◌∙◌, eq_iff, false, Option, none, some, arith, Option-cases,
  Bool-cases, inl, inr,
}
use helm_controller.Errors.{Error}
use helm_controller.Api.Snapshots.{Snapshot, latest, previous}
use helm_controller.External.Cluster.{Env}
use helm_controller.Reconcile.Request.{Request, Run, sort_history}
use helm_controller.Reconcile.Summary.Frame.{summarize_frame}
use helm_controller.Reconcile.Actions.{done}
use helm_controller.Reconcile.Actions.Uninstall.Settled.{latest-sort}
use helm_controller.Reconcile.Actions.Rollback.{
  nothing_stored, rollback_failure, rollback_finish, other_release, rollback_run,
  rollback_ignores_tests, rollback_reconcile,
}

-- There is a latest snapshot, and it does not have the digest of the one before, if there was one.
pub IsStored : Option Snapshot → Option Snapshot → Type 0
IsStored cur none = ⊥
IsStored none (some new) = Unit {0}
IsStored (some cur) (some new) = new.digest ≢ cur.digest

-- A snapshot is of a release with the same name and namespace.
pub SameRelease : Snapshot → Option Snapshot → Type 0
SameRelease prev none = Unit {0}
SameRelease prev (some cur) = (prev.name ≡ cur.name) × (prev.namespace ≡ cur.namespace)

stored_lem : (cur new : Option Snapshot) → nothing_stored cur new ≡ false → IsStored cur new
unfolding nothing_stored IsStored
stored_lem none none h = absurd (ground arith)
stored_lem (some cur) none h = absurd (ground arith)
stored_lem none (some new) h = tt
stored_lem (some cur) (some new) h = λ e. ground (arith, (eq_iff new.digest cur.digest).1 e)

module _ (E : Env) (req : Request) where
  same_release_lem :
      (cur : Option Snapshot) (prev : Snapshot)
      → other_release E req cur prev ≡ false
      → SameRelease prev cur
  unfolding other_release SameRelease
  same_release_lem none prev h = tt
  same_release_lem (some cur) prev h =
      ground (arith, eq_iff prev.name cur.name, eq_iff prev.namespace cur.namespace)

  finish_done :
      (cur : Option Snapshot) (prev : Snapshot) (e : Option Error) (st : Run E.World)
      → (rollback_finish E req cur prev e st).1 ≡ done
      → (e ≡ none)
        ⊎ IsStored cur (latest (rollback_finish E req cur prev e st).0.object.status.history)
  unfolding rollback_finish
  finish_done cur prev none st d = inl refl
  finish_done cur prev (some e) st d =
      let h = (rollback_failure E req prev e st).object.status.history in
      elim (Bool-cases (nothing_stored cur (latest h))) [
        | inl n ↦ absurd (ground arith)
        | inr n ↦ inr (stored_lem cur _ (ap (nothing_stored cur) (latest-sort h) ∙ n))
      ]

  -- The rollback is to a release of the same name, and either Helm reports no error or the latest
  -- snapshot of the history has changed.
  pub IsRolledBack : Option Snapshot → Snapshot → Run E.World → Option Snapshot → Type 0
  IsRolledBack cur prev st new =
      SameRelease prev cur
      × (((E.rollback st.world st.object prev.name prev.version).error ≡ none) ⊎ IsStored cur new)

  run_done :
      (cur : Option Snapshot) (prev : Snapshot) (st : Run E.World)
      → (rollback_run E req cur (some prev) st).1 ≡ done
      → IsRolledBack cur prev st
          (latest (rollback_run E req cur (some prev) st).0.object.status.history)
  unfolding rollback_run IsRolledBack
  run_done cur prev st d = elim (Bool-cases (other_release E req cur prev)) [
    | inl o ↦ absurd (ground arith)
    | inr o ↦ (
      same_release_lem cur prev o,
      rw (o, rollback_run) (finish_done cur prev _ _ (rw (o, rollback_run) at d)),
    )
  ]

  -- The rollback remediation ends without an error only if there is a previous release to roll back to,
  -- with the name and namespace of the latest one (if there is a latest one), and Helm reports no
  -- error or there is a latest snapshot then, with another digest than before (if there was one).
  pub rollback_reconcile_done :
      (st : Run E.World)
      → (rollback_reconcile E req st).1 ≡ done
      → (prev : Snapshot) × (previous
            (rollback_ignores_tests E req st.object)
            st.object.status.history
          ≡ some prev)
        × IsRolledBack
            (latest st.object.status.history)
            prev
            (sort_history st)
            (latest (rollback_reconcile E req st).0.object.status.history)
  unfolding rollback_reconcile
  rollback_reconcile_done st d =
      let history = st.object.status.history in
      elim (Option-cases (previous (rollback_ignores_tests E req st.object) history)) [
        | inl n ↦ absurd (unfold rollback_run in ground arith)
        | inr (prev, p) ↦ (
          prev,
          p,
          rw (p, rollback_reconcile)
              (subst
                (λ s.
                  IsRolledBack (latest history) prev (sort_history st)
                    (latest s.object.status.history))
                (summarize_frame E
                  (rollback_run E req (latest history) (some prev) (sort_history st)).0)
                (run_done (latest history) prev (sort_history st)
                  (rw (p, rollback_reconcile) at d))),
        )
      ]
