-- ===== src/Reconcile/Atomic/Choose/Rollback.antt =====
-- When a rollback is chosen (internal/reconcile/atomic_release.go).
use mathlib.Core.Option.{some_inj}
use helm_controller.Base.{
  ◌≡◌, refl, subst, sym, ◌∙◌, ◌↔◌, ◌⊎◌, inl, inr, Bool, true, false, Option, none, some, arith, ltz,
  pos, Option-cases,
}
use helm_controller.Helm.{Release}
use helm_controller.Api.HelmRelease.{
  HelmRelease, get_test, get_active_retry, get_active_remediation, retries_exhausted,
  get_failure_count,
}
use helm_controller.Api.Snapshots.{Snapshot, previous, truncate}
use helm_controller.Api.Snapshots.Truncate.{latest-previous-truncate}
use helm_controller.Api.Spec.{
  Remediation, must_ignore_test_failures, must_remediate_last_failure, get_strategy,
  RemediationStrategy, rollback_strategy, uninstall_strategy, other_strategy,
}
use helm_controller.External.Cluster.{Env, Result, ok, err}
use helm_controller.Action.Verify.{verify_snapshot}
use helm_controller.Reconcile.Request.{Run}
use helm_controller.Reconcile.State.{ReleaseState, failed}
use helm_controller.Reconcile.Actions
use helm_controller.Reconcile.Actions.{Action}
use helm_controller.Reconcile.Atomic.Choose.{
  run, in_sync_next, release_or_refuse, drifted_next, rollback_next, remediate_by,
  failed_remediation, failed_next, choose,
}

module _ (E : Env) (default_to_retry_on_failure : Bool) where
  -- The previous release, as the remediation `r` picks the rollback target.
  unfoldable pub rollback_target : Remediation → HelmRelease → Option Snapshot
  rollback_target r obj =
      previous (must_ignore_test_failures r (get_test obj).ignore_failures) obj.status.history

  -- Whether the retries of the remediation permit one more remediation.
  pub Remediable : Remediation → HelmRelease → Type 0
  Remediable r obj =
      (ltz (pos 0) (get_failure_count r obj) ≡ true)
      × ((retries_exhausted r obj ≡ false) ⊎ (must_remediate_last_failure r ≡ true))

  rollback_next_iff :
      (res : Result Release)
      → (rollback_next E default_to_retry_on_failure res ≡ run Actions.rollback_remediation)
        ↔ ((rls : Release) × (res ≡ ok rls))
  unfolding rollback_next
  rollback_next_iff (ok rls) = (λ e. (rls, refl), λ e. refl)
  rollback_next_iff (err x) = (λ e. absurd (ground arith), λ (rls, e). absurd (ground arith))

  remediate_by_rollback :
      (s : RemediationStrategy) (ignore : Bool) (st : Run E.World)
      → ((remediate_by E default_to_retry_on_failure s ignore st).1
          ≡ run Actions.rollback_remediation)
        ↔ (s ≡ rollback_strategy)
          × ((rls : Release) × (verify_snapshot E st.world
                  (previous ignore st.object.status.history)
                ≡ ok rls))
  unfolding remediate_by
  remediate_by_rollback rollback_strategy ignore st =
      (λ e. (refl, (rollback_next_iff _).0 e), λ (s, v). (rollback_next_iff _).1 v)
  remediate_by_rollback uninstall_strategy ignore st =
      (λ e. absurd (ground arith), λ (s, v). absurd (ground arith))
  remediate_by_rollback other_strategy ignore st =
      (λ e. absurd (ground arith), λ (s, v). absurd (ground arith))

  -- The rollback target is still in the storage, and is the release that its snapshot recorded.
  pub Restorable : Remediation → Run E.World → Type 0
  Restorable r st =
      (rls : Release) × (verify_snapshot E st.world (rollback_target r st.object) ≡ ok rls)

  failed_remediation_rollback :
      (r : Remediation) (forced : Bool) (st : Run E.World)
      → ((failed_remediation E default_to_retry_on_failure r forced st).1
          ≡ run Actions.rollback_remediation)
        ↔ (forced ≡ false)
          × Remediable r st.object
          × (get_strategy r ≡ rollback_strategy)
          × Restorable r st
  unfolding failed_remediation Restorable rollback_target Remediable
  failed_remediation_rollback r forced st =
      let ignore = must_ignore_test_failures r (get_test st.object).ignore_failures in
      let history = st.object.status.history in
      let truncated : Run E.World = record st {
        object = record st.object {
          status = record st.object.status { history = truncate ignore history };
        };
      } in
      let b = remediate_by_rollback (get_strategy r) ignore truncated in
      let b' : ((remediate_by E default_to_retry_on_failure (get_strategy r) ignore truncated).1
            ≡ run Actions.rollback_remediation)
          ↔ (get_strategy r ≡ rollback_strategy)
            × ((rls : Release) × (verify_snapshot E st.world (previous ignore history) ≡ ok rls)) =
        subst
          (λ p.
            ((remediate_by E default_to_retry_on_failure (get_strategy r) ignore truncated).1
              ≡ run Actions.rollback_remediation)
            ↔ (get_strategy r ≡ rollback_strategy)
              × ((rls : Release) × (verify_snapshot E st.world p ≡ ok rls)))
          (latest-previous-truncate ignore history).1 b in
      ground (arith, b')

  -- A rollback is due: the failures are not retried otherwise, nothing is forced, and the remediation
  -- of the last action is to roll back, may still be done, and has a target.
  pub RollbackDue : Bool → Run E.World → Type 0
  RollbackDue forced st =
      (get_active_retry st.object default_to_retry_on_failure ≡ none)
      × ((r : Remediation) × (get_active_remediation st.object ≡ some r)
          × (forced ≡ false)
          × Remediable r st.object
          × (get_strategy r ≡ rollback_strategy)
          × Restorable r st)

  failed_next_rollback :
      (forced : Bool) (st : Run E.World)
      → ((failed_next E default_to_retry_on_failure forced st).1 ≡ run Actions.rollback_remediation)
        ↔ RollbackDue forced st
  unfolding failed_next RollbackDue
  failed_next_rollback forced st =
      elim (Option-cases (get_active_retry st.object default_to_retry_on_failure)) [
        | inr (s, retry) ↦ (λ e. absurd (ground arith), λ (n, h). absurd (ground arith))
        | inl no_retry ↦ elim (Option-cases (get_active_remediation st.object)) [
          | inl n ↦ (λ e. absurd (ground arith), λ (_, (r, a, x, y, z, w)). absurd (ground arith))
          | inr (r, a) ↦
              let f = failed_remediation_rollback r forced st in
              (
                λ e.
                    let (x, y, z, w) = f.0 (rw (no_retry, a, failed_next) at e) in
                    (no_retry, (r, a, x, y, z, w)),
                λ (_, (r', a', x, y, z, w)).
                    rw (no_retry, a, failed_next)
                      (f.1 (
                        subst
                          (λ x.
                            (forced ≡ false)
                            × Remediable x st.object
                            × (get_strategy x ≡ rollback_strategy)
                            × Restorable x st)
                          (some_inj.0 (sym a' ∙ a)) (x, y, z, w))),
              )
        ]
      ]

  -- A rollback is chosen if and only if the release failed and a rollback is due: no strategy to retry
  -- is active, nothing is forced, and the remediation of the last action is to roll back, has counted
  -- failures, has retries left or remediates the last failure too, and its previous release is in
  -- the storage as its snapshot recorded it.
  pub rollback_chosen_iff :
      (state : ReleaseState) (forced : Bool) (st : Run E.World)
      → ((choose E default_to_retry_on_failure state forced st).1
          ≡ run Actions.rollback_remediation)
        ↔ (state ≡ failed) × RollbackDue forced st
  unfolding choose
  rollback_chosen_iff failed forced st =
      let f = failed_next_rollback forced st in (λ e. (refl, f.0 e), λ (s, h). f.1 h)
  rollback_chosen_iff state forced st =
      unfold in_sync_next release_or_refuse drifted_next in
      (λ e. absurd (ground arith), λ (s, h). absurd (ground arith))
