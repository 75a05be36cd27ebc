-- ===== src/Reconcile/Atomic/Choose/Limits.antt =====
-- When the choice of an action is refused (internal/reconcile/atomic_release.go).
use helm_controller.Base.{◌≡◌, ap, ◌⊎◌, inl, inr, Bool, true, false, some, arith, Option-cases}
use helm_controller.Errors
use helm_controller.Errors.{Error, is}
use helm_controller.Helm.{Release}
use helm_controller.Api.HelmRelease.{
  get_test, get_install, get_upgrade, install_remediation, upgrade_remediation,
  get_active_remediation, retries_exhausted,
}
use helm_controller.Api.Snapshots.{previous, truncate}
use helm_controller.Api.Snapshots.Truncate.{latest-previous-truncate}
use helm_controller.Api.Spec.{
  Remediation, must_ignore_test_failures, must_remediate_last_failure, get_strategy,
  RemediationStrategy, rollback_strategy, uninstall_strategy, other_strategy,
}
use helm_controller.External.Cluster.{Env, Result, ok, err}
use helm_controller.Action.Verify.{verify_snapshot}
use helm_controller.Reconcile.Request.{Run}
use helm_controller.Reconcile.State.{ReleaseState, absent, failed, out_of_sync}
use helm_controller.Reconcile.Atomic.Choose.{
  refuse, in_sync_next, release_or_refuse, drifted_next, rollback_next, remediate_by,
  failed_remediation, failed_next, choose,
}
use helm_controller.Reconcile.Atomic.Choose.Rollback.{rollback_target}

module _ (E : Env) (default_to_retry_on_failure : Bool) where
  -- Where a refusal for exceeded retries comes from: the remediation of the state is exhausted. A
  -- failed release may also pass on such an error from the look-up of its rollback target.
  pub Exceeded : ReleaseState → Run E.World → Type 0
  Exceeded absent st =
      retries_exhausted (install_remediation (get_install st.object)) st.object ≡ true
  Exceeded (out_of_sync why) st =
      retries_exhausted (upgrade_remediation (get_upgrade st.object)) st.object ≡ true
  Exceeded failed st =
      (r : Remediation) × (get_active_remediation st.object ≡ some r)
      × ((retries_exhausted r st.object ≡ true) × (must_remediate_last_failure r ≡ false)
          ⊎ (verify_snapshot E st.world (rollback_target E default_to_retry_on_failure r st.object)
              ≡ err Errors.exceeded_max_retries))
  Exceeded _ st = ⊥

  rollback_next_exceeded :
      (res : Result Release)
      → rollback_next E default_to_retry_on_failure res ≡ refuse Errors.exceeded_max_retries
      → res ≡ err Errors.exceeded_max_retries
  unfolding rollback_next
  rollback_next_exceeded (ok rls) e = absurd (ground arith)
  rollback_next_exceeded (err x) e = ground arith

  remediate_by_exceeded :
      (s : RemediationStrategy) (ignore : Bool) (st : Run E.World)
      → (remediate_by E default_to_retry_on_failure s ignore st).1
        ≡ refuse Errors.exceeded_max_retries
      → verify_snapshot E st.world (previous ignore st.object.status.history)
        ≡ err Errors.exceeded_max_retries
  unfolding remediate_by
  remediate_by_exceeded rollback_strategy ignore st e = rollback_next_exceeded _ e
  remediate_by_exceeded uninstall_strategy ignore st e = absurd (ground arith)
  remediate_by_exceeded other_strategy ignore st e = absurd (ground arith)

  failed_remediation_exceeded :
      (r : Remediation) (forced : Bool) (st : Run E.World)
      → (failed_remediation E default_to_retry_on_failure r forced st).1
        ≡ refuse Errors.exceeded_max_retries
      → (forced ≡ false)
        × ((retries_exhausted r st.object ≡ true) × (must_remediate_last_failure r ≡ false)
            ⊎ (verify_snapshot E st.world
                  (rollback_target E default_to_retry_on_failure r st.object)
                ≡ err Errors.exceeded_max_retries))
  unfolding failed_remediation rollback_target
  failed_remediation_exceeded r forced st e =
      let ignore = must_ignore_test_failures r (get_test st.object).ignore_failures in
      let history = st.object.status.history in
      let truncated : Run E.World = record st {
        object = record st.object {
          status = record st.object.status { history = truncate ignore history };
        };
      } in
      ground (
        arith,
        remediate_by_exceeded (get_strategy r) ignore truncated,
        ap (verify_snapshot E st.world) (latest-previous-truncate ignore history).1,
      )

  failed_next-Exceeded :
      (forced : Bool) (st : Run E.World)
      → (failed_next E default_to_retry_on_failure forced st).1 ≡ refuse Errors.exceeded_max_retries
      → (forced ≡ false) × Exceeded failed st
  unfolding failed_next Exceeded
  failed_next-Exceeded forced st e = elim (Option-cases (get_active_remediation st.object)) [
    | inl n ↦ absurd (ground arith)
    | inr (r, a) ↦
        let (f, h) = failed_remediation_exceeded r forced st (ground arith) in (f, (r, a, h))
  ]

  -- The choice is refused for exceeded retries only if no force was requested and the retries of the
  -- remediation that applies are exhausted: that of installs for an absent release, that of upgrades
  -- for one that is out of sync, and the active one for a failed release, if it does not remediate
  -- the last failure. (For a failed release, the look-up of the rollback target may itself end in
  -- this error, which is then passed on.)
  pub exceeded_lem :
      (state : ReleaseState) (forced : Bool) (st : Run E.World)
      → (choose E default_to_retry_on_failure state forced st).1
        ≡ refuse Errors.exceeded_max_retries
      → (forced ≡ false) × Exceeded state st
  unfolding choose
  exceeded_lem failed forced st e = failed_next-Exceeded forced st e
  exceeded_lem state forced st e =
      unfold in_sync_next release_or_refuse drifted_next Exceeded in ground arith
