-- ===== src/Reconcile/Atomic/Choose/Same.antt =====
-- The choice of the next action changes nothing of a HelmRelease but its status.
use helm_controller.Base.{refl, Bool, true, false, Option, none, some, arith}
use helm_controller.Api.Conditions.{Reason, Format}
use helm_controller.Api.Snapshots.{Snapshot}
use helm_controller.Api.Spec.{
  Remediation, RemediationStrategy, rollback_strategy, uninstall_strategy, other_strategy,
  must_ignore_test_failures, get_strategy,
}
use helm_controller.Api.HelmRelease.{get_test}
use helm_controller.Api.Snapshots.{truncate}
use helm_controller.External.Cluster.{Env}
use helm_controller.Reconcile.Request.{Run, update_status}
use helm_controller.Reconcile.Summary.Frame.{SameObject, summarize_same}
use helm_controller.Reconcile.State.{
  ReleaseState, in_sync, unmanaged, absent, locked, untested, failed, out_of_sync, drifted,
}
use helm_controller.Reconcile.Atomic.Choose.{
  replace_condition, forget_remediation, prune_history, report_success, restore_released,
  clear_drift, in_sync_next, release_or_refuse, drifted_next, remediate_by, failed_remediation,
  failed_next, choose, should_handle_force_request, action_for_state,
}

module _ (E : Env) (retry : Bool) where
  forget_remediation_same : (st : Run E.World) → SameObject st (forget_remediation E retry st)
  unfolding forget_remediation replace_condition
  forget_remediation_same st = ground arith

  prune_history_same : (st : Run E.World) → SameObject st (prune_history E retry st)
  unfolding prune_history
  prune_history_same st = ground arith

  report_success_same :
      (o : Option (Reason × Format)) (cur : Option Snapshot) (st : Run E.World)
      → SameObject st (report_success E retry o cur st)
  unfolding report_success
  report_success_same none cur st = refl
  report_success_same (some x) cur st = summarize_same E _

  restore_released_same : (st : Run E.World) → SameObject st (restore_released E retry st)
  unfolding restore_released
  restore_released_same st = grind (arith, report_success_same)

  clear_drift_same : (st : Run E.World) → SameObject st (clear_drift E retry st)
  unfolding clear_drift
  clear_drift_same st = ground arith

  in_sync_next_same :
      (forced : Bool) (st : Run E.World) → SameObject st (in_sync_next E retry forced st).0
  unfolding in_sync_next
  in_sync_next_same true st = prune_history_same st
  in_sync_next_same false st =
      let pruned = prune_history E retry st in
      let forgot = forget_remediation E retry pruned in
      ground (
        arith,
        prune_history_same st,
        forget_remediation_same pruned,
        restore_released_same forgot,
        clear_drift_same (restore_released E retry forgot),
      )

  remediate_by_same :
      (strategy : RemediationStrategy) (ignore : Bool) (st : Run E.World)
      → SameObject st (remediate_by E retry strategy ignore st).0
  unfolding remediate_by
  remediate_by_same rollback_strategy ignore st = refl
  remediate_by_same uninstall_strategy ignore st = refl
  remediate_by_same other_strategy ignore st = refl

  failed_remediation_same :
      (r : Remediation) (forced : Bool) (st : Run E.World)
      → SameObject st (failed_remediation E retry r forced st).0
  unfolding failed_remediation
  failed_remediation_same r forced st =
      let ignore = must_ignore_test_failures r (get_test st.object).ignore_failures in
      ground (
        arith,
        remediate_by_same (get_strategy r) ignore
            (update_status (λ s. record s { history = truncate ignore s.history }) st),
      )

  failed_next_same :
      (forced : Bool) (st : Run E.World) → SameObject st (failed_next E retry forced st).0
  unfolding failed_next
  failed_next_same forced st = grind (arith, failed_remediation_same)

  choose_same :
      (state : ReleaseState) (forced : Bool) (st : Run E.World)
      → SameObject st (choose E retry state forced st).0
  unfolding choose release_or_refuse drifted_next
  choose_same in_sync forced st = in_sync_next_same forced st
  choose_same locked forced st = refl
  choose_same absent forced st = refl
  choose_same unmanaged forced st = refl
  choose_same (out_of_sync why) forced st = refl
  choose_same (drifted diffs) forced st = refl
  choose_same untested forced st = forget_remediation_same st
  choose_same failed forced st = failed_next_same forced st

  pub action_for_state_same :
      (state : ReleaseState) (st : Run E.World)
      → SameObject st (action_for_state E retry state st).0
  unfolding action_for_state should_handle_force_request
  action_for_state_same state st =
      let (forced, handled) = should_handle_force_request E retry st in
      ground (arith, choose_same state forced handled)
