-- ===== src/Reconcile/Atomic/Choose/Keeps.antt =====
-- What the choice of the next action leaves in the history
-- (internal/reconcile/atomic_release.go).
use helm_controller.Base.{
  ◌≡◌, ◌≢◌, ◌⊎◌, inl, inr, [], refl, sym, ap, ◌∙◌, Bool, true, false, Option, none, some, arith,
  List,
}
use helm_controller.Api.Conditions.{Reason, ConditionType, Format, ConditionStatus, Message}
use helm_controller.Api.HelmRelease.{get_test, clear_history}
use helm_controller.Api.Snapshots.{Snapshot, latest, truncate}
use helm_controller.Api.Snapshots.Truncate.{latest-previous-truncate, latest-truncate_ignoring}
use helm_controller.Api.Spec.{
  Remediation, RemediationStrategy, rollback_strategy, uninstall_strategy, other_strategy,
  must_ignore_test_failures, get_strategy,
}
use helm_controller.External.Cluster.{Env, Diff}
use helm_controller.Reconcile.Request.{Run}
use helm_controller.Reconcile.Summary.{summarize}
use helm_controller.Reconcile.Summary.Frame.{summarize_frame}
use helm_controller.Reconcile.State.{
  ReleaseState, in_sync, unmanaged, absent, locked, untested, failed, out_of_sync, drifted,
}
use helm_controller.Reconcile.Actions.Uninstall.Settled.{latest-sort}
use helm_controller.Reconcile.Atomic.Choose.{
  replace_condition, forget_remediation, prune_history, report_success, restore_released,
  clear_drift, in_sync_next, release_or_refuse, drifted_next, remediate_by, failed_remediation,
  failed_next, choose, ignores_test_failures,
}

module _ (E : Env) (retry : Bool) where
  abbrev latest_of : Run E.World → Option Snapshot
  latest_of st = latest st.object.status.history

  latest-summarize : (st : Run E.World) → latest_of (summarize E st) ≡ latest_of st
  latest-summarize st = sym (ap latest_of (summarize_frame E st))

  latest-replace_condition :
      (t r : ConditionType) (why : Reason) (msg : Message) (s : ConditionStatus) (st : Run E.World)
      → latest_of (replace_condition E retry t r why msg s st) ≡ latest_of st
  unfolding replace_condition
  latest-replace_condition t r why msg s st = ground arith

  latest-forget_remediation :
      (st : Run E.World) → latest_of (forget_remediation E retry st) ≡ latest_of st
  unfolding forget_remediation
  latest-forget_remediation st = grind (arith, latest-replace_condition, latest-sort)

  latest-prune_history : (st : Run E.World) → latest_of (prune_history E retry st) ≡ latest_of st
  unfolding prune_history
  latest-prune_history st = ground (
    arith,
    latest-truncate_ignoring st.object.status.history,
    latest-previous-truncate (ignores_test_failures st.object) st.object.status.history,
  )

  latest-report_success :
      (o : Option (Reason × Format)) (cur : Option Snapshot) (st : Run E.World)
      → latest_of (report_success E retry o cur st) ≡ latest_of st
  unfolding report_success
  latest-report_success none cur st = refl
  latest-report_success (some x) cur st = latest-summarize _

  latest-restore_released :
      (st : Run E.World) → latest_of (restore_released E retry st) ≡ latest_of st
  unfolding restore_released
  latest-restore_released st = grind (arith, latest-report_success)

  latest-clear_drift : (st : Run E.World) → latest_of (clear_drift E retry st) ≡ latest_of st
  unfolding clear_drift
  latest-clear_drift st = ground arith

  latest-in_sync_next :
      (forced : Bool) (st : Run E.World)
      → latest_of (in_sync_next E retry forced st).0 ≡ latest_of st
  unfolding in_sync_next
  latest-in_sync_next true st = latest-prune_history st
  latest-in_sync_next false st =
      latest-clear_drift _
      ∙ latest-restore_released _
      ∙ latest-forget_remediation _
      ∙ latest-prune_history st

  latest-remediate_by :
      (s : RemediationStrategy) (ignore : Bool) (st : Run E.World)
      → latest_of (remediate_by E retry s ignore st).0 ≡ latest_of st
  unfolding remediate_by
  latest-remediate_by rollback_strategy ignore st = latest-sort st.object.status.history
  latest-remediate_by uninstall_strategy ignore st = refl
  latest-remediate_by other_strategy ignore st = refl

  latest-failed_remediation :
      (r : Remediation) (forced : Bool) (st : Run E.World)
      → latest_of (failed_remediation E retry r forced st).0 ≡ latest_of st
  unfolding failed_remediation
  latest-failed_remediation r forced st =
      let ignore = must_ignore_test_failures r (get_test st.object).ignore_failures in
      let history = st.object.status.history in
      let truncated : Run E.World = record st {
        object = record st.object {
          status = record st.object.status { history = truncate ignore history };
        };
      } in
      ground (
        arith,
        latest-remediate_by (get_strategy r) ignore truncated,
        (latest-previous-truncate ignore history).0,
      )

  latest-failed_next :
      (forced : Bool) (st : Run E.World)
      → latest_of (failed_next E retry forced st).0 ≡ latest_of st
  unfolding failed_next
  latest-failed_next forced st = grind (arith, latest-truncate_ignoring, latest-failed_remediation)

  latest-drifted_next :
      (diffs : List Diff) (st : Run E.World)
      → latest_of (drifted_next E retry diffs st).0 ≡ latest_of st
  unfolding drifted_next
  latest-drifted_next diffs st = latest-sort st.object.status.history

  latest-choose_managed :
      (state : ReleaseState) (forced : Bool) (st : Run E.World)
      → state ≢ unmanaged
      → latest_of (choose E retry state forced st).0 ≡ latest_of st
  unfolding choose
  latest-choose_managed in_sync forced st n = latest-in_sync_next forced st
  latest-choose_managed unmanaged forced st n = absurd (n refl)
  latest-choose_managed absent forced st n = unfold release_or_refuse in refl
  latest-choose_managed locked forced st n = refl
  latest-choose_managed untested forced st n = latest-forget_remediation st
  latest-choose_managed failed forced st n = latest-failed_next forced st
  latest-choose_managed (out_of_sync why) forced st n = unfold release_or_refuse in refl
  latest-choose_managed (drifted diffs) forced st n = latest-drifted_next diffs st

  history-choose_unmanaged :
      (forced : Bool) (st : Run E.World)
      → (choose E retry unmanaged forced st).0.object.status.history ≡ []
  unfolding choose clear_history
  history-choose_unmanaged forced st = refl

  unmanaged-cases : (state : ReleaseState) → (state ≡ unmanaged) ⊎ (state ≢ unmanaged)
  unmanaged-cases unmanaged = inl refl
  unmanaged-cases state = inr (λ e. ground arith)

  -- Whatever action is chosen, the history keeps its latest snapshot, except that all snapshots are
  -- dropped for a release that is found to be unmanaged.
  pub latest-choose :
      (state : ReleaseState) (forced : Bool) (st : Run E.World)
      → let history = (choose E retry state forced st).0.object.status.history in
        (state ≢ unmanaged) × (latest history ≡ latest st.object.status.history)
        ⊎ (state ≡ unmanaged) × (history ≡ [])
  latest-choose state forced st = elim (unmanaged-cases state) [
    | inl e ↦ inr (e, ground (arith, e, history-choose_unmanaged forced st))
    | inr n ↦ inl (n, latest-choose_managed state forced st n)
  ]
