-- ===== src/Reconcile/Actions/Unlock/Unlocked.antt =====
-- What the unlock reconciler does to a release in the storage (internal/reconcile/unlock.go).
use helm_controller.Base.{
  ◌≡◌, refl, ap, sym, ◌∙◌, Bool, true, false, List, [], ◌∷◌, map, Option, none, some, arith,
  Bool-cases, inl, inr, eq_iff, ℕ, String, if◌then◌else◌,
}
use helm_controller.Errors.{Error}
use helm_controller.Helm
use helm_controller.Helm.{Release}
use helm_controller.Api.HelmRelease.{get_release_name}
use helm_controller.Api.Snapshots.{Snapshot, Snapshots, targets}
use helm_controller.External.Digests.{Digests}
use helm_controller.External.Cluster.{Env, ok}
use helm_controller.Release.Observation.{observe_release}
use helm_controller.Release.Snapshot.{observed_to_snapshot}
use helm_controller.Action.Verify.{last_release}
use helm_controller.Reconcile.Request.{Run}
use helm_controller.Reconcile.Summary.{summarize}
use helm_controller.Reconcile.Summary.Frame.{summarize_frame}
use helm_controller.Reconcile.State.{is_locked_status}
use helm_controller.Reconcile.Record.{release_to_observation}
use helm_controller.Reconcile.Record.History.{key_of}
use helm_controller.Reconcile.Actions.{Exit, done, failed}
use helm_controller.Reconcile.Actions.Unlock.{
  observe_unlock, unlock_failure, unlock_success, unlock_updated, unlock_found, unlock_run,
  unlock_reconcile,
}

keys-observe_unlock :
    (d : Digests) (rls : Release) (ss : Snapshots)
    → map key_of (observe_unlock d rls ss) ≡ map key_of ss
unfolding observe_unlock observed_to_snapshot release_to_observation observe_release targets
keys-observe_unlock d rls [] = refl
keys-observe_unlock d rls (s ∷ ss) =
    ground (
      arith,
      keys-observe_unlock d rls ss,
      eq_iff s.name rls.name,
      eq_iff s.namespace rls.namespace,
    )

abbrev pub exit_of : Option Error → Exit
exit_of none = done
exit_of (some e) = failed e

-- The statuses that Helm only stores while an action runs.
pub is_stale : Helm.Status → Bool
is_stale Helm.pending_install = true
is_stale Helm.pending_upgrade = true
is_stale Helm.pending_rollback = true
is_stale Helm.uninstalling = true
is_stale _ = false

is_stale_lem : (status : Helm.Status) → is_locked_status status ≡ is_stale status
unfolding is_locked_status is_stale
is_stale_lem status = ground arith

module _ (E : Env) where
  -- The storage, the history's keys and the exit.
  abbrev pub view : Run E.World × Exit → E.World × List (String × String × ℕ) × Exit
  view r = (r.0.world, map key_of r.0.object.status.history, r.1)

  view-updated :
      (rls : Release) (cur : Snapshot) (status : Helm.Status) (e : Option Error) (st : Run E.World)
      → view (unlock_updated E rls cur status e st)
        ≡ (st.world, map key_of st.object.status.history, exit_of e)
  unfolding unlock_updated unlock_failure unlock_success
  view-updated rls cur status none st =
      ap (λ k. (st.world, k, done)) (keys-observe_unlock E.digests rls st.object.status.history)
  view-updated rls cur status (some e) st = refl

  view-summarize : (st : Run E.World) (x : Exit) → view (summarize E st, x) ≡ view (st, x)
  view-summarize st x = sym (ap (λ s. view (s, x)) (summarize_frame E st))

  -- A release that is found in the storage is written back with the status failed if its status is
  -- pending-install, pending-upgrade, pending-rollback or uninstalling, and the storage is not touched otherwise. The error of the write is
  -- returned, and the snapshots of the history stay snapshots of the same releases.
  pub unlock_reconcile_lem :
      (st : Run E.World) (rls : Release)
      → last_release E st.world (get_release_name st.object) ≡ ok rls
      → let (written, e) = E.update st.world (E.set_status rls Helm.failed) in
        let keys = map key_of st.object.status.history in
        view (unlock_reconcile E st)
        ≡ (if is_stale rls.info.status then (written, keys, exit_of e) else (st.world, keys, done))
  unfolding unlock_reconcile unlock_run unlock_found
  unlock_reconcile_lem st rls f =
      view-summarize _ _
      ∙ ap (λ r. view (unlock_run E r st)) f
      ∙ elim (Bool-cases (is_locked_status rls.info.status)) [
        | inl l ↦
            rw (l, sym (is_stale_lem rls.info.status) ∙ l)
              (view-updated (E.set_status rls Helm.failed) _ rls.info.status _ _)
        | inr l ↦ rw (l, sym (is_stale_lem rls.info.status) ∙ l) refl
      ]
