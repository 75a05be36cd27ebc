-- ===== src/Reconcile/Actions/Unlock.antt =====
-- internal/reconcile/unlock.go
pub mod Unlocked
use helm_controller.Base.{
  ℕ, String, Bool, true, false, List, [], ◌∷◌, ◌++◌, Option, none, some, if◌then◌else◌,
}
use helm_controller.Errors
use helm_controller.Errors.{Error, is}
use helm_controller.Helm
use helm_controller.Helm.{Release}
use helm_controller.Api.Conditions.{
  released, condition_false, pending_release, printf, unlock_failure_fmt, unlock_success_fmt, error,
  helm_status,
}
use helm_controller.Api.Snapshots.{Snapshot, Snapshots, targets}
use helm_controller.Api.HelmRelease.{get_release_name}
use helm_controller.External.Digests.{Digests}
use helm_controller.External.Cluster.{Env, Result, ok, err}
use helm_controller.Release.Observation.{observe_release}
use helm_controller.Release.Snapshot.{observed_to_snapshot}
use helm_controller.Action.Verify.{last_release}
use helm_controller.Reconcile.Request.{Run, update_status, emit, set_world, mark}
use helm_controller.Reconcile.Summary.{summarize}
use helm_controller.Reconcile.Record.{release_to_observation}
use helm_controller.Reconcile.State.{is_locked_status}
use helm_controller.Reconcile.Actions.{Exit, done, failed, count_failure, names_of, snapshot_meta}

-- observeUnlock: the first snapshot that the release targets is taken anew.
unfoldable pub observe_unlock : Digests → Release → Snapshots → Snapshots
observe_unlock d rls [] = []
observe_unlock d rls (snap ∷ ss) =
    let rest = observe_unlock d rls ss in
    if targets snap rls.name rls.namespace rls.version
    then observed_to_snapshot d (release_to_observation rls snap snap.action) ∷ ss
    else snap ∷ rest

-- The loop of processCurrentSnaphot: the artifact digest of the last snapshot that is targeted.
unfoldable pub oci_digest_of : Release → String → Snapshots → String
oci_digest_of rls found [] = found
oci_digest_of rls found (snap ∷ ss) =
    oci_digest_of rls
      (if targets snap rls.name rls.namespace rls.version then snap.oci_digest else found) ss

unfoldable pub process_current_snapshot : Digests → Release → Snapshots → Snapshot
process_current_snapshot d rls history =
    let cur = observed_to_snapshot d (observe_release rls) in
    record cur { oci_digest = oci_digest_of rls cur.oci_digest history }

module _ (E : Env) where
  unfoldable pub unlock_failure : Snapshot → Helm.Status → Error → Run E.World → Run E.World
  unlock_failure cur status e st =
      let msg =
        printf unlock_failure_fmt (names_of (some cur) ++ helm_status status ∷ error e ∷ []) in
      emit true pending_release msg (snapshot_meta cur)
        (mark E released condition_false pending_release msg (count_failure st))

  unfoldable pub unlock_success : Snapshot → Helm.Status → Run E.World → Run E.World
  unlock_success cur status st =
      let msg = printf unlock_success_fmt (names_of (some cur) ++ helm_status status ∷ []) in
      emit false pending_release msg (snapshot_meta cur)
        (mark E released condition_false pending_release msg st)

  -- `Update` of the storage runs the observer if it succeeds.
  unfoldable pub unlock_updated :
      Release → Snapshot → Helm.Status → Option Error → Run E.World → Run E.World × Exit
  unlock_updated rls cur status (some e) st = (unlock_failure cur status e st, failed e)
  unlock_updated rls cur status none st = (
    unlock_success cur status
        (update_status (λ s. record s { history = observe_unlock E.digests rls s.history }) st),
    done,
  )

  unfoldable pub unlock_found : Release → Run E.World → Run E.World × Exit
  unlock_found rls st =
      let cur = process_current_snapshot E.digests rls st.object.status.history in
      let status = rls.info.status in
      let unlocked = E.set_status rls Helm.failed in
      let (w, e) = E.update st.world unlocked in
      if is_locked_status status
      then unlock_updated unlocked cur status e (set_world w st)
      else (st, done)

  unfoldable pub unlock_run : Result Release → Run E.World → Run E.World × Exit
  unlock_run (ok rls) st = unlock_found rls st
  unlock_run (err e) st = (st, if is e Errors.release_not_found then done else failed e)

  unfoldable pub unlock_reconcile : Run E.World → Run E.World × Exit
  unlock_reconcile st =
      let (finished, exit) = unlock_run (last_release E st.world (get_release_name st.object)) st in
      (summarize E finished, exit)
