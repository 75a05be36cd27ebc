-- ===== src/Controller/Delete/Safe.antt =====
-- When the finalizer of a HelmRelease is removed.
use helm_controller.Base.{
  String, ◌≡◌, ◌⊎◌, inl, inr, refl, true, false, List, [], ◌∷◌, none, some, str_eq, arith,
  Bool-cases, Option-cases,
}
use helm_controller.Errors
use helm_controller.Errors.{Error, is}
use helm_controller.Api.Charts.{has_chart}
use helm_controller.External.Cluster.{Result, ok, err, Result-cases}
use helm_controller.External.Platform.{Platform, Settings, Failure}
use helm_controller.Reconcile.Request.{Run}
use helm_controller.Reconcile.Actions.{Exit, done, failed, panicked}
use helm_controller.Reconcile.Summary.Frame.{SameObject}
use helm_controller.Reconcile.Actions.Uninstall.Frame.{uninstall_reconcile_same}
use helm_controller.Reconcile.ChartTemplate.{reconcile_chart}
use helm_controller.Reconcile.ChartTemplate.Cleanup.{
  reconcile_chart_frame, reconcile_chart-deleting,
}
use helm_controller.Controller.Flow.{Verdict, answer, panic, no_result}
use helm_controller.Controller.Clients.{Getter, build_rest_client_getter}
use helm_controller.Controller.Delete.{
  helm_release_finalizer, remove_finalizer, contains_finalizer, reconcile_chart_template,
  reconcile_uninstall, truncate_details, uninstall_deleted, account_of, confirm_account,
  delete_with, reconcile_release_deletion, finish_delete, clean_up, reconcile_delete,
}

Exit-cases : (x : Exit) → (x ≡ done) ⊎ ((e : Error) × (x ≡ failed e)) ⊎ (x ≡ panicked)
Exit-cases done = inl refl
Exit-cases (failed e) = inr (inl (e, refl))
Exit-cases panicked = inr (inr refl)

contains-remove :
    (f : String) (gs : List String) → contains_finalizer f (remove_finalizer f gs) ≡ false
unfolding contains_finalizer remove_finalizer
contains-remove f [] = refl
contains-remove f (g ∷ gs) = ground (arith, contains-remove f gs)

module _ (P : Platform) (s : Settings) where
  -- The uninstall of the release ended, or found that there was none.
  abbrev pub IsUninstallRun : P.RestConfig → Run P.env.World → Type 0
  IsUninstallRun config st =
      ((reconcile_uninstall P s config st).1 ≡ done)
      ⊎ ((e : Error) × ((reconcile_uninstall P s config st).1 ≡ failed e)
          × (is e Errors.no_latest ≡ true))

  -- The service account that is impersonated on the cluster of the controller is gone.
  abbrev pub IsAccountGone : P.RestConfig → Run P.env.World → Type 0
  IsAccountGone config st =
      (e : Error) × (P.get_service_account st.world
          (st.object.namespace, account_of (P.impersonated config))
        ≡ some e)
      × (is e Errors.not_found ≡ true)

  -- There is no client for the cluster, since something that is needed for it is not found.
  abbrev pub IsClientMissing : Run P.env.World → Type 0
  IsClientMissing st =
      (e : Error) × (build_rest_client_getter P s st.world st.object ≡ err e)
      × (is e Errors.not_found ≡ true)

  abbrev pub IsRemoved : Run P.env.World → Type 0
  IsRemoved st =
      (getter : Getter P s) × (build_rest_client_getter P s st.world st.object ≡ ok getter)
      × (IsAccountGone getter.config st ⊎ IsUninstallRun getter.config st)

  -- Why nothing of the release is left to do: it was never stored, something that its client needs or
  -- the impersonated account is not found, so that the uninstall is skipped, or it was uninstalled.
  abbrev pub IsReleaseSettled : Run P.env.World → Type 0
  IsReleaseSettled st =
      (str_eq st.object.status.storage_namespace "" ≡ true) ⊎ (IsClientMissing st ⊎ IsRemoved st)

  uninstall_deleted_done :
      (config : P.RestConfig) (st : Run P.env.World)
      → (uninstall_deleted P s config st).1 ≡ done
      → IsUninstallRun config st
  unfolding uninstall_deleted
  uninstall_deleted_done config st h = elim (Exit-cases (reconcile_uninstall P s config st).1) [
    | inl d ↦ inl d
    | inr (inl (e, f)) ↦ inr (e, f, ground arith)
    | inr (inr p) ↦ absurd (ground arith)
  ]

  confirm_account_done :
      (config : P.RestConfig) (st : Run P.env.World)
      → (confirm_account P s config (P.impersonated config) st).1 ≡ done
      → IsAccountGone config st ⊎ IsUninstallRun config st
  unfolding confirm_account
  confirm_account_done config st h = elim (Bool-cases (str_eq (P.impersonated config) "")) [
    | inl none_used ↦ inr (uninstall_deleted_done config st (ground arith))
    | inr used ↦
        elim (Option-cases (
          P.get_service_account st.world
            (st.object.namespace, account_of (P.impersonated config)))) [
              | inl found ↦ inr (uninstall_deleted_done config st (ground arith))
              | inr (e, missing) ↦ inl (e, missing, ground arith)
            ]
  ]

  reconcile_release_deletion_done :
      (st : Run P.env.World) → (reconcile_release_deletion P s st).1 ≡ done → IsReleaseSettled st
  unfolding reconcile_release_deletion delete_with
  reconcile_release_deletion_done st h =
      elim (Bool-cases (str_eq st.object.status.storage_namespace "")) [
        | inl empty ↦ inl empty
        | inr stored ↦ elim (Result-cases (build_rest_client_getter P s st.world st.object)) [
          | inl (e, f) ↦ inr (inl (e, f, ground arith))
          | inr (getter, f) ↦ elim (Option-cases st.object.spec.kube_config) [
            | inl local ↦
                inr (inr (getter, f, confirm_account_done getter.config st (ground arith)))
            | inr (kc, remote) ↦
                inr (inr (getter, f, inr (uninstall_deleted_done getter.config st (ground arith))))
          ]
        ]
      ]

  uninstall_deleted_frame :
      (config : P.RestConfig) (st : Run P.env.World)
      → SameObject st (uninstall_deleted P s config st).0
  unfolding uninstall_deleted reconcile_uninstall truncate_details
  uninstall_deleted_frame config st = ground (arith, uninstall_reconcile_same P.env st)

  confirm_account_frame :
      (config : P.RestConfig) (user : String) (st : Run P.env.World)
      → SameObject st (confirm_account P s config user st).0
  unfolding confirm_account
  confirm_account_frame config user st = ground (arith, uninstall_deleted_frame config st)

  delete_with_frame :
      (built : Result (Getter P s)) (st : Run P.env.World)
      → SameObject st (delete_with P s built st).0
  unfolding delete_with
  delete_with_frame (err e) st = ground arith
  delete_with_frame (ok getter) st = ground (
    arith,
    uninstall_deleted_frame getter.config st,
    confirm_account_frame getter.config (P.impersonated getter.config) st,
  )

  reconcile_release_deletion_frame :
      (st : Run P.env.World) → SameObject st (reconcile_release_deletion P s st).0
  unfolding reconcile_release_deletion
  reconcile_release_deletion_frame st =
      ground (arith, delete_with_frame (build_rest_client_getter P s st.world st.object) st)

  -- An error, or a panic, is returned.
  abbrev pub IsError : Verdict → Type 0
  IsError verdict = ((f : Failure) × (verdict ≡ answer no_result (some f))) ⊎ (verdict ≡ panic)

  abbrev pub IsReleased : Run P.env.World → Run P.env.World → Type 0
  IsReleased st end =
      (contains_finalizer helm_release_finalizer end.object.finalizers ≡ false)
      × IsReleaseSettled st
      × (has_chart end.object.status ≡ false)

  abbrev pub IsKept : Run P.env.World → Run P.env.World → Verdict → Type 0
  IsKept st end verdict = (end.object.finalizers ≡ st.object.finalizers) × IsError verdict

  finish_delete_lem :
      (st : Run P.env.World)
      → st.object.deleting ≡ true
      → ((finish_delete P s st).1 ≡ answer no_result none)
        × (contains_finalizer helm_release_finalizer (finish_delete P s st).0.object.finalizers
            ≡ false)
        × ((finish_delete P s st).0.object.status ≡ st.object.status)
  unfolding finish_delete
  finish_delete_lem st d =
      ground (arith, contains-remove helm_release_finalizer st.object.finalizers)

  abbrev pub Ends : Run P.env.World → Run P.env.World × Verdict → Type 0
  Ends st (end, verdict) =
      ((verdict ≡ answer no_result none) × IsReleased st end) ⊎ IsKept st end verdict

  -- The deletion of a HelmRelease that is not suspended either returns no error, and then its
  -- finalizer is removed, no chart is left in its status, and one of these holds: the status has no
  -- storage namespace; something that the client for the cluster needs is not found; the service
  -- account to impersonate is not found; the uninstall ended without an error, or found no latest
  -- release. Or it returns an error or panics, and then the finalizers are as before.
  pub reconcile_delete_lem :
      (st : Run P.env.World)
      → st.object.deleting ≡ true
      → st.object.spec.suspend ≡ false
      → Ends st (reconcile_delete P s st)
  unfolding reconcile_delete clean_up reconcile_chart_template
  reconcile_delete_lem st d h =
      let (released, exit) = reconcile_release_deletion P s st in
      let (cleaned, chart_exit) = reconcile_chart P s released in
      let frame = reconcile_release_deletion_frame st in
      let chart_frame = reconcile_chart_frame P s released in
      elim (Exit-cases exit) [
        | inl a ↦ elim (Exit-cases chart_exit) [
          | inl b ↦
              let (v, f, kept) = finish_delete_lem cleaned (ground arith) in
              let no_chart =
                reconcile_chart-deleting P s released cleaned (ground arith) (ground arith)
                  (ground arith) in
              inl (
                ground (arith, v),
                (ground (arith, f), reconcile_release_deletion_done st a, ground (arith, kept)),
              )
          | inr (inl (e, b)) ↦
              inr (ground arith, inl (record { terminal = false; cause = e }, ground arith))
          | inr (inr b) ↦ inr (ground arith, inr (ground arith))
        ]
        | inr (inl (e, a)) ↦
            inr (ground arith, inl (record { terminal = false; cause = e }, ground arith))
        | inr (inr a) ↦ inr (ground arith, inr (ground arith))
      ]
