-- ===== src/Controller/Delete.antt =====
-- internal/controller/helmrelease_controller.go: reconcileUninstall, reconcileReleaseDeletion and
-- reconcileDelete.
pub mod Safe
use helm_controller.Base.{
  String, Bool, true, false, not, ◌&&◌, List, [], ◌∷◌, Option, none, some, str_eq, if◌then◌else◌,
}
use helm_controller.Errors
use helm_controller.Errors.{Error, is}
use helm_controller.Text.{after_last}
use helm_controller.Api.Conditions
use helm_controller.Api.Conditions.{
  ready, condition_false, uninstall_failed, config_factory_error, printf, error, text, error_fmt,
  getter_failed_fmt, account_failed_fmt, manager_failed_fmt,
}
use helm_controller.Api.HelmRelease.{HelmRelease, clear_history}
use helm_controller.External.Cluster.{Result, ok, err}
use helm_controller.External.Platform.{Platform, Settings, ReconcileResult}
use helm_controller.Reconcile.Request.{Run, update_status, mark}
use helm_controller.Reconcile.Actions.{Exit, done, failed, panicked}
use helm_controller.Reconcile.Actions.Uninstall.{uninstall_reconcile}
use helm_controller.Reconcile.ChartTemplate.{reconcile_chart}
use helm_controller.Controller.Flow.{
  Verdict, answer, panic, Step, stop, go, Flow, ◌>>=◌, ◌>>◌, no_result, requeue_now, fail_with,
  return_with, pass,
}
use helm_controller.Controller.Clients.{Getter, build_rest_client_getter}

-- HelmReleaseFinalizer.
abbrev pub helm_release_finalizer : String
helm_release_finalizer = "finalizers.fluxcd.io"

-- controllerutil.RemoveFinalizer and ContainsFinalizer of the controller runtime.
unfoldable pub remove_finalizer : String → List String → List String
remove_finalizer f [] = []
remove_finalizer f (g ∷ gs) =
    let rest = remove_finalizer f gs in if str_eq g f then rest else g ∷ rest

unfoldable pub contains_finalizer : String → List String → Bool
contains_finalizer f [] = false
contains_finalizer f (g ∷ gs) = if str_eq g f then true else contains_finalizer f gs

-- The service account of an impersonated user.
unfoldable pub account_of : String → String
account_of user = after_last ":" user

module _ (P : Platform) (s : Settings) where
  -- What is returned on an error of a reconciler that ran.
  abbrev pub after_exit : Exit → Flow P.env.World (Unit {0})
  after_exit done st = go st tt
  after_exit (failed e) st = stop st (fail_with e)
  after_exit panicked st = stop st panic

  -- reconcileChartTemplate.
  unfoldable pub reconcile_chart_template : Flow P.env.World (Unit {0})
  reconcile_chart_template st = let (ended, exit) = reconcile_chart P s st in after_exit exit ended

  abbrev pub mark_not_ready :
      Conditions.Reason → Conditions.Message → Run P.env.World → Run P.env.World
  mark_not_ready reason msg st = mark P.env ready condition_false reason msg st

  -- reconcileUninstall, for the configuration of the target cluster.
  unfoldable pub reconcile_uninstall : P.RestConfig → Run P.env.World → Run P.env.World × Exit
  reconcile_uninstall config st =
      let uninstalled = uninstall_reconcile P.env st in
      let managed : Run P.env.World × Exit = elim (P.resource_manager_error st.world config) [
        | some e ↦ (
          mark_not_ready uninstall_failed (printf manager_failed_fmt (error e ∷ [])) st,
          failed e,
        )
        | none ↦ uninstalled
      ] in
      elim (P.config_factory_error st.world config st.object.status.storage_namespace) [
        | some e ↦
            (mark_not_ready config_factory_error (printf error_fmt (error e ∷ [])) st, failed e)
        | none ↦ managed
      ]

  -- The end of reconcileReleaseDeletion: the details of the release leave the status.
  unfoldable pub truncate_details : Run P.env.World → Run P.env.World
  truncate_details st = update_status (λ t. record (clear_history t) { storage_namespace = "" }) st

  unfoldable pub uninstall_deleted : P.RestConfig → Run P.env.World → Run P.env.World × Exit
  uninstall_deleted config st =
      let (ended, exit) = reconcile_uninstall config st in
      elim exit [
        | done ↦ (truncate_details ended, done)
        | failed e ↦
            if is e Errors.no_latest then (truncate_details ended, done) else (ended, failed e)
        | panicked ↦ (ended, panicked)
      ]

  unfoldable pub confirm_account : P.RestConfig → String → Run P.env.World → Run P.env.World × Exit
  confirm_account config user st =
      let uninstalled = uninstall_deleted config st in
      if str_eq user ""
      then uninstalled
      else elim (P.get_service_account st.world (st.object.namespace, account_of user)) [
        | none ↦ uninstalled
        | some e ↦ if is e Errors.not_found then (st, done) else (
          mark_not_ready uninstall_failed
              (printf account_failed_fmt (text (account_of user) ∷ error e ∷ [])) st,
          failed e,
        )
      ]

  unfoldable pub delete_with : Result (Getter P s) → Run P.env.World → Run P.env.World × Exit
  delete_with (err e) st =
      if is e Errors.not_found
      then (st, done)
      else (mark_not_ready uninstall_failed (printf getter_failed_fmt (error e ∷ [])) st, failed e)
  delete_with (ok getter) st = elim (st.object.spec.kube_config) [
    | some kc ↦ uninstall_deleted getter.config st
    | none ↦ confirm_account getter.config (P.impersonated getter.config) st
  ]

  -- reconcileReleaseDeletion.
  unfoldable pub reconcile_release_deletion : Run P.env.World → Run P.env.World × Exit
  reconcile_release_deletion st =
      let built = build_rest_client_getter P s st.world st.object in
      if not st.object.deleting
      then (
        st,
        failed
            (Errors.external "refusing to uninstall Helm release: deletion timestamp is not set"),
      )
      else if str_eq st.object.status.storage_namespace ""
      then (st, done)
      else delete_with built st

  abbrev pub release_deletion : Flow P.env.World (Unit {0})
  release_deletion st = let (ended, exit) = reconcile_release_deletion st in after_exit exit ended

  -- The finalizer is removed.
  unfoldable pub finish_delete : Run P.env.World → Run P.env.World × Verdict
  finish_delete st =
      if st.object.deleting
      then (
        record st {
          object = record st.object {
            finalizers = remove_finalizer helm_release_finalizer st.object.finalizers;
          };
        },
        answer no_result none,
      )
      else (st, answer requeue_now none)

  -- What a flow that ends in a function from runs returns.
  abbrev pub ended_by :
      (Run P.env.World → Run P.env.World × Verdict)
      → Step P.env.World (Unit {0})
      → Run P.env.World × Verdict
  ended_by f (stop st verdict) = (st, verdict)
  ended_by f (go st u) = f st

  -- The two deletions that a HelmRelease that is not suspended waits for.
  unfoldable pub clean_up : Flow P.env.World (Unit {0})
  clean_up = do release_deletion; reconcile_chart_template

  -- reconcileDelete.
  unfoldable pub reconcile_delete : Run P.env.World → Run P.env.World × Verdict
  reconcile_delete st =
      if not st.object.spec.suspend then ended_by finish_delete (clean_up st) else finish_delete st
