-- ===== src/Reconcile/Actions/Uninstall/Frame.antt =====
-- An uninstall changes nothing of a HelmRelease but its status (internal/reconcile/uninstall.go).
use helm_controller.Base.{refl, false, Option, none, some, arith}
use helm_controller.Errors.{Error}
use helm_controller.Helm
use helm_controller.Helm.{same_status}
use helm_controller.Api.Conditions
use helm_controller.Api.Snapshots.{Snapshot, latest}
use helm_controller.External.Cluster.{Env}
use helm_controller.Reconcile.Request.{Run, sort_history}
use helm_controller.Reconcile.Summary.Frame.{SameObject, summarize_same}
use helm_controller.Reconcile.Actions.{emit_about}
use helm_controller.Reconcile.Actions.Uninstall.{
  uninstall_failure, uninstall_success, uninstall_finish, uninstall_run, uninstall_reconcile,
  uninstall_observed, uninstall_error, uninstall_remediation_failure, uninstall_remediation_success,
  uninstall_remediation_finish, uninstall_remediation_run, uninstall_remediation_reconcile,
}

module _ (E : Env) where
  finish_same : (e : Option Error) (st : Run E.World) → SameObject st (uninstall_finish E e st).0
  unfolding uninstall_finish uninstall_failure uninstall_success emit_about
  finish_same none st = ground arith
  finish_same (some e) st = ground arith

  run_same : (cur : Option Snapshot) (st : Run E.World) → SameObject st (uninstall_run E cur st).0
  unfolding uninstall_run uninstall_observed
  run_same none st = refl
  run_same (some cur) st =
      let out = E.uninstall st.world st.object cur.name in
      let observed = uninstall_observed E Conditions.uninstall out st in
      let e =
        uninstall_error (same_status cur.status Helm.uninstalled) cur out.release out.error
          (latest observed.object.status.history) in
      ground (arith, finish_same e observed)

  pub uninstall_reconcile_same : (st : Run E.World) → SameObject st (uninstall_reconcile E st).0
  unfolding uninstall_reconcile
  uninstall_reconcile_same st =
      let (finished, exit) = uninstall_run E (latest st.object.status.history) (sort_history st) in
      let ran = run_same (latest st.object.status.history) (sort_history st) in
      ground (arith, summarize_same E finished, ran)

  remediation_failure_same :
      (e : Error) (st : Run E.World) → SameObject st (uninstall_remediation_failure E e st).0
  unfolding uninstall_remediation_failure emit_about
  remediation_failure_same e st = ground arith

  remediation_finish_same :
      (cur : Snapshot) (e : Option Error) (st : Run E.World)
      → SameObject st (uninstall_remediation_finish E cur e st).0
  unfolding uninstall_remediation_finish uninstall_remediation_success emit_about
  remediation_finish_same cur none st = ground arith
  remediation_finish_same cur (some e) st = ground (arith, remediation_failure_same e st)

  remediation_run_same :
      (cur : Option Snapshot) (st : Run E.World)
      → SameObject st (uninstall_remediation_run E cur st).0
  unfolding uninstall_remediation_run uninstall_observed
  remediation_run_same none st = refl
  remediation_run_same (some cur) st =
      let out = E.uninstall st.world st.object cur.name in
      let observed = uninstall_observed E Conditions.uninstall_remediation out st in
      let e =
        uninstall_error false cur out.release out.error (latest observed.object.status.history) in
      ground (arith, remediation_finish_same cur e observed)

  pub uninstall_remediation_same :
      (st : Run E.World) → SameObject st (uninstall_remediation_reconcile E st).0
  unfolding uninstall_remediation_reconcile
  uninstall_remediation_same st =
      ground (arith, remediation_run_same (latest st.object.status.history) (sort_history st))
