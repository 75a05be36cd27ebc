-- ===== src/Reconcile/ChartTemplate/Cleanup.antt =====
-- What the chart template reconciler leaves in the status of a HelmRelease.
use helm_controller.Base.{◌≡◌, refl, true, false, Option, none, some, arith, if◌then◌else◌}
use helm_controller.Text.{has}
use helm_controller.Api.Spec.{HelmChartTemplate}
use helm_controller.Api.HelmRelease.{HelmReleaseStatus}
use helm_controller.Api.Charts.{
  HelmChartReference, template_reference, has_chart, set_chart, status_reference, has_chart_ref,
  has_chart_template, is_valid_chart_ref,
}
use helm_controller.Api.Charts.RoundTrip.{set_chart-status_reference, no_chart}
use helm_controller.External.Platform.{Platform, Settings}
use helm_controller.Reconcile.Request.{Run}
use helm_controller.Reconcile.Actions.{done}
use helm_controller.Reconcile.ChartTemplate.{
  must_clean_deployed_chart, forget_chart, delete_found, fetch_and_delete, delete_referenced,
  reconcile_delete, applied, apply_built, apply_template, reconcile_present, after_delete,
  reconcile_chart,
}

-- The parts of a reference have no slash, as the names of Kubernetes objects.
abbrev pub IsPlain : Option HelmChartReference → Type 0
IsPlain none = Unit {0}
IsPlain (some ref) =
    (has "/" ref.kind ≡ false) × (has "/" ref.namespace ≡ false) × (has "/" ref.name ≡ false)

-- A status without a chart has no reference.
pub no_chart-no_reference :
    (st : HelmReleaseStatus) → has_chart st ≡ false → status_reference st ≡ none
unfolding has_chart status_reference
no_chart-no_reference st h = ground arith

module _ (P : Platform) (s : Settings) where
  -- Only the status of the object changes.
  pub reconcile_delete_frame :
      (st : Run P.env.World)
      → (reconcile_delete P s st).0.object
        ≡ record st.object { status = (reconcile_delete P s st).0.object.status }
  unfolding reconcile_delete delete_referenced fetch_and_delete delete_found forget_chart set_chart
  reconcile_delete_frame st = ground arith

  -- A deletion that succeeds leaves no chart in the status, unless the object is suspended.
  pub reconcile_delete-no_chart :
      (st : Run P.env.World) {end : Run P.env.World}
      → st.object.spec.suspend ≡ false
      → reconcile_delete P s st ≡ (end, done)
      → has_chart end.object.status ≡ false
  unfolding reconcile_delete delete_referenced fetch_and_delete delete_found forget_chart has_chart
  reconcile_delete-no_chart st h e = ground (arith, no_chart st.object.status)

  -- An apply that succeeds leaves the reference of the applied chart in the status.
  pub apply_template-status :
      (template : Option HelmChartTemplate) (ref : Option HelmChartReference) (st : Run P.env.World)
      {end : Run P.env.World}
      → IsPlain ref
      → apply_template P s template ref st ≡ (end, done)
      → status_reference end.object.status ≡ ref
  unfolding apply_template apply_built applied
  apply_template-status (some template) (some ref) st (k, n, m) e =
      let r = (set_chart-status_reference ref st.object.status k n m).0 in ground arith
  apply_template-status _ _ st plain e = ground arith

  -- Without a template, what is in the status is deleted; with one, it is applied.
  pub reconcile_present-status :
      (st : Run P.env.World) {end : Run P.env.World}
      → is_valid_chart_ref st.object ≡ true
      → st.object.spec.suspend ≡ false
      → IsPlain (template_reference st.object)
      → reconcile_present P s st ≡ (end, done)
      → status_reference end.object.status ≡ template_reference st.object
  unfolding reconcile_present is_valid_chart_ref must_clean_deployed_chart has_chart_ref
      has_chart_template template_reference
  reconcile_present-status st {end} valid h plain e = ground (
    arith,
    reconcile_delete-no_chart st {end = end} h,
    no_chart-no_reference end.object.status,
    no_chart-no_reference st.object.status,
    apply_template-status st.object.spec.chart (template_reference st.object) st {end = end} plain,
  )

  -- No reconciliation of the chart template changes anything but the status.
  apply_template_frame :
      (template : Option HelmChartTemplate) (ref : Option HelmChartReference) (st : Run P.env.World)
      → (apply_template P s template ref st).0.object
        ≡ record st.object { status = (apply_template P s template ref st).0.object.status }
  unfolding apply_template apply_built applied
  apply_template_frame (some template) (some ref) st = ground arith
  apply_template_frame (some template) none st = refl
  apply_template_frame none ref st = refl

  reconcile_present_frame :
      (st : Run P.env.World)
      → (reconcile_present P s st).0.object
        ≡ record st.object { status = (reconcile_present P s st).0.object.status }
  unfolding reconcile_present
  reconcile_present_frame st = ground (
    arith,
    reconcile_delete_frame st,
    apply_template_frame st.object.spec.chart (template_reference st.object) st,
  )

  pub reconcile_chart_frame :
      (st : Run P.env.World)
      → (reconcile_chart P s st).0.object
        ≡ record st.object { status = (reconcile_chart P s st).0.object.status }
  unfolding reconcile_chart after_delete
  reconcile_chart_frame st = ground (
    arith,
    reconcile_delete_frame st,
    reconcile_present_frame st,
    reconcile_present_frame (reconcile_delete P s st).0,
  )

  -- So the deletion leaves the reference that is asked for, and its shape.
  reconcile_delete_reference :
      (st : Run P.env.World)
      → let deleted = (reconcile_delete P s st).0.object in
        (template_reference deleted ≡ template_reference st.object)
        × (is_valid_chart_ref deleted ≡ is_valid_chart_ref st.object)
        × (deleted.spec ≡ st.object.spec)
        × (deleted.deleting ≡ st.object.deleting)
  unfolding template_reference is_valid_chart_ref has_chart_ref has_chart_template
  reconcile_delete_reference st = rw (reconcile_delete_frame st) (refl, refl, refl, refl)

  -- For an object that is being deleted, only the deletion runs.
  pub reconcile_chart-deleting :
      (st : Run P.env.World) (end : Run P.env.World)
      → st.object.deleting ≡ true
      → st.object.spec.suspend ≡ false
      → reconcile_chart P s st ≡ (end, done)
      → has_chart end.object.status ≡ false
  unfolding reconcile_chart after_delete
  reconcile_chart-deleting st end d h e =
      ground (arith, reconcile_delete-no_chart st {end = end} h, reconcile_delete_reference st)

  -- For a HelmRelease that is not suspended and has either a chart reference or a chart template, a
  -- reconciliation of the chart template that returns no error leaves exactly the chart that is
  -- asked for in the status: none where the object is being deleted or has a chart reference, and
  -- the one of the template otherwise. The parts of the template's reference have no slash.
  pub reconcile_chart-status :
      (st : Run P.env.World) (end : Run P.env.World)
      → is_valid_chart_ref st.object ≡ true
      → st.object.spec.suspend ≡ false
      → IsPlain (template_reference st.object)
      → reconcile_chart P s st ≡ (end, done)
      → status_reference end.object.status
        ≡ (if st.object.deleting then none else template_reference st.object)
  unfolding reconcile_chart after_delete
  reconcile_chart-status st end valid h plain e =
      let frame = reconcile_delete_reference st in
      let deleted = (reconcile_delete P s st).0 in
      ground (
        arith,
        reconcile_delete-no_chart st {end = end} h,
        no_chart-no_reference end.object.status,
        reconcile_present-status st {end = end} valid h plain,
        reconcile_present-status deleted {end = end},
      )
