-- ===== src/Reconcile/ChartTemplate.antt =====
-- internal/reconcile/helmchart_template.go
pub mod Cleanup
use helm_controller.Base.{
  String, Bool, true, false, not, ◌&&◌, ◌||◌, List, [], ◌∷◌, Option, none, some, deref, str_eq,
  if◌then◌else◌,
}
use helm_controller.Errors
use helm_controller.Errors.{Error, is}
use helm_controller.Api.Conditions.{
  Reason, chart_sync_error, chart_changed, chart_deleted, printf, error, text, error_fmt,
  chart_changed_fmt, chart_deleted_fmt,
}
use helm_controller.Api.Spec.{
  HelmChartTemplate, ObjectReference, OciSpec, LayerSelector, get_version, get_reconcile_strategy,
}
use helm_controller.Api.HelmRelease.{HelmRelease, HelmReleaseStatus}
use helm_controller.Api.Charts.{
  HelmChartReference, helm_chart_kind, oci_repository_kind, reference_string, object_key, matches,
  template_reference, has_chart, set_chart, status_reference, has_chart_ref, has_chart_template,
  get_template_interval,
}
use helm_controller.External.Platform.{
  Platform, Settings, ChartObject, helm_chart_object, oci_repository_object, no_object,
  HelmChartObject, OciRepositoryObject, ApplyAction, created, configured, unchanged, other_action,
}
use helm_controller.External.Cluster.{Result, ok, err}
use helm_controller.Reconcile.Request.{Run, update_status, emit, set_world}
use helm_controller.Reconcile.Actions.{Exit, done, failed, panicked}
use helm_controller.Reconcile.Access.{allows_access_to}

unfoldable pub must_clean_deployed_chart : HelmRelease → Bool
must_clean_deployed_chart obj =
    has_chart_ref obj && not (has_chart_template obj) && has_chart obj.status

abbrev source_of : Option ObjectReference → Option (String × String)
source_of none = none
source_of (some ref) = some (ref.name, ref.kind)

unfoldable pub build_helm_chart :
    HelmRelease → HelmChartTemplate → HelmChartReference → HelmChartObject
build_helm_chart obj template ref = record {
  name = ref.name;
  namespace = ref.namespace;
  chart = template.spec.chart;
  version = get_version template.spec;
  interval = get_template_interval obj;
  reconcile_strategy = get_reconcile_strategy template.spec;
  values_files = template.spec.values_files;
  ignore_missing_values_files = template.spec.ignore_missing_values_files;
  source_ref = source_of template.spec.source_ref;
  verify = template.spec.oci.verify;
  object_meta = template.object_meta;
}

-- registry.ChartLayerMediaType of Helm and sourcev1.OCILayerCopy.
abbrev pub chart_layer : LayerSelector
chart_layer = record {
  media_type = "application/vnd.cncf.helm.chart.content.v1.tar+gzip";
  operation = "copy";
}

unfoldable pub build_oci_repository :
    HelmRelease → HelmChartTemplate → HelmChartReference → OciRepositoryObject
build_oci_repository obj template ref = record {
  name = ref.name;
  namespace = ref.namespace;
  spec = record template.spec.oci {
    interval = some (get_template_interval obj);
    layer_selector = some (deref template.spec.oci.layer_selector chart_layer);
  };
  object_meta = template.object_meta;
}

-- The object that is built for a reference, by its kind.
unfoldable pub build_chart : HelmRelease → HelmChartTemplate → HelmChartReference → ChartObject
build_chart obj template ref =
    if str_eq ref.kind helm_chart_kind
    then helm_chart_object (build_helm_chart obj template ref)
    else if str_eq ref.kind oci_repository_kind
    then oci_repository_object (build_oci_repository obj template ref)
    else no_object

module _ (P : Platform) (s : Settings) where
  -- The end of `reconcileDelete`: the chart reference in the status is emptied.
  unfoldable pub forget_chart : Run P.env.World → Run P.env.World × Exit
  forget_chart st = (update_status (set_chart none) st, done)

  unfoldable pub delete_found : HelmChartReference → Run P.env.World → Run P.env.World × Exit
  delete_found ref st =
      let (w, e) = P.delete_chart st.world (str_eq ref.kind oci_repository_kind) (object_key ref) in
      let deleted = forget_chart (
        emit false chart_deleted
          (printf chart_deleted_fmt (text (reference_string (some ref)) ∷ [])) none
          (set_world w st)) in
      elim e [
        | none ↦ deleted
        | some x ↦ if is x Errors.not_found then deleted else (set_world w st, failed x)
      ]

  unfoldable pub fetch_and_delete : HelmChartReference → Run P.env.World → Run P.env.World × Exit
  fetch_and_delete ref st =
      elim (P.get_chart_error st.world (str_eq ref.kind oci_repository_kind) (object_key ref)) [
        | none ↦ delete_found ref st
        | some e ↦ if is e Errors.not_found then forget_chart st else (st, failed e)
      ]

  -- `reconcileDelete`. A status that does not parse gives a nil reference, which is dereferenced.
  unfoldable pub delete_referenced :
      Option HelmChartReference → Run P.env.World → Run P.env.World × Exit
  delete_referenced none st = (st, panicked)
  delete_referenced (some ref) st = elim (allows_access_to s st.object ref) [
    | some e ↦ (st, failed e)
    | none ↦ fetch_and_delete ref st
  ]

  unfoldable pub reconcile_delete : Run P.env.World → Run P.env.World × Exit
  reconcile_delete st =
      if not st.object.spec.suspend && has_chart st.object.status
      then delete_referenced (status_reference st.object.status) st
      else (st, done)

  -- The result of the server-side apply.
  unfoldable pub applied :
      HelmChartReference → Result ApplyAction → Run P.env.World → Run P.env.World × Exit
  applied ref (err e) st =
      (emit false chart_sync_error (printf error_fmt (error e ∷ [])) none st, failed e)
  applied ref (ok created) st = (
    update_status (set_chart (some ref))
        (emit false chart_changed (printf chart_changed_fmt []) none st),
    done,
  )
  applied ref (ok configured) st = (
    update_status (set_chart (some ref))
        (emit false chart_changed (printf chart_changed_fmt []) none st),
    done,
  )
  applied ref (ok unchanged) st = (update_status (set_chart (some ref)) st, done)
  applied ref (ok other_action) st = (st, failed (Errors.external "unexpected action"))

  unfoldable pub apply_built :
      HelmChartReference → ChartObject → Run P.env.World → Run P.env.World × Exit
  apply_built ref object st = elim (P.convert_error object) [
    | some e ↦ (st, failed e)
    | none ↦ let (w, res) = P.apply_chart st.world object in applied ref res (set_world w st)
  ]

  -- A HelmRelease without a reference has no template either: its nil pointers are dereferenced.
  unfoldable pub apply_template :
      Option HelmChartTemplate
      → Option HelmChartReference
      → Run P.env.World
      → Run P.env.World × Exit
  apply_template (some template) (some ref) st = elim (allows_access_to s st.object ref) [
    | some e ↦ (st, failed e)
    | none ↦ apply_built ref (build_chart st.object template ref) st
  ]
  apply_template _ _ st = (st, panicked)

  -- What follows the deletion of a chart that diverges or belongs to a deleted HelmRelease.
  unfoldable pub reconcile_present : Run P.env.World → Run P.env.World × Exit
  reconcile_present st =
      if must_clean_deployed_chart st.object
      then reconcile_delete st
      else if has_chart_ref st.object
      then (st, done)
      else apply_template st.object.spec.chart (template_reference st.object) st

  -- The chart in the status is not the one that the template asks for.
  unfoldable pub diverges : HelmRelease → Bool
  diverges obj =
      has_chart obj.status && not (matches (status_reference obj.status) (template_reference obj))

  unfoldable pub after_delete : Exit → Run P.env.World → Run P.env.World × Exit
  after_delete done st = if st.object.deleting then (st, done) else reconcile_present st
  after_delete other st = (st, other)

  -- `Reconcile`.
  unfoldable pub reconcile_chart : Run P.env.World → Run P.env.World × Exit
  reconcile_chart st =
      let (deleted, exit) = reconcile_delete st in
      if diverges st.object || st.object.deleting
      then after_delete exit deleted
      else reconcile_present st
