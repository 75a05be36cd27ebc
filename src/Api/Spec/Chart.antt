-- ===== src/Api/Spec/Chart.antt =====
-- api/v2/helmrelease_types.go and reference_types.go: chart templates and the references of a
-- HelmRelease to other objects.
use helm_controller.Base.{ℕ, String, Bool, List, Option, str_eq, if◌then◌else◌}

-- CrossNamespaceObjectReference and CrossNamespaceSourceReference.
pub record ObjectReference : Type 0 where
  pub api_version : String
  pub kind : String
  pub name : String
  pub namespace : String

-- HelmChartTemplateObjectMeta.
pub record TemplateMeta : Type 0 where
  pub labels : List (String × String)
  pub annotations : List (String × String)

-- sourcev1.OCILayerSelector and the verification of a source, by provider and secret.
pub record LayerSelector : Type 0 where
  pub media_type : String
  pub operation : String

pub record SourceVerification : Type 0 where
  pub provider : String
  pub secret_ref : Option String

-- sourcev1.OCIRepositorySpec, which is inlined in the template; the fields that are only copied are
-- represented by the URL and the provider.
pub record OciSpec : Type 0 where
  pub url : String
  pub provider : String
  pub layer_selector : Option LayerSelector
  pub verify : Option SourceVerification
  pub interval : Option ℕ

pub record HelmChartTemplateSpec : Type 0 where
  pub oci : OciSpec
  pub chart : String
  pub version : String
  pub source_ref : Option ObjectReference
  pub reconcile_strategy : String
  pub values_files : List String
  pub ignore_missing_values_files : Bool

pub record HelmChartTemplate : Type 0 where
  pub kind : String
  pub object_meta : Option TemplateMeta
  pub spec : HelmChartTemplateSpec

unfoldable pub get_version : HelmChartTemplateSpec → String
get_version spec = if str_eq spec.version "" then "*" else spec.version

unfoldable pub get_reconcile_strategy : HelmChartTemplateSpec → String
get_reconcile_strategy spec =
    if str_eq spec.reconcile_strategy "" then "ChartVersion" else spec.reconcile_strategy

-- meta.KubeConfigReference of the flux API: a ConfigMap by name, and a Secret by name and key.
pub record KubeConfigReference : Type 0 where
  pub config_map_ref : Option String
  pub secret_ref : Option (String × String)

-- meta.DependencyReference of the flux API.
pub record DependencyReference : Type 0 where
  pub name : String
  pub namespace : String
  pub ready_expr : String
