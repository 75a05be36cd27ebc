-- ===== src/Api/Charts.antt =====
-- api/v2/helmrelease_types.go and reference_types.go: the reference of a HelmRelease to its chart,
-- from the specification, from the chart template and from the status, and what the template gives.
pub mod RoundTrip
use helm_controller.Base.{
  ℕ, String, ◌<>◌, Bool, true, false, not, ◌&&◌, ◌||◌, List, [], ◌∷◌, Option, none, some, deref,
  str_eq, is_some, if◌then◌else◌,
}
use helm_controller.Text.{split, trim_prefix}
use helm_controller.Api.Spec.{HelmReleaseSpec, ObjectReference, HelmChartTemplate}
use helm_controller.Api.HelmRelease.{HelmRelease, HelmReleaseStatus}

pub record HelmChartReference : Type 0 where
  pub kind : String
  pub name : String
  pub namespace : String

-- Kinds of the source-controller API.
abbrev pub helm_chart_kind : String
helm_chart_kind = "HelmChart"

abbrev pub oci_repository_kind : String
oci_repository_kind = "OCIRepository"

abbrev pub external_artifact_kind : String
external_artifact_kind = "ExternalArtifact"

-- `String`; a nil pointer is `none`.
unfoldable pub reference_string : Option HelmChartReference → String
reference_string none = ""
reference_string (some ref) = ref.kind <> ("/" <> (ref.namespace <> ("/" <> ref.name)))

-- `GetObjectKey`, a namespace and a name.
unfoldable pub object_key : HelmChartReference → String × String
object_key ref = (ref.namespace, ref.name)

unfoldable pub matches : Option HelmChartReference → Option HelmChartReference → Bool
matches none other = false
matches (some ref) none = false
matches (some ref) (some other) =
    str_eq ref.kind other.kind && str_eq ref.name other.name && str_eq ref.namespace other.namespace

abbrev pub or_default : String → String → String
or_default s default = if str_eq s "" then default else s

-- `GetHelmChartReference` of a HelmRelease.
unfoldable pub chart_reference : HelmRelease → Option HelmChartReference
chart_reference obj = elim (obj.spec.chart_ref) [
  | none ↦ none
  | some ref ↦ some (record {
    kind = or_default ref.kind helm_chart_kind;
    name = ref.name;
    namespace = or_default ref.namespace obj.namespace;
  })
]

-- The namespace that the template names for its source, if it does.
abbrev pub source_namespace : Option ObjectReference → String
source_namespace none = ""
source_namespace (some ref) = ref.namespace

-- `GetHelmChartTemplateReference`.
unfoldable pub template_reference : HelmRelease → Option HelmChartReference
template_reference obj = elim (obj.spec.chart) [
  | none ↦ none
  | some template ↦
      let kind = or_default template.kind helm_chart_kind in
      some (record {
        kind = kind;
        name = obj.namespace <> "-" <> obj.name;
        namespace =
            if str_eq kind helm_chart_kind
              && not (str_eq (source_namespace template.spec.source_ref) "")
            then source_namespace template.spec.source_ref
            else obj.namespace;
      })
]

unfoldable pub has_chart : HelmReleaseStatus → Bool
has_chart st = not (str_eq st.helm_chart "")

unfoldable pub set_chart : Option HelmChartReference → HelmReleaseStatus → HelmReleaseStatus
unfolding reference_string
set_chart ref st = record st {
  helm_chart = trim_prefix (reference_string ref) (helm_chart_kind <> "/");
}

unfoldable pub parse_reference : List String → Option HelmChartReference
parse_reference (namespace ∷ name ∷ []) =
    some (record { kind = helm_chart_kind; name = name; namespace = namespace })
parse_reference (kind ∷ namespace ∷ name ∷ []) =
    some (record { kind = kind; name = name; namespace = namespace })
parse_reference _ = none

-- `GetHelmChartReference` of the status.
unfoldable pub status_reference : HelmReleaseStatus → Option HelmChartReference
unfolding parse_reference
status_reference st =
    if str_eq st.helm_chart "" then none else parse_reference (split "/" st.helm_chart)

unfoldable pub has_chart_ref : HelmRelease → Bool
has_chart_ref obj = is_some obj.spec.chart_ref

unfoldable pub has_chart_template : HelmRelease → Bool
has_chart_template obj = is_some obj.spec.chart

unfoldable pub get_template_interval : HelmRelease → ℕ
get_template_interval obj = elim (obj.spec.chart) [
  | none ↦ obj.spec.interval
  | some template ↦ deref template.spec.oci.interval obj.spec.interval
]

unfoldable pub get_requeue_after : HelmRelease → ℕ
get_requeue_after obj = obj.spec.interval

-- isValidChartRef of the controller.
unfoldable pub is_valid_chart_ref : HelmRelease → Bool
unfolding has_chart_ref has_chart_template
is_valid_chart_ref obj =
    (has_chart_ref obj && not (has_chart_template obj))
    || (not (has_chart_ref obj) && has_chart_template obj)
