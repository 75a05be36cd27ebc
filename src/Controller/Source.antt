-- ===== src/Controller/Source.antt =====
-- internal/controller/helmrelease_controller.go: the source of the chart, and whether it is ready.
pub mod Allowed
use helm_controller.Base.{
  String, Bool, true, false, not, ◌&&◌, List, [], ◌∷◌, Option, none, some, ◌==◌, str_eq,
  if◌then◌else◌,
}
use helm_controller.Errors
use helm_controller.Errors.{Error}
use helm_controller.Api.Conditions.{
  ConditionStatus, condition_true, condition_false, condition_unknown, Message, printf, text,
  not_ready_fmt, error_fmt, error,
}
use helm_controller.Api.HelmRelease.{HelmRelease}
use helm_controller.Api.Charts.{
  HelmChartReference, oci_repository_kind, external_artifact_kind, object_key, chart_reference,
  status_reference,
}
use helm_controller.External.Cluster.{Result, ok, err}
use helm_controller.External.Platform.{
  Platform, Settings, Source, SourceKind, helm_chart, oci_repository, external_artifact,
}
use helm_controller.Reconcile.Access.{allows_access_to}

module _ (P : Platform) (s : Settings) where
  -- What follows the access check is not reached by a nil reference.
  unfoldable pub fetch_allowed :
      P.env.World → HelmRelease → SourceKind → HelmChartReference → Result Source
  fetch_allowed w obj kind ref = elim (allows_access_to s obj ref) [
    | some e ↦ err e
    | none ↦ P.get_source w kind (object_key ref)
  ]

  unfoldable pub get_source_from_oci_ref :
      P.env.World → HelmRelease → HelmChartReference → Result Source
  unfolding fetch_allowed
  get_source_from_oci_ref w obj ref = fetch_allowed w obj oci_repository ref

  unfoldable pub get_source_from_external_artifact :
      P.env.World → HelmRelease → HelmChartReference → Result Source
  get_source_from_external_artifact w obj ref = elim (allows_access_to s obj ref) [
    | some e ↦ err e
    | none ↦
        if not s.allow_external_artifact
        then err Errors.access_denied
        else P.get_source w external_artifact (object_key ref)
  ]

  unfoldable pub get_source_by :
      P.env.World → HelmRelease → Option HelmChartReference → Result Source
  get_source_by w obj none = err (Errors.external "no Helm chart reference found")
  get_source_by w obj (some ref) =
      fetch_allowed w obj
        (if str_eq ref.kind oci_repository_kind then oci_repository else helm_chart) ref

  -- The kind that a chart reference of the specification is written with.
  unfoldable pub get_source_of_ref :
      P.env.World → HelmRelease → String → HelmChartReference → Result Source
  get_source_of_ref w obj kind ref =
      if str_eq kind oci_repository_kind
      then get_source_from_oci_ref w obj ref
      else if str_eq kind external_artifact_kind
      then get_source_from_external_artifact w obj ref
      else get_source_by w obj (some ref)

  -- getSource. `chart_reference` is not nil for an object with a chart reference.
  unfoldable pub get_source : P.env.World → HelmRelease → Result Source
  get_source w obj = elim (obj.spec.chart_ref) [
    | none ↦ get_source_by w obj (status_reference obj.status)
    | some written ↦ elim (chart_reference obj) [
      | none ↦ err (Errors.external "no Helm chart reference found")
      | some ref ↦ get_source_of_ref w obj written.kind ref
    ]
  ]

-- conditions.IsFalse, IsStalled and GetMessage, on a condition that was read.
abbrev pub is_false : Option (ConditionStatus × String) → Bool
is_false none = false
is_false (some (condition_true, m)) = false
is_false (some (condition_false, m)) = true
is_false (some (condition_unknown, m)) = false

abbrev pub is_true : Option (ConditionStatus × String) → Bool
is_true none = false
is_true (some (condition_true, m)) = true
is_true (some (condition_false, m)) = false
is_true (some (condition_unknown, m)) = false

abbrev pub message_of : Option (ConditionStatus × String) → String
message_of none = ""
message_of (some (status, m)) = m

not_ready_because : Source → String → Option Message
not_ready_because src why =
    some (
      printf not_ready_fmt
        (text src.kind_name ∷ text src.namespace ∷ text src.name ∷ text why ∷ []))

-- isReady: `none` where the source is ready, and else the message.
unfoldable pub is_ready : Source → Option Message
unfolding not_ready_because
is_ready src = elim (src.observed_generation) [
  | err e ↦ some (printf error_fmt (error e ∷ []))
  | ok observed ↦
      if not (src.generation == observed)
      then not_ready_because src (
          if is_false src.ready
          then message_of src.ready
          else "latest generation of object has not been reconciled")
      else if is_true src.stalled
      then not_ready_because src (message_of src.stalled)
      else elim (src.artifact) [
        | none ↦ not_ready_because src "does not have an artifact"
        | some a ↦ none
      ]
]

unfoldable pub is_artifact_ready : Source → Option Message
unfolding not_ready_because
is_artifact_ready src = elim (src.artifact) [
  | none ↦ not_ready_because src "does not have an artifact"
  | some a ↦ none
]

-- isSourceReady, by the type of the source.
unfoldable pub is_source_ready : SourceKind → Source → Option Message
is_source_ready external_artifact src = is_artifact_ready src
is_source_ready helm_chart src = is_ready src
is_source_ready oci_repository src = is_ready src
