-- ===== src/Controller/Requests.antt =====
-- internal/controller/helmrelease_indexers.go: the HelmReleases to reconcile when an object that they
-- depend on changes.
pub mod Complete
use helm_controller.Base.{
  ◌<>◌, String, Bool, true, false, not, ◌&&◌, ◌||◌, List, [], ◌∷◌, Option, none, some, map, str_eq,
  if◌then◌else◌,
}
use helm_controller.Text.{has}
use helm_controller.Api.HelmRelease.{HelmRelease}
use helm_controller.External.Cluster.{Result, ok, err}
use helm_controller.External.Platform.{
  Platform, Source, SourceKind, Artifact, helm_chart, oci_repository, external_artifact,
}
use helm_controller.Controller.Revision.{extract_digest}

-- The namespace and name of an object, of which a request is made.
abbrev pub request_of : HelmRelease → String × String
request_of obj = (obj.namespace, obj.name)

-- The cached client's `List` by an index, HasRevision of an artifact in the flux API, and of the flux
-- runtime dependency.Sort, which fails on a cycle, and conditions.IsReady of a source.
pub record Index (P : Platform) : Type 0 where
  pub list : P.env.World → String → String → Result (List HelmRelease)
  pub has_revision : Artifact → String → Bool
  pub sort : List HelmRelease → Result (List HelmRelease)
  pub is_ready_source : Source → Bool

abbrev pub filter {ℓ} : {A : Type ℓ} → (A → Bool) → List A → List A
filter p [] = []
filter p (x ∷ xs) = let rest = filter p xs in if p x then x ∷ rest else rest

abbrev pub source_index : String
source_index = ".metadata.source"

module _ (P : Platform) (I : Index P) where
  unfoldable pub is_ready_or_reconciling : HelmRelease → Bool
  is_ready_or_reconciling obj =
      P.env.conditions.is_ready obj.status.conditions
      || P.env.conditions.is_reconciling obj.status.conditions

  unfoldable pub sorted_requests : List HelmRelease → Result (List (String × String))
  sorted_requests objs = elim (I.sort objs) [
    | err e ↦ err e
    | ok sorted ↦ ok (map request_of sorted)
  ]

  -- The loops over the listed objects, by the artifact of the changed source.
  unfoldable pub must_request : SourceKind → Artifact → HelmRelease → Bool
  must_request helm_chart artifact obj =
      not
        (is_ready_or_reconciling obj && I.has_revision artifact obj.status.last_attempted_revision)
  must_request oci_repository artifact obj =
      not (str_eq (extract_digest artifact.revision) "")
      && not (
          is_ready_or_reconciling obj
          && str_eq (extract_digest artifact.revision) obj.status.last_attempted_revision_digest)
  must_request external_artifact artifact obj =
      if has ":" artifact.revision
      then not (
          is_ready_or_reconciling obj
          && str_eq (extract_digest artifact.revision) obj.status.last_attempted_revision_digest)
      else not (
          is_ready_or_reconciling obj
          && str_eq artifact.revision obj.status.last_attempted_revision)

  abbrev pub kind_text : SourceKind → String
  kind_text helm_chart = "HelmChart"
  kind_text oci_repository = "OCIRepository"
  kind_text external_artifact = "ExternalArtifact"

  -- The value of the index for a source.
  abbrev pub source_key : Source → String
  source_key src = kind_text src.kind <> ("/" <> (src.namespace <> ("/" <> src.name)))

  -- An error is logged, and gives no requests.
  abbrev or_nothing : Result (List (String × String)) → List (String × String)
  or_nothing (err e) = []
  or_nothing (ok requests) = requests

  unfoldable pub requests_of :
      SourceKind → Artifact → Result (List HelmRelease) → List (String × String)
  requests_of kind artifact (err e) = []
  requests_of kind artifact (ok objs) =
      or_nothing (sorted_requests (filter (must_request kind artifact) objs))

  -- requestsForHelmChartChange, requestsForOCIRepositoryChange and requestsForExternalArtifactChange,
  -- by the kind of the source.
  unfoldable pub requests_for_change : P.env.World → Source → List (String × String)
  requests_for_change w src = elim (src.artifact) [
    | none ↦ []
    | some artifact ↦ requests_of src.kind artifact (I.list w source_index (source_key src))
  ]

  -- requestsForConfigDependency.
  unfoldable pub requests_for_config :
      P.env.World → String → String × String → List (String × String)
  requests_for_config w index (namespace, name) =
      elim (I.list w index (namespace <> ("/" <> name))) [
        | err e ↦ []
        | ok objs ↦ map request_of objs
      ]
