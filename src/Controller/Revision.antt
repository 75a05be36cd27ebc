-- ===== src/Controller/Revision.antt =====
-- internal/controller/helmrelease_controller.go: the digest of a source's revision, which becomes part
-- of the chart's version.
pub mod Digest
use Prim.Native.String
use helm_controller.Base.{
  String, Bool, true, false, not, ◌&&◌, ◌||◌, List, [], ◌∷◌, Option, none, some, if◌then◌else◌,
}
use helm_controller.Errors
use helm_controller.Errors.{Error}
use helm_controller.Helm.{ChartMetadata}
use helm_controller.Text.{has, split, replace_all, shorter, first_bytes}
use helm_controller.External.Cluster.{Result, ok, err}
use helm_controller.External.Platform.{
  Platform, Settings, Source, SourceKind, Artifact, helm_chart, oci_repository, external_artifact,
}

abbrev invalid_revision : Result String
invalid_revision = err (Errors.external "invalid artifact revision")

unfoldable pub digest_of_pair : List String → Result String
digest_of_pair (algorithm ∷ sha ∷ []) =
    if shorter sha 12 then invalid_revision else ok (first_bytes 12 sha)
digest_of_pair _ = invalid_revision

-- extractDigestSubString: the first bytes of a digest in the format `<algorithm>:<digest>`.
unfoldable pub extract_digest_sub_string : String → Result String
unfolding digest_of_pair
extract_digest_sub_string revision = digest_of_pair (split ":" revision)

second_of_pair : List String → String
second_of_pair (version ∷ digest ∷ []) = digest
second_of_pair _ = ""

-- extractDigest.
unfoldable pub extract_digest : String → String
unfolding second_of_pair
extract_digest revision = if has "@" revision then second_of_pair (split "@" revision) else revision

revision_of : Option Artifact → String
revision_of none = ""
revision_of (some a) = a.revision

-- isSourceWithRevisionDigest.
unfoldable pub is_source_with_revision_digest : SourceKind → Source → Bool
unfolding revision_of
is_source_with_revision_digest oci_repository src = true
is_source_with_revision_digest external_artifact src = has ":" (revision_of src.artifact)
is_source_with_revision_digest helm_chart src = false

first_or_empty : List String → String
first_or_empty [] = ""
first_or_empty (part ∷ parts) = part

-- The part of a tag that may be a version; `+` is written `_` in OCI tags.
unfoldable pub semver_candidate : String → String
unfolding first_or_empty
semver_candidate tag =
    if has "@" tag then replace_all (first_or_empty (split "@" tag)) "_" "+" else tag

module _ (P : Platform) (s : Settings) where
  -- parseSemverFromTag.
  unfoldable pub parse_semver_from_tag : String → Option P.Version
  unfolding semver_candidate
  parse_semver_from_tag tag = P.new_version (semver_candidate tag)

  -- The version with the digest as its metadata, unless digests are not tracked, and the revision's
  -- digest.
  unfoldable pub with_digest :
      ChartMetadata → P.Version → String → Result String → Result (ChartMetadata × String)
  with_digest chart version digest (err e) = err e
  with_digest chart version digest (ok sha) = elim (P.set_metadata version sha) [
    | err e ↦ err e
    | ok mutated ↦ ok (
      if not s.disable_chart_digest_tracking
          then record chart { version = P.version_string mutated }
          else chart,
      digest,
    )
  ]

  unfoldable pub with_tag :
      ChartMetadata → P.Version → P.Version → List String → Result (ChartMetadata × String)
  with_tag chart version tag (tag_text ∷ digest ∷ []) =
      if not (P.equal tag version)
      then err (Errors.external "artifact revision does not match chart version")
      else with_digest chart version digest (extract_digest_sub_string digest)
  with_tag chart version tag _ =
      err (Errors.external "artifact revision does not match chart version")

  -- mutateChartWithSourceRevision, for the revision of a source that has a digest.
  unfoldable pub mutate_version :
      ChartMetadata → P.Version → String → Result (ChartMetadata × String)
  mutate_version chart version revision = elim (parse_semver_from_tag revision) [
    | some tag ↦ with_tag chart version tag (split "@" revision)
    | none ↦ with_digest chart version revision (extract_digest_sub_string revision)
  ]

  -- The artifact is not nil where the source is ready.
  unfoldable pub mutate_chart_with_source_revision :
      ChartMetadata → Source → Result (ChartMetadata × String)
  unfolding revision_of
  mutate_chart_with_source_revision chart src =
      if not (is_source_with_revision_digest src.kind src)
      then ok (chart, "")
      else elim (P.new_version chart.version) [
        | none ↦ err (Errors.external "invalid chart version")
        | some version ↦ mutate_version chart version (revision_of src.artifact)
      ]
