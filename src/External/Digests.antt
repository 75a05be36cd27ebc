-- ===== src/External/Digests.antt =====
-- github.com/opencontainers/go-digest over the JSON encoding of the standard library, and
-- github.com/fluxcd/pkg/chartutil: checksums of observations, values and metadata.
use helm_controller.Base.{String, ◌≡◌, Bool, true, List, Option, none, some}
use helm_controller.Errors.{Error}
use helm_controller.Helm.{Value}
use helm_controller.Api.Conditions.{ReleaseAction}
use helm_controller.Api.Spec.{CommonMetadata, PostRenderer}
use helm_controller.Release.Observation.{Observation}

pub record Digests : Type 0 where
  -- Digest of the JSON encoding of an observation, by the canonical algorithm.
  pub release_digest : Observation → String
  -- `digest.Parse` succeeds.
  pub parses : String → Bool
  -- `Encode` of an observation into the verifier of a digest: its error, or the verdict.
  pub encode_error : Observation → Option Error
  pub verified : String → Observation → Bool
  pub digest_values : Value → String
  pub verify_values : String → Value → Bool
  -- Algorithm of a digest, `none` where it cannot be parsed.
  pub algorithm : String → Option String
  pub canonical : String
  pub post_renderers_digest : String → List PostRenderer → String
  pub common_metadata_digest : String → CommonMetadata → String

-- The digest of an observation can be parsed and verifies that observation. The action that led to
-- it is not part of its JSON encoding.
pub record DigestsLaws (d : Digests) : Type 0 where
  pub parses_digest : (o : Observation) → d.parses (d.release_digest o) ≡ true
  pub encodes : (o : Observation) → d.encode_error o ≡ none
  pub verified_digest : (o : Observation) → d.verified (d.release_digest o) o ≡ true
  pub digest_ignores_action :
      (o : Observation) (a : ReleaseAction)
      → d.release_digest (record o { action = a }) ≡ d.release_digest o
  pub verify_digest_values : (v : Value) → d.verify_values (d.digest_values v) v ≡ true
  pub algorithm_post_renderers :
      (a : String) (ps : List PostRenderer) → d.algorithm (d.post_renderers_digest a ps) ≡ some a
  pub algorithm_common_metadata :
      (a : String) (m : CommonMetadata) → d.algorithm (d.common_metadata_digest a m) ≡ some a
