-- ===== src/Controller/Revision/Digest.antt =====
-- Which digests are taken out of a revision, and what they do to the version of a chart.
use helm_controller.Base.{
  String, ◌≡◌, ◌⊎◌, inl, inr, refl, ◌<>◌, true, false, not, List, [], ◌∷◌, none, some, arith,
  Option-cases, if◌then◌else◌,
}
use helm_controller.Helm.{ChartMetadata}
use helm_controller.Text.{has, split, shorter, first_bytes}
use helm_controller.Text.Laws.{split-lacks, split-append, split-two}
use helm_controller.External.Cluster.{Result, ok, err, Result-cases}
use helm_controller.External.Platform.{Platform, Settings}
use helm_controller.Controller.Revision.{
  digest_of_pair, extract_digest_sub_string, parse_semver_from_tag, with_digest, with_tag,
  mutate_version,
}

-- A digest has an algorithm and at least twelve bytes, of which the first twelve are taken.
abbrev pub IsDigest : String → String → Type 0
IsDigest revision sha =
    (algorithm : String) × (digest : String) × (revision ≡ algorithm <> String.◌∷◌ ":" digest)
    × (has ":" algorithm ≡ false)
    × (has ":" digest ≡ false)
    × (shorter digest 12 ≡ false)
    × (sha ≡ first_bytes 12 digest)

digest_of_pair_lem :
    (parts : List String) (sha : String)
    → digest_of_pair parts ≡ ok sha
    → (algorithm : String) × (digest : String) × (parts ≡ algorithm ∷ digest ∷ [])
      × (shorter digest 12 ≡ false)
      × (sha ≡ first_bytes 12 digest)
unfolding digest_of_pair
digest_of_pair_lem [] sha h = absurd (ground arith)
digest_of_pair_lem (a ∷ []) sha h = absurd (ground arith)
digest_of_pair_lem (a ∷ d ∷ []) sha h = (a, d, refl, ground arith, ground arith)
digest_of_pair_lem (a ∷ d ∷ x ∷ parts) sha h = absurd (ground arith)

pub extract-IsDigest :
    (revision sha : String) → extract_digest_sub_string revision ≡ ok sha → IsDigest revision sha
unfolding extract_digest_sub_string
extract-IsDigest revision sha h =
    let (algorithm, digest, e, long, f) = digest_of_pair_lem (split ":" revision) sha h in
    let (joined, a, d) = split-two ":" revision algorithm digest e in
    (algorithm, digest, joined, a, d, long, f)

-- The other way round.
pub IsDigest-extract :
    (revision sha : String) → IsDigest revision sha → extract_digest_sub_string revision ≡ ok sha
unfolding extract_digest_sub_string digest_of_pair
IsDigest-extract revision sha (algorithm, digest, e, a, d, long, f) =
    rw (e, split-append ":" algorithm digest a, split-lacks ":" digest d) (ground arith)

module _ (P : Platform) (s : Settings) where
  -- The chart with a mutated version, where digests are tracked.
  abbrev pub tracked : ChartMetadata → P.Version → ChartMetadata
  tracked chart mutated =
      if not s.disable_chart_digest_tracking
      then record chart { version = P.version_string mutated }
      else chart

  -- Where the digest stands in a revision: it is the revision, or it follows a version.
  abbrev pub IsDigestOf : P.Version → String → String → Type 0
  IsDigestOf version revision digest =
      (parse_semver_from_tag P s revision ≡ none) × (digest ≡ revision)
      ⊎ ((tag : String) × (parsed : P.Version) × (parse_semver_from_tag P s revision ≡ some parsed)
          × (P.equal parsed version ≡ true)
          × (revision ≡ tag <> String.◌∷◌ "@" digest))

  with_digest_lem :
      (chart : ChartMetadata) (version : P.Version) (digest : String) (res : Result String)
      (mutated : ChartMetadata) (d : String)
      → with_digest P s chart version digest res ≡ ok (mutated, d)
      → (sha : String) × (v : P.Version) × (res ≡ ok sha)
        × (P.set_metadata version sha ≡ ok v)
        × (mutated ≡ tracked chart v)
        × (d ≡ digest)
  unfolding with_digest
  with_digest_lem chart version digest (err e) mutated d h = absurd (ground arith)
  with_digest_lem chart version digest (ok sha) mutated d h =
      elim (Result-cases (P.set_metadata version sha)) [
        | inl (e, f) ↦ absurd (ground arith)
        | inr (v, f) ↦ (sha, v, refl, f, ground arith, ground arith)
      ]

  with_tag_lem :
      (chart : ChartMetadata) (version tag : P.Version) (parts : List String)
      (mutated : ChartMetadata) (d : String)
      → with_tag P s chart version tag parts ≡ ok (mutated, d)
      → (text digest : String) × (parts ≡ text ∷ digest ∷ [])
        × (P.equal tag version ≡ true)
        × (with_digest P s chart version digest (extract_digest_sub_string digest)
            ≡ ok (mutated, d))
  unfolding with_tag
  with_tag_lem chart version tag [] mutated d h = absurd (ground arith)
  with_tag_lem chart version tag (t ∷ []) mutated d h = absurd (ground arith)
  with_tag_lem chart version tag (t ∷ digest ∷ []) mutated d h =
      (t, digest, refl, ground arith, ground arith)
  with_tag_lem chart version tag (t ∷ digest ∷ x ∷ parts) mutated d h = absurd (ground arith)

  -- If a chart's version is mutated by the revision of its source, the recorded digest has an
  -- algorithm and at least twelve bytes, whose first twelve become the metadata of the version,
  -- where digests are tracked. The digest is the whole revision, if that gives no version, and else
  -- what follows a tag that is the version of the chart.
  pub mutate_version_lem :
      (chart : ChartMetadata) (version : P.Version) (revision : String) (mutated : ChartMetadata)
      (digest : String)
      → mutate_version P s chart version revision ≡ ok (mutated, digest)
      → (sha : String) × (v : P.Version) × IsDigest digest sha
        × (P.set_metadata version sha ≡ ok v)
        × (mutated ≡ tracked chart v)
        × IsDigestOf version revision digest
  unfolding mutate_version
  mutate_version_lem chart version revision mutated digest h =
      elim (Option-cases (parse_semver_from_tag P s revision)) [
        | inl e ↦
            let (sha, v, x, set, m, d) =
              with_digest_lem chart version revision (extract_digest_sub_string revision) mutated
                digest (ground arith) in
            (sha, v, rw d (extract-IsDigest revision sha x), set, m, inl (e, d))
        | inr (parsed, e) ↦
            let (tag, found, parts, same, k) =
              with_tag_lem chart version parsed (split "@" revision) mutated digest
                (ground arith) in
            let (sha, v, x, set, m, d) =
              with_digest_lem chart version found (extract_digest_sub_string found) mutated digest
                k in
            (
              sha,
              v,
              rw d (extract-IsDigest found sha x),
              set,
              m,
              inr (tag, parsed, e, same, rw d ((split-two "@" revision tag found parts).0)),
            )
      ]
