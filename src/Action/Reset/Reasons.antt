-- ===== src/Action/Reset/Reasons.antt =====
-- When the failure counters are reset (internal/action/reset.go).
use helm_controller.Base.{◌≡◌, ◌≢◌, ◌↔◌, ◌⊎◌, ◌<>◌, refl, Bool, true, false, none, eq_iff, arith}
use helm_controller.Helm.{ChartMetadata, Value}
use helm_controller.Api.HelmRelease.{HelmRelease}
use helm_controller.External.Cluster.{Env}
use helm_controller.Action.Reset.{
  reset_reason, must_reset_failures, values_differ, attempted_digest, should_handle_reset_request,
  reset_request_annotation,
}

module _ (E : Env) where
  -- The values have the digest that was recorded of the last attempt, or the checksum where there is
  -- no digest, or neither was recorded.
  pub HasSameValues : HelmRelease → Value → Type 0
  HasSameValues obj values =
      let recorded = obj.status.last_attempted_config_digest in
      let checksum = obj.status.last_attempted_values_checksum in
      (recorded ≢ "") × (E.digests.verify_values recorded values ≡ true)
      ⊎ (recorded ≡ "")
        × (checksum ≢ "")
        × (E.digests.verify_values ("sha1:" <> checksum) values ≡ true)
      ⊎ (recorded ≡ "") × (checksum ≡ "")

  values_differ_iff :
      (obj : HelmRelease) (values : Value)
      → (values_differ E obj values ≡ false) ↔ HasSameValues obj values
  unfolding values_differ attempted_digest HasSameValues
  values_differ_iff obj values = ground (
    arith,
    eq_iff obj.status.last_attempted_config_digest "",
    eq_iff obj.status.last_attempted_values_checksum "",
  )

  reset_reason-none :
      (obj : HelmRelease) (chart : ChartMetadata) (values : Value) (requested : Bool)
      → (reset_reason E obj chart values requested ≡ none) ↔ (
          (obj.status.last_attempted_generation ≡ obj.generation)
          × (obj.status.last_attempted_revision ≡ chart.version)
          × HasSameValues obj values
          × (requested ≡ false))
  unfolding reset_reason
  reset_reason-none obj chart values requested =
      ground (
        arith,
        eq_iff obj.status.last_attempted_revision chart.version,
        values_differ_iff obj values,
      )

  -- MustResetFailures gives no reason if and only if the generation and the chart version are those of
  -- the last attempt, no reset is requested, and the values agree with the digest that the status
  -- records, or with the checksum if it records no digest, or it records neither. The token of a
  -- request is remembered either way.
  pub must_reset_failures_iff :
      (obj : HelmRelease) (chart : ChartMetadata) (values : Value)
      → let request =
          E.handle_annotation obj.annotations reset_request_annotation
            obj.status.last_handled_reset_at in
        let (reason, obj') = must_reset_failures E obj chart values in
        ((reason ≡ none) ↔ (
          (obj.status.last_attempted_generation ≡ obj.generation)
          × (obj.status.last_attempted_revision ≡ chart.version)
          × HasSameValues obj values
          × (request.0 ≡ false)))
        × (obj'.status.last_handled_reset_at ≡ request.1)
  unfolding must_reset_failures should_handle_reset_request values_differ attempted_digest
      HasSameValues
  must_reset_failures_iff obj chart values = (reset_reason-none _ chart values _, refl)
