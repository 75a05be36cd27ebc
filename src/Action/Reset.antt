-- ===== src/Action/Reset.antt =====
-- internal/action/reset.go: whether the failure counters of a HelmRelease must be reset.
pub mod Reasons
use helm_controller.Base.{
  String, ◌<>◌, Bool, false, not, Option, none, some, ◌==◌, str_eq, if◌then◌else◌,
}
use helm_controller.Helm.{ChartMetadata, Value}
use helm_controller.Api.HelmRelease.{HelmRelease}
use helm_controller.External.Cluster.{Env}

pub data ResetReason : Type 0 where
  different_generation different_revision different_values reset_requested : ResetReason

abbrev pub reset_request_annotation : String
reset_request_annotation = "reconcile.fluxcd.io/resetAt"

module _ (E : Env) where
  -- ShouldHandleResetRequest of api/v2/annotations.go, with the status that it updates.
  unfoldable pub should_handle_reset_request : HelmRelease → Bool × HelmRelease
  should_handle_reset_request obj =
      let (handle, token) =
        E.handle_annotation obj.annotations reset_request_annotation
          obj.status.last_handled_reset_at in
      (handle, record obj { status = record obj.status { last_handled_reset_at = token } })

  -- The digest of the values of the last attempt, `none` where none is recorded.
  unfoldable pub attempted_digest : HelmRelease → Option String
  attempted_digest obj =
      if not (str_eq obj.status.last_attempted_config_digest "")
      then some obj.status.last_attempted_config_digest
      else if not (str_eq obj.status.last_attempted_values_checksum "")
      then some ("sha1:" <> obj.status.last_attempted_values_checksum)
      else none

  unfoldable pub values_differ : HelmRelease → Value → Bool
  values_differ obj values = elim (attempted_digest obj) [
    | none ↦ false
    | some d ↦ not (E.digests.verify_values d values)
  ]

  unfoldable pub reset_reason : HelmRelease → ChartMetadata → Value → Bool → Option ResetReason
  reset_reason obj chart values requested =
      if not (obj.status.last_attempted_generation == obj.generation)
      then some different_generation
      else if not (str_eq obj.status.last_attempted_revision chart.version)
      then some different_revision
      else if values_differ obj values
      then some different_values
      else if requested
      then some reset_requested
      else none

  -- The reason, or `none` for "", false; with the object that the reset request has updated.
  unfoldable pub must_reset_failures :
      HelmRelease → ChartMetadata → Value → Option ResetReason × HelmRelease
  must_reset_failures obj chart values =
      let (requested, obj') = should_handle_reset_request obj in
      (reset_reason obj' chart values requested, obj')
