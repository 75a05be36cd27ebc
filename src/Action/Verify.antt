-- ===== src/Action/Verify.antt =====
-- internal/action/verify.go: what a release in storage is compared with before it is acted upon.
pub mod Trust
use helm_controller.Base.{
  ℕ, String, Bool, true, false, not, ◌&&◌, ◌||◌, List, [], ◌∷◌, Option, none, some, str_eq,
  if◌then◌else◌,
}
use helm_controller.Errors
use helm_controller.Errors.{Error, is}
use helm_controller.Helm.{Release, ChartMetadata, Value}
use helm_controller.Api.Snapshots.{Snapshot, latest, current_snapshot_api_version}
use helm_controller.Api.HelmRelease.{
  HelmRelease, get_storage_namespace, get_release_namespace, get_release_name,
}
use helm_controller.External.Digests.{Digests}
use helm_controller.External.Cluster.{Env, Result, ok, err, Releaser, typed, other_api}
use helm_controller.Release.Observation.{Observation, observe_release}
use helm_controller.Release.Name.{shorten_name}

pub data Target : Type 0 where
  storage_namespace release_namespace release_name chart_name : Target

unfoldable pub target_changed_from :
    (String → String) → HelmRelease → String → Option Snapshot → Option Target
target_changed_from hash obj chart none = none
target_changed_from hash obj chart (some cur) =
    if str_eq obj.status.storage_namespace ""
    then none
    else if not (str_eq (get_storage_namespace obj) obj.status.storage_namespace)
    then some storage_namespace
    else if not (str_eq (get_release_namespace obj) cur.namespace)
    then some release_namespace
    else if not (str_eq (shorten_name hash (get_release_name obj)) cur.name)
    then some release_name
    else if not (str_eq chart cur.chart_name)
    then some chart_name
    else none

-- The reason, or `none` for "", false.
unfoldable pub release_target_changed : (String → String) → HelmRelease → String → Option Target
release_target_changed hash obj chart =
    target_changed_from hash obj chart (latest obj.status.history)

unfoldable pub verify_release_object : Digests → Snapshot → Release → Option Error
verify_release_object d snapshot rls =
    if not (str_eq snapshot.api_version current_snapshot_api_version)
    then none
    else if not (d.parses snapshot.digest)
    then some Errors.release_digest
    else let obs = record (observe_release rls) { oci_digest = snapshot.oci_digest } in
      elim (d.encode_error obs) [
        | some e ↦ some e
        | none ↦
            if not (d.verified snapshot.digest obs) then some Errors.release_not_observed else none
      ]

-- VerifyRelease on a release that is not `nil`.
unfoldable pub verify_release :
    Digests → Release → Option Snapshot → Option ChartMetadata → Value → Option Error
verify_release d rls snapshot chrt vals =
    let config_ok : Bool = elim snapshot [
      | none ↦ false
      | some s ↦ d.verify_values s.config_digest vals
    ] in
    let changed : Bool = elim chrt [
      | none ↦ false
      | some c ↦ not (str_eq rls.chart.name c.name) || not (str_eq rls.chart.version c.version)
    ] in
    if changed
    then some Errors.chart_changed
    else if not config_ok
    then some Errors.config_digest
    else none

unfoldable pub typed_release : Result Releaser → Error → Result Release
typed_release (ok (typed rls)) missing = ok rls
typed_release (ok other_api) missing = err Errors.unsupported_chart_api
typed_release (err e) missing = if is e Errors.driver_release_not_found then err missing else err e

module _ (E : Env) where
  unfoldable pub last_release : E.World → String → Result Release
  last_release w name =
      typed_release (E.last w (shorten_name E.sha256_hex name)) Errors.release_not_found

  unfoldable pub verify_found : Snapshot → Result Release → Result Release
  verify_found snapshot (ok rls) = elim (verify_release_object E.digests snapshot rls) [
    | none ↦ ok rls
    | some e ↦ err e
  ]
  verify_found snapshot (err e) = err e

  unfoldable pub verify_snapshot : E.World → Option Snapshot → Result Release
  verify_snapshot w none = err Errors.release_not_found
  verify_snapshot w (some snapshot) =
      verify_found snapshot
        (typed_release (E.get w snapshot.name snapshot.version) Errors.release_disappeared)
