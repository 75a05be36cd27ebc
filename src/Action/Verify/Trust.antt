-- ===== src/Action/Verify/Trust.antt =====
-- When a release in storage passes verification (internal/action/verify.go).
use helm_controller.Base.{◌≡◌, String, true, ◌↔◌, none, some, arith, eq_iff}
use helm_controller.Helm.{Release, ChartMetadata, Value}
use helm_controller.Api.Conditions.{ReleaseAction}
use helm_controller.Api.Snapshots.{Snapshot}
use helm_controller.External.Digests.{Digests}
use helm_controller.Release.Observation.{Observation, observe_release}
use helm_controller.Action.Verify.{verify_release}

-- The observation that is recorded of a release: with the digest of its artifact and the action.
abbrev pub recorded : Release → String → ReleaseAction → Observation
recorded rls oci act = record (observe_release rls) { oci_digest = oci; action = act }

-- `VerifyRelease` returns no error if and only if the release has the chart name and version of the
-- desired chart and its snapshot's config digest is that of the desired values.
pub verify_release_iff :
    (d : Digests) (rls : Release) (s : Snapshot) (c : ChartMetadata) (vals : Value)
    → (verify_release d rls (some s) (some c) vals ≡ none) ↔ (
        (rls.chart.name ≡ c.name)
        × (rls.chart.version ≡ c.version)
        × (d.verify_values s.config_digest vals ≡ true))
unfolding verify_release
verify_release_iff d rls s c vals =
    ground (arith, eq_iff rls.chart.name c.name, eq_iff rls.chart.version c.version)
