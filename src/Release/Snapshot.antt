-- ===== src/Release/Snapshot.antt =====
-- internal/release/observation.go: the snapshot that is made of an observation.
use helm_controller.Base.{none}
use helm_controller.Api.Snapshots.{Snapshot, current_snapshot_api_version}
use helm_controller.External.Digests.{Digests}
use helm_controller.Release.Observation.{Observation}

unfoldable pub observed_to_snapshot : Digests → Observation → Snapshot
observed_to_snapshot d rls = record {
  api_version = current_snapshot_api_version;
  digest = d.release_digest rls;
  name = rls.name;
  namespace = rls.namespace;
  version = rls.version;
  app_version = rls.chart_metadata.app_version;
  chart_name = rls.chart_metadata.name;
  chart_version = rls.chart_metadata.version;
  config_digest = d.digest_values rls.config;
  first_deployed = rls.info.first_deployed;
  last_deployed = rls.info.last_deployed;
  deleted = rls.info.deleted;
  status = rls.info.status;
  action = rls.action;
  test_hooks = none;
  oci_digest = rls.oci_digest;
}
