-- ===== src/Tests/Samples.antt =====
-- Sample objects, and states of the sample cluster.
use helm_controller.Base.{ℕ, true, false, List, [], ◌∷◌, none, some, pos}
use helm_controller.Helm
use helm_controller.Helm.{Release, ChartMetadata, Value, Info}
use helm_controller.Api.Conditions
use helm_controller.Api.Conditions.{ReleaseAction}
use helm_controller.Api.Spec.{HelmReleaseSpec, no_upgrade}
use helm_controller.Api.Snapshots.{Snapshot}
use helm_controller.Api.HelmRelease.{HelmRelease, HelmReleaseStatus}
use helm_controller.Reconcile.Request.{Request, Run}
use helm_controller.Tests.World.{Cluster, sample_chart, release_of}

abbrev pub sample_request : Request
sample_request = record { chart = sample_chart; values = Helm.null }

abbrev pub sample_spec : HelmReleaseSpec
sample_spec = record {
  chart = none;
  chart_ref = none;
  interval = 300;
  kube_config = none;
  suspend = false;
  release_name = "app";
  target_namespace = "apps";
  storage_namespace = "apps";
  depends_on = [];
  timeout = none;
  max_history = none;
  service_account_name = "";
  persistent_client = none;
  drift_detection = none;
  install = none;
  upgrade = some (record no_upgrade {
    remediation = some (record {
      retries = pos 2;
      ignore_test_failures = none;
      remediate_last_failure = none;
      strategy = none;
    });
  });
  test = none;
  rollback = none;
  uninstall = none;
  values_from = [];
  values = none;
  common_metadata = none;
  post_renderers = none;
  post_render_strategy = "";
  wait_strategy = none;
  health_check_exprs = [];
}

abbrev pub sample_status : HelmReleaseStatus
sample_status = record {
  observed_generation = 1;
  observed_post_renderers_digest = "";
  observed_common_metadata_digest = "";
  last_attempted_generation = 1;
  conditions = [];
  helm_chart = "";
  storage_namespace = "apps";
  history = [];
  inventory = none;
  last_attempted_release_action = Conditions.no_action;
  last_attempted_release_action_duration = none;
  failures = pos 0;
  install_failures = pos 0;
  upgrade_failures = pos 0;
  last_attempted_revision = "1.0.0";
  last_attempted_revision_digest = "";
  last_attempted_values_checksum = "";
  last_release_revision = pos 0;
  last_attempted_config_digest = "values";
  last_handled_reset_at = "";
  last_handled_reconcile_at = "";
  last_handled_force_at = "";
}

abbrev pub sample_object : HelmRelease
sample_object = record {
  name = "app";
  namespace = "apps";
  generation = 1;
  annotations = [];
  finalizers = "finalizers.fluxcd.io" ∷ [];
  deleting = false;
  spec = sample_spec;
  status = sample_status;
}

-- A snapshot of a release as it is recorded.
abbrev pub snapshot_of : ℕ → Helm.Status → Snapshot
snapshot_of n status = record {
  api_version = "v2";
  digest = "manifest";
  name = "app";
  namespace = "apps";
  version = n;
  status = status;
  action = Conditions.install;
  chart_name = "app";
  chart_version = "1.0.0";
  app_version = "1";
  config_digest = "values";
  first_deployed = 1;
  last_deployed = n;
  deleted = 0;
  test_hooks = none;
  oci_digest = "";
}

-- Nothing is released yet, and one release is deployed and recorded.
abbrev pub fresh : Run Cluster
fresh = record {
  object = sample_object;
  world = record { stored = []; healthy = true };
  events = [];
}

abbrev pub with_history : HelmRelease → List Snapshot → HelmRelease
with_history obj history = record obj { status = record obj.status { history = history } }

abbrev pub deployed : Run Cluster
deployed = record {
  object = with_history sample_object (snapshot_of 1 Helm.deployed ∷ []);
  world = record { stored = release_of 1 Helm.deployed ∷ []; healthy = true };
  events = [];
}

-- The second release failed, and the first is there to roll back to.
abbrev pub upgrade_failed : Run Cluster
upgrade_failed = record {
  object = record sample_object {
    status = record sample_status {
      history = snapshot_of 2 Helm.failed ∷ snapshot_of 1 Helm.superseded ∷ [];
      last_attempted_release_action = Conditions.upgrade;
      failures = pos 1;
      upgrade_failures = pos 1;
    };
  };
  world = record {
    stored = release_of 2 Helm.failed ∷ release_of 1 Helm.superseded ∷ [];
    healthy = true;
  };
  events = [];
}

-- A first install failed, and its remediation has no retries.
abbrev pub exhausted : Run Cluster
exhausted = record {
  object = record sample_object {
    status = record sample_status {
      last_attempted_release_action = Conditions.install;
      failures = pos 1;
      install_failures = pos 1;
    };
  };
  world = record { stored = []; healthy = true };
  events = [];
}
