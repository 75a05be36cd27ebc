-- ===== src/Tests/Platform.antt =====
-- A concrete platform over the sample cluster, with one source and one dependency, and objects that
-- the controller meets.
use helm_controller.Base.{
  ◌+◌, ◌<>◌, String, true, false, [], ◌∷◌, none, some, str_eq, if◌then◌else◌, ◌||◌,
}
use helm_controller.Text.{has}
use helm_controller.Errors
use helm_controller.Helm
use helm_controller.Api.Conditions.{ready, condition_true, install_succeeded, printf, error_fmt}
use helm_controller.Api.Spec.{HelmChartTemplate, HelmReleaseSpec, ObjectReference}
use helm_controller.Api.HelmRelease.{HelmRelease}
use helm_controller.External.Cluster.{ok, err}
use helm_controller.External.Platform.{
  Platform, Settings, Source, Artifact, oci_repository, unchanged,
}
use helm_controller.Reconcile.Request.{Run}
use helm_controller.Tests.World.{Cluster, sample_env, sample_chart}
use helm_controller.Tests.Conditions.{put_mark}
use helm_controller.Tests.Samples.{sample_object, sample_spec, sample_status, fresh, deployed}

abbrev pub sample_settings : Settings
sample_settings = record {
  field_manager = "helm-controller";
  disallowed_field_managers = [];
  dependency_requeue_interval = 30;
  additive_cel_dependency_check = true;
  allow_external_artifact = false;
  default_to_retry_on_failure = true;
  disable_chart_digest_tracking = false;
  allow_cross_namespace_ref = false;
  default_service_account = "";
}

abbrev pub sample_artifact : Artifact
sample_artifact = record {
  url = "http://source/app.tgz";
  revision = "1.0.0@sha256:0123456789abcdef";
  digest = "sha256:0123456789abcdef";
}

abbrev pub sample_source : Source
sample_source = record {
  kind = oci_repository;
  kind_name = "OCIRepository";
  name = "app";
  namespace = "apps";
  generation = 1;
  observed_generation = ok 1;
  ready = some (condition_true, "stored artifact");
  stalled = none;
  artifact = some sample_artifact;
}

-- A release that others depend on, whose Ready condition is true.
abbrev pub sample_dependency : HelmRelease
sample_dependency = record sample_object {
  name = "base";
  status = record sample_status {
    conditions = put_mark 1 [] ready condition_true install_succeeded (printf error_fmt []);
  };
}

-- Versions are texts without a colon, and configurations name an impersonated user.
abbrev pub sample_platform : Platform
sample_platform = record {
  env = sample_env;
  get_object = λ w key. ok sample_object;
  get_dependency =
      λ w key. if str_eq key.1 "base" then ok sample_dependency else err Errors.not_found;
  get_source = λ w kind key. if str_eq key.1 "app" then ok sample_source else err Errors.not_found;
  get_service_account = λ w key. none;
  get_secret = λ w key. err Errors.not_found;
  status_reader_error = λ exprs. none;
  compile_error = λ expr. none;
  evaluate = λ w expr self dep. ok true;
  to_unstructured = λ obj. ok Helm.null;
  values_from_references = λ w obj. ok Helm.null;
  load_chart = λ w artifact. ok sample_chart;
  Version = String;
  new_version = λ v. if str_eq v "" || has ":" v then none else some v;
  equal = λ a b. str_eq a b;
  set_metadata = λ v m. ok (v <> ("+" <> m));
  version_string = λ v. v;
  RestConfig = String;
  cluster_config = λ w. ok "";
  config_from_config_map = λ w obj. err Errors.not_found;
  config_from_bytes = λ config. ok config;
  impersonated = λ config. config;
  impersonate = λ config user. user;
  resource_manager_error = λ w config. none;
  config_factory_error = λ w config ns. none;
  has_any_reason = λ cs t reasons. false;
  reconcile_annotation = λ annotations. none;
  jitter = λ d. d + 1;
  trigger = λ w. "";
  final_patch = λ w obj observed. (w, none);
  get_chart_error = λ w oci key. none;
  delete_chart = λ w oci key. (w, none);
  convert_error = λ obj. none;
  apply_chart = λ w obj. (w, ok unchanged);
}

abbrev pub with_spec : HelmRelease → HelmReleaseSpec → HelmRelease
with_spec obj spec = record obj { spec = spec }

abbrev pub source_reference : ObjectReference
source_reference = record { api_version = ""; kind = "OCIRepository"; name = "app"; namespace = "" }

-- An object with a chart reference and a dependency, for which nothing is released.
abbrev pub active : Run Cluster
active = record fresh {
  object = with_spec fresh.object (record sample_spec {
    chart_ref = some source_reference;
    depends_on = record { name = "base"; namespace = ""; ready_expr = "true" } ∷ [];
  });
}

abbrev pub sample_template : HelmChartTemplate
sample_template = record {
  kind = "";
  object_meta = none;
  spec = record {
    oci = record { url = ""; provider = ""; layer_selector = none; verify = none; interval = none };
    chart = "app";
    version = "";
    source_ref = some (record source_reference { kind = "HelmRepository" });
    reconcile_strategy = "";
    values_files = [];
    ignore_missing_values_files = false;
  };
}

-- An object with a chart template.
abbrev pub templated : Run Cluster
templated = record fresh {
  object = with_spec fresh.object (record sample_spec { chart = some sample_template });
}

-- An object that is deleted while its release is deployed.
abbrev pub deleting : Run Cluster
deleting = record deployed { object = record deployed.object { deleting = true } }
