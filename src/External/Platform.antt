-- ===== src/External/Platform.antt =====
-- What the HelmRelease controller is configured with and calls: the Kubernetes API, the sources of
-- charts, the CEL and semver libraries, and the clients for a target cluster. The world is that of
-- the Helm environment.
use helm_controller.Base.{ℕ, String, Bool, List, Option}
use helm_controller.Errors.{Error}
use helm_controller.Helm.{ChartMetadata, Value}
use helm_controller.Api.Conditions.{Condition, ConditionType, ConditionStatus, Reason}
use helm_controller.Api.HelmRelease.{HelmRelease}
use helm_controller.Api.Spec.{OciSpec, TemplateMeta, SourceVerification}
use helm_controller.External.Cluster.{Env, Result}

-- The settings of HelmReleaseReconciler, with AllowCrossNamespaceRef of internal/acl/acl.go and
-- DefaultServiceAccountName of internal/kube/impersonate.go.
pub record Settings : Type 0 where
  pub field_manager : String
  pub disallowed_field_managers : List String
  pub dependency_requeue_interval : ℕ
  pub additive_cel_dependency_check : Bool
  pub allow_external_artifact : Bool
  pub default_to_retry_on_failure : Bool
  pub disable_chart_digest_tracking : Bool
  pub allow_cross_namespace_ref : Bool
  pub default_service_account : String

-- meta.Artifact.
pub record Artifact : Type 0 where
  pub url : String
  pub revision : String
  pub digest : String

pub data SourceKind : Type 0 where
  helm_chart oci_repository external_artifact : SourceKind

-- A source object of the source-controller, with its conditions Ready and Stalled as a status and a
-- message. Reading the observed generation can fail.
pub record Source : Type 0 where
  pub kind : SourceKind
  pub kind_name : String
  pub name : String
  pub namespace : String
  pub generation : ℕ
  pub observed_generation : Result ℕ
  pub ready : Option (ConditionStatus × String)
  pub stalled : Option (ConditionStatus × String)
  pub artifact : Option Artifact

-- ctrl.Result, and an error that may be marked as terminal by reconcile.TerminalError.
pub record ReconcileResult : Type 0 where
  pub requeue : Bool
  pub requeue_after : ℕ

pub record Failure : Type 0 where
  pub terminal : Bool
  pub cause : Error

-- sourcev1.HelmChart and sourcev1.OCIRepository, as the chart template builds them.
pub record HelmChartObject : Type 0 where
  pub name : String
  pub namespace : String
  pub chart : String
  pub version : String
  pub interval : ℕ
  pub reconcile_strategy : String
  pub values_files : List String
  pub ignore_missing_values_files : Bool
  pub source_ref : Option (String × String)
  pub verify : Option SourceVerification
  pub object_meta : Option TemplateMeta

pub record OciRepositoryObject : Type 0 where
  pub name : String
  pub namespace : String
  pub spec : OciSpec
  pub object_meta : Option TemplateMeta

-- `no_object` is a nil interface.
pub data ChartObject : Type 0 where
  helm_chart_object : HelmChartObject → ChartObject
  oci_repository_object : OciRepositoryObject → ChartObject
  no_object : ChartObject

-- What an apply of the chart object did, `ssa.Action` of the SSA library.
pub data ApplyAction : Type 0 where
  created configured unchanged other_action : ApplyAction

pub record Platform : Type 1 where
  pub env : Env
  -- The reconciler's client reads an object, by namespace and name.
  pub get_object : Env.World env → String × String → Result HelmRelease
  -- The uncached reader of dependencies.
  pub get_dependency : Env.World env → String × String → Result HelmRelease
  pub get_source : Env.World env → SourceKind → String × String → Result Source
  pub get_service_account : Env.World env → String × String → Option Error
  pub get_secret : Env.World env → String × String → Result (List (String × String))
  -- cel.NewStatusReader, cel.NewExpression, EvaluateBoolean, and the conversion to unstructured data.
  pub status_reader_error : List String → Option Error
  pub compile_error : String → Option Error
  pub evaluate : Env.World env → String → Value → Value → Result Bool
  pub to_unstructured : HelmRelease → Result Value
  -- chartutil.ChartValuesFromReferences of the flux packages, and the chart loader.
  pub values_from_references : Env.World env → HelmRelease → Result Value
  pub load_chart : Env.World env → Artifact → Result ChartMetadata
  -- github.com/Masterminds/semver.
  pub Version : Type 0
  pub new_version : String → Option Version
  pub equal : Version → Version → Bool
  pub set_metadata : Version → String → Result Version
  pub version_string : Version → String
  -- rest.Config of a cluster.
  pub RestConfig : Type 0
  pub cluster_config : Env.World env → Result RestConfig
  pub config_from_config_map : Env.World env → HelmRelease → Result RestConfig
  pub config_from_bytes : String → Result RestConfig
  pub impersonated : RestConfig → String
  pub impersonate : RestConfig → String → RestConfig
  -- The resource manager and the Helm configuration for a client, with a storage namespace.
  pub resource_manager_error : Env.World env → RestConfig → Option Error
  pub config_factory_error : Env.World env → RestConfig → String → Option Error
  -- conditions.HasAnyReason and meta.ReconcileAnnotationValue.
  pub has_any_reason : List Condition → ConditionType → List Reason → Bool
  pub reconcile_annotation : List (String × String) → Option String
  -- jitter.JitteredRequeueInterval, of a duration that is not zero.
  pub jitter : ℕ → ℕ
  -- What enqueued the object again.
  pub trigger : Env.World env → String
  -- The final patch, which may record the observed generation; `not_found` is filtered by the caller.
  pub final_patch : Env.World env → HelmRelease → Bool → Env.World env × Option Error
  -- Chart objects of the source-controller: reading one, its deletion, the conversion of a built
  -- object with its group, version and kind, and its server-side apply.
  pub get_chart_error : Env.World env → Bool → String × String → Option Error
  pub delete_chart : Env.World env → Bool → String × String → Env.World env × Option Error
  pub convert_error : ChartObject → Option Error
  pub apply_chart : Env.World env → ChartObject → Env.World env × Result ApplyAction
