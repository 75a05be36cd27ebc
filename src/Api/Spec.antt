-- ===== src/Api/Spec.antt =====
-- api/v2/helmrelease_types.go: the specification of a HelmRelease, the settings of each Helm action
-- and their defaults. A pointer field is an `Option`; a duration is in nanoseconds.
pub mod Actions
pub mod Chart
unfoldable pub use Actions.*
unfoldable pub use Chart.*
use helm_controller.Base.{ℕ, ◌*◌, String, Bool, ◌||◌, List, [], Option, ℤ, false, ◌==◌}
use helm_controller.Helm.{Value}

pub data DriftDetectionMode : Type 0 where
  no_mode enabled warn disabled : DriftDetectionMode

abbrev pub mode_code : DriftDetectionMode → ℕ
mode_code no_mode = 0
mode_code enabled = 1
mode_code warn = 2
mode_code disabled = 3

abbrev pub same_mode : DriftDetectionMode → DriftDetectionMode → Bool
same_mode a b = mode_code a == mode_code b

pub record IgnoreRule : Type 0 where
  pub paths : List String
  pub target : Option String

pub record DriftDetection : Type 0 where
  pub mode : DriftDetectionMode
  pub ignore : List IgnoreRule

unfoldable pub get_mode : DriftDetection → DriftDetectionMode
get_mode d = elim (d.mode) [ no_mode ↦ disabled | m ↦ m ]

unfoldable pub must_detect_changes : DriftDetection → Bool
unfolding get_mode
must_detect_changes d = same_mode (get_mode d) enabled || same_mode (get_mode d) warn

pub record Kustomize : Type 0 where
  pub patches : List String
  pub images : List String

pub record CommonMetadata : Type 0 where
  pub annotations : List (String × String)
  pub labels : List (String × String)

pub record PostRenderer : Type 0 where
  pub kustomize : Option Kustomize

-- meta.ValuesReference of the flux API.
pub record ValuesReference : Type 0 where
  pub kind : String
  pub name : String
  pub values_key : String
  pub target_path : String
  pub optional : Bool

pub record HelmReleaseSpec : Type 0 where
  pub chart : Option HelmChartTemplate
  pub chart_ref : Option ObjectReference
  pub interval : ℕ
  pub kube_config : Option KubeConfigReference
  pub suspend : Bool
  pub release_name : String
  pub target_namespace : String
  pub storage_namespace : String
  pub depends_on : List DependencyReference
  pub timeout : Option ℕ
  pub max_history : Option ℤ
  pub service_account_name : String
  pub persistent_client : Option Bool
  pub drift_detection : Option DriftDetection
  pub install : Option Install
  pub upgrade : Option Upgrade
  pub test : Option Test
  pub rollback : Option Rollback
  pub uninstall : Option Uninstall
  pub values_from : List ValuesReference
  pub values : Option Value
  pub common_metadata : Option CommonMetadata
  pub post_renderers : Option (List PostRenderer)
  pub post_render_strategy : String
  pub wait_strategy : Option String
  pub health_check_exprs : List String
