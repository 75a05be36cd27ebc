-- ===== src/External/Cluster.antt =====
-- What the controller reaches outside of itself: the Helm SDK with its storage, the Kubernetes API,
-- the clock and the context of a reconciliation. Its state is an abstract `World`.
use helm_controller.Base.{ℕ, ◌≡◌, refl, ◌⊎◌, inl, inr, String, Bool, List, Option}
use helm_controller.Errors.{Error}
use helm_controller.Helm
use helm_controller.Helm.{Release, Value, ChartMetadata}
use helm_controller.Api.HelmRelease.{HelmRelease}
use helm_controller.Api.Spec.{IgnoreRule}
use helm_controller.External.Conditions.{ConditionsApi}
use helm_controller.External.Digests.{Digests}

-- A Go pair of a value and an error, where one of the two is meant.
pub data Result (A : Type 0) : Type 0 where
  ok : A → Result A
  err : Error → Result A

-- Every result is an error, or a value without one.
pub Result-cases :
    {A : Type 0} (res : Result A) → ((x : Error) × (res ≡ err x)) ⊎ ((value : A) × (res ≡ ok value))
Result-cases (err x) = inl (x, refl)
Result-cases (ok value) = inr (value, refl)

-- A helmrelease.Releaser: `typed` for the Chart API v2, which the controller supports.
pub data Releaser : Type 0 where
  typed : Release → Releaser
  other_api : Releaser

-- One resource of a jsondiff.DiffSet that differs, by kind, namespace and name.
pub data DiffType : Type 0 where
  diff_none diff_create diff_update diff_exclude : DiffType

pub record Diff : Type 0 where
  pub type : DiffType
  pub kind : String
  pub namespace : String
  pub name : String

-- What a Helm action did: the releases that it wrote to the storage, in order, its result and
-- error, and the time it took.
pub record HelmOutcome (World : Type 0) : Type 0 where
  pub world : World
  pub writes : List Releaser
  pub release : Option Releaser
  pub error : Option Error
  pub elapsed : ℕ

-- An inventory of applied resources, with warnings.
pub record InventoryOutcome : Type 0 where
  pub inventory : Result (List String)
  pub warnings : List String

pub record Env : Type 1 where
  pub conditions : ConditionsApi
  pub digests : Digests
  pub World : Type 0
  -- The context is done.
  pub cancelled : World → Bool
  -- controller.IsObjectEnqueued of the flux runtime.
  pub enqueued : World → Bool
  -- `Last`, `Get` and `Update` of the Helm storage.
  pub last : World → String → Result Releaser
  pub get : World → String → ℕ → Result Releaser
  pub update : World → Release → World × Option Error
  -- SetStatus of a release.
  pub set_status : Release → Helm.Status → Release
  -- crypto/sha256 of a text, in hexadecimal digits.
  pub sha256_hex : String → String
  -- The Helm actions, as internal/action configures and runs them.
  pub install : World → HelmRelease → ChartMetadata → Value → HelmOutcome World
  pub upgrade : World → HelmRelease → ChartMetadata → Value → HelmOutcome World
  pub test : World → HelmRelease → HelmOutcome World
  pub rollback : World → HelmRelease → String → ℕ → HelmOutcome World
  pub uninstall : World → HelmRelease → String → HelmOutcome World
  -- `strings.Contains(err.Error(), "is already deleted")`.
  pub is_already_deleted : Error → Bool
  -- The differences between a release and the cluster, with an error for what could not be compared.
  pub diff : World → Release → List String → List IgnoreRule → List Diff × Option Error
  -- DiffSet.HasChanges.
  pub has_changes : List Diff → Bool
  -- The corrections that were made, and the error.
  pub apply_diff : World → List Diff → String → World × List String × Option Error
  pub build_inventory : World → Release → Option ChartMetadata → InventoryOutcome
  -- The serial patcher of the flux runtime.
  pub patch : World → HelmRelease → World × Option Error
  -- meta.HandleAnnotationRequest and meta.ShouldHandleForceRequest of the flux API: whether to
  -- handle the request of an annotation, and the token to remember as handled.
  pub handle_annotation : List (String × String) → String → String → Bool × String
  pub handle_force : List (String × String) → String → Bool × String
