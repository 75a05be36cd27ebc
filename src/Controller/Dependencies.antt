-- ===== src/Controller/Dependencies.antt =====
-- internal/controller/helmrelease_controller.go: checkDependencies and evalReadyExpr.
pub mod Ready
use helm_controller.Base.{
  String, Bool, true, false, not, ◌&&◌, ◌||◌, List, [], ◌∷◌, Option, none, some, ◌==◌, str_eq,
  if◌then◌else◌,
}
use helm_controller.Errors
use helm_controller.Errors.{Error}
use helm_controller.Helm.{Value}
use helm_controller.Api.Conditions.{ready}
use helm_controller.Api.Spec.{DependencyReference}
use helm_controller.Api.HelmRelease.{HelmRelease}
use helm_controller.External.Cluster.{Result, ok, err}
use helm_controller.External.Platform.{Platform, Settings, Failure}

abbrev pub transient : Error → Failure
transient e = record { terminal = false; cause = e }

-- A Boolean and an error, of which one is meant.
pub data Evaluation : Type 0 where
  value : Bool → Evaluation
  failure : Failure → Evaluation

-- The namespace and name of a dependency.
unfoldable pub dependency_name : HelmRelease → DependencyReference → String × String
dependency_name obj ref =
    (if str_eq ref.namespace "" then obj.namespace else ref.namespace, ref.name)

module _ (P : Platform) (s : Settings) where
  abbrev evaluated : Result Bool → Evaluation
  evaluated (ok b) = value b
  evaluated (err e) = failure (transient e)

  -- evalReadyExpr: an expression that does not compile is a terminal error.
  unfoldable pub eval_ready_expr : P.env.World → String → Value → HelmRelease → Evaluation
  eval_ready_expr w expr self dep = elim (P.compile_error expr) [
    | some e ↦ failure (record { terminal = true; cause = e })
    | none ↦ elim (P.to_unstructured dep) [
      | err e ↦ failure (transient e)
      | ok dep_map ↦ evaluated (P.evaluate w expr self dep_map)
    ]
  ]

  -- The built-in readiness check.
  unfoldable pub is_ready_release : HelmRelease → Bool
  is_ready_release dep =
      dep.generation == dep.status.observed_generation
      && P.env.conditions.is_true dep.status.conditions ready

  unfoldable pub check_built_in : HelmRelease → Option Failure
  check_built_in dep =
      if not (is_ready_release dep)
      then some (transient (Errors.external "dependency is not ready"))
      else none

  unfoldable pub check_expression :
      P.env.World → DependencyReference → Value → HelmRelease → Option Failure
  check_expression w ref self dep = elim (eval_ready_expr w ref.ready_expr self dep) [
    | failure f ↦ some f
    | value false ↦
        some (transient (Errors.external "dependency is not ready according to readyExpr"))
    | value true ↦ if not s.additive_cel_dependency_check then none else check_built_in dep
  ]

  -- One round of the loop over the dependencies.
  unfoldable pub check_dependency :
      P.env.World → HelmRelease → Value → DependencyReference → Option Failure
  check_dependency w obj self ref = elim (P.get_dependency w (dependency_name obj ref)) [
    | err e ↦ some (transient e)
    | ok dep ↦
        if not (str_eq ref.ready_expr "")
        then check_expression w ref self dep
        else check_built_in dep
  ]

  unfoldable pub check_each :
      P.env.World → HelmRelease → Value → List DependencyReference → Option Failure
  check_each w obj self [] = none
  check_each w obj self (ref ∷ refs) =
      let rest = check_each w obj self refs in
      elim (check_dependency w obj self ref) [ some f ↦ some f | none ↦ rest ]

  -- checkDependencies, `none` where all are ready.
  unfoldable pub check_dependencies : P.env.World → HelmRelease → Option Failure
  check_dependencies w obj = elim (P.to_unstructured obj) [
    | err e ↦ some (transient e)
    | ok self ↦ check_each w obj self obj.spec.depends_on
  ]
