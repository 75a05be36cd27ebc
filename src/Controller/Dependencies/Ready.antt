-- ===== src/Controller/Dependencies/Ready.antt =====
-- When the dependencies of a HelmRelease let it go on.
use helm_controller.Base.{
  String, ◌≡◌, ◌↔◌, Bool, true, false, not, ◌&&◌, ◌||◌, List, [], ◌∷◌, none, some, ◌==◌, str_eq,
  arith,
}
use helm_controller.Helm.{Value}
use helm_controller.Api.Conditions.{ready}
use helm_controller.Api.Spec.{DependencyReference}
use helm_controller.Api.HelmRelease.{HelmRelease}
use helm_controller.External.Cluster.{ok, err}
use helm_controller.External.Platform.{Platform, Settings}
use helm_controller.Controller.Dependencies.{
  dependency_name, eval_ready_expr, is_ready_release, check_built_in, check_expression,
  check_dependency, check_each, check_dependencies,
}

module _ (P : Platform) (s : Settings) where
  -- The expression compiles, and is true of the two objects.
  abbrev pub holds : P.env.World → String → Value → HelmRelease → Bool
  holds w expr self dep = elim (P.compile_error expr) [
    | some e ↦ false
    | none ↦ elim (P.to_unstructured dep) [
      | err e ↦ false
      | ok m ↦ elim (P.evaluate w expr self m) [ ok b ↦ b | err e ↦ false ]
    ]
  ]

  -- A dependency exists and is ready: by its expression, if it has one, and by its observed
  -- generation and Ready condition, if it has no expression or the two checks are added up.
  abbrev pub fulfilled : P.env.World → HelmRelease → Value → DependencyReference → Bool
  fulfilled w obj self ref = elim (P.get_dependency w (dependency_name obj ref)) [
    | err e ↦ false
    | ok dep ↦
        let plain = str_eq ref.ready_expr "" in
        (plain || holds w ref.ready_expr self dep)
        && (not plain && not s.additive_cel_dependency_check
            || dep.generation == dep.status.observed_generation
              && P.env.conditions.is_true dep.status.conditions ready)
  ]

  abbrev pub all_fulfilled : P.env.World → HelmRelease → Value → List DependencyReference → Bool
  all_fulfilled w obj self [] = true
  all_fulfilled w obj self (ref ∷ refs) = fulfilled w obj self ref && all_fulfilled w obj self refs

  check_dependency_iff :
      (w : P.env.World) (obj : HelmRelease) (self : Value) (ref : DependencyReference)
      → (check_dependency P s w obj self ref ≡ none) ↔ (fulfilled w obj self ref ≡ true)
  unfolding check_dependency check_expression check_built_in eval_ready_expr is_ready_release
  check_dependency_iff w obj self ref = ground arith

  check_each_iff :
      (w : P.env.World) (obj : HelmRelease) (self : Value) (refs : List DependencyReference)
      → (check_each P s w obj self refs ≡ none) ↔ (all_fulfilled w obj self refs ≡ true)
  unfolding check_each
  check_each_iff w obj self [] = ground arith
  check_each_iff w obj self (ref ∷ refs) =
      ground (arith, check_dependency_iff w obj self ref, check_each_iff w obj self refs)

  -- The check of the dependencies lets a HelmRelease that converts to unstructured data go on exactly
  -- if every dependency exists and is ready: its expression, where it has one, compiles and is true,
  -- and its generation is observed and its Ready condition true, where it has no expression or the
  -- built-in check is additive.
  pub check_dependencies_iff :
      (w : P.env.World) (obj : HelmRelease) (self : Value)
      → P.to_unstructured obj ≡ ok self
      → (check_dependencies P s w obj ≡ none)
        ↔ (all_fulfilled w obj self obj.spec.depends_on ≡ true)
  unfolding check_dependencies
  check_dependencies_iff w obj self h =
      rw (h, check_dependencies) (check_each_iff w obj self obj.spec.depends_on)
