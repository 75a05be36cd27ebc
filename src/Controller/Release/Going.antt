-- ===== src/Controller/Release/Going.antt =====
-- What the stages of reconcileRelease leave when they go on: a stage that only reads changes nothing,
-- and one that clears a stale condition changes the conditions.
use helm_controller.Base.{
  String, ◌≡◌, ◌⊎◌, inl, inr, refl, true, false, List, [], Option, none, some, arith, Bool-cases,
  Option-cases,
}
use helm_controller.Helm.{ChartMetadata, Value}
use helm_controller.Api.Conditions.{Condition, Reason, progressing, prerequisites_fmt, printf}
use helm_controller.Api.HelmRelease.{get_storage_namespace, clear_failures}
use helm_controller.External.Cluster.{ok}
use helm_controller.External.Platform.{Platform, Settings, Source, Artifact}
use helm_controller.Action.Reset.{must_reset_failures, should_handle_reset_request}
use helm_controller.Reconcile.Request.{Run, mark_reconciling}
use helm_controller.Reconcile.Summary.Frame.{OnlyConditions}
use helm_controller.Controller.Flow.{go}
use helm_controller.Controller.Clients.{Getter}
use helm_controller.Controller.Dependencies.{check_dependencies}
use helm_controller.Controller.Source.{get_source, is_source_ready}
use helm_controller.Controller.Revision.{mutate_chart_with_source_revision}
use helm_controller.Controller.Stages.{
  clear_stale, start, confirm_dependencies, resolve_source, source_failed, confirm_source,
  compose_values, load_chart, load_failed, mutate_chart, build_getter, build_manager,
  dependency_failed, is_empty,
}
use helm_controller.Controller.Release.{
  must_uninstall_first, check_target, uninstall_target, record_attempt, build_factory,
}

module _ (P : Platform) (s : Settings) where
  pub clear_stale_go :
      (reasons : List Reason) (st next : Run P.env.World) (u : Unit {0})
      → clear_stale P s reasons st ≡ go next u
      → OnlyConditions st next
  unfolding clear_stale
  clear_stale_go reasons st next u h = ground arith

  pub confirm_dependencies_go :
      (st next : Run P.env.World) (u : Unit {0})
      → confirm_dependencies P s st ≡ go next u
      → (next ≡ st)
        × ((is_empty st.object.spec.depends_on ≡ true)
            ⊎ (check_dependencies P s st.world st.object ≡ none))
  unfolding confirm_dependencies dependency_failed
  confirm_dependencies_go st next u h = elim (Bool-cases (is_empty st.object.spec.depends_on)) [
    | inl e ↦ (ground arith, inl e)
    | inr e ↦ elim (Option-cases (check_dependencies P s st.world st.object)) [
      | inl d ↦ (ground arith, inr d)
      | inr (f, d) ↦ absurd (ground arith)
    ]
  ]

  pub resolve_source_go :
      (st next : Run P.env.World) (src : Source)
      → resolve_source P s st ≡ go next src
      → (next ≡ st) × (get_source P s st.world st.object ≡ ok src)
  unfolding resolve_source source_failed
  resolve_source_go st next src h = ground arith

  pub confirm_source_go :
      (src : Source) (st next : Run P.env.World) (u : Unit {0})
      → confirm_source P s src st ≡ go next u
      → (next ≡ st) × (is_source_ready src.kind src ≡ none)
  unfolding confirm_source
  confirm_source_go src st next u h = ground arith

  pub compose_values_go :
      (st next : Run P.env.World) (values : Value)
      → compose_values P s st ≡ go next values
      → (next ≡ st) × (P.values_from_references st.world st.object ≡ ok values)
  unfolding compose_values
  compose_values_go st next values h = ground arith

  pub load_chart_go :
      (a : Option Artifact) (st next : Run P.env.World) (chart : ChartMetadata)
      → load_chart P s a st ≡ go next chart
      → next ≡ st
  unfolding load_chart load_failed
  load_chart_go none st next chart h = ground arith
  load_chart_go (some a) st next chart h = ground arith

  pub mutate_chart_go :
      (chart : ChartMetadata) (src : Source) (st next : Run P.env.World)
      (mutated : ChartMetadata × String)
      → mutate_chart P s chart src st ≡ go next mutated
      → (next ≡ st) × (mutate_chart_with_source_revision P s chart src ≡ ok mutated)
  unfolding mutate_chart
  mutate_chart_go chart src st next mutated h = ground arith

  pub build_getter_go :
      (st next : Run P.env.World) (getter : Getter P s)
      → build_getter P s st ≡ go next getter
      → next ≡ st
  unfolding build_getter
  build_getter_go st next getter h = ground arith

  pub build_manager_go :
      (getter : Getter P s) (st next : Run P.env.World) (u : Unit {0})
      → build_manager P s getter st ≡ go next u
      → next ≡ st
  unfolding build_manager
  build_manager_go getter st next u h = ground arith

  pub check_target_go :
      (getter : Getter P s) (chart : ChartMetadata) (st next : Run P.env.World) (u : Unit {0})
      → check_target P s getter chart st ≡ go next u
      → (next ≡ st) × (must_uninstall_first P s st.object chart.name ≡ false)
  unfolding check_target uninstall_target
  check_target_go getter chart st next u h = ground arith

  pub build_factory_go :
      (getter : Getter P s) (st next : Run P.env.World) (u : Unit {0})
      → build_factory P s getter st ≡ go next u
      → next ≡ st
  unfolding build_factory
  build_factory_go getter st next u h = ground arith

  pub record_attempt_lem :
      (chart : ChartMetadata) (values : Value) (digest : String) (st : Run P.env.World)
      → let end = record_attempt P s chart values digest st in
        (end.world ≡ st.world)
        × (end.object.spec ≡ st.object.spec)
        × (end.object.status.history ≡ st.object.status.history)
        × (end.object.status.storage_namespace ≡ get_storage_namespace st.object)
        × (end.object.status.last_attempted_generation ≡ st.object.generation)
        × (end.object.status.last_attempted_revision ≡ chart.version)
  unfolding record_attempt must_reset_failures should_handle_reset_request clear_failures
  record_attempt_lem chart values digest st =
      (refl, ground arith, ground arith, ground arith, refl, refl)

  pub start_go :
      (st next : Run P.env.World) (u : Unit {0})
      → start P s st ≡ go next u
      → (cs : List Condition) × (w : P.env.World) × (next ≡ record st {
        world = w;
        object = record st.object { status = record st.object.status { conditions = cs } };
      })
  unfolding start
  start_go st next u h =
      let marked = mark_reconciling P.env progressing (printf prerequisites_fmt []) st in
      (marked.object.status.conditions, (P.env.patch marked.world marked.object).0, ground arith)
