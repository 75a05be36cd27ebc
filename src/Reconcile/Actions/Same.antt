-- ===== src/Reconcile/Actions/Same.antt =====
-- The action reconcilers change nothing of a HelmRelease but its status.
pub mod Others
use helm_controller.Base.{◌≡◌, refl, ap, Bool, String, List, [], ◌∷◌, Option, none, some, arith}
use helm_controller.Errors.{Error}
use helm_controller.Helm
use helm_controller.Helm.{ChartMetadata, Release}
use helm_controller.Api.Snapshots.{Snapshot, latest, previous}
use helm_controller.Api.Spec.{Remediation}
use helm_controller.External.Cluster.{
  Env, Releaser, typed, other_api, HelmOutcome, InventoryOutcome, Result, ok, err, Diff,
}
use helm_controller.Release.Observation.{Observation}
use helm_controller.Reconcile.Request.{Request, Run, sort_history, set_world}
use helm_controller.Reconcile.Summary.{summarize, observe_post_renderers}
use helm_controller.Reconcile.Summary.Frame.{SameObject, summarize_same}
use helm_controller.Reconcile.Record.{
  record_on_object, inventory_built, observe_inventory, observe_writes,
}
use helm_controller.Reconcile.Actions.{emit_about}
use helm_controller.Reconcile.Actions.Install.{
  install_failure, install_success, install_succeeded_status, install_prepare, install_record,
  install_finish, install_reconcile,
}
use helm_controller.Reconcile.Actions.Upgrade.{
  upgrade_failure, upgrade_success, upgrade_succeeded_status, upgrade_prepare, upgrade_record,
  upgrade_finish, upgrade_reconcile,
}

module _ (E : Env) where
  inventory_built_same :
      (out : InventoryOutcome) (st : Run E.World) → SameObject st (inventory_built E out st)
  unfolding inventory_built
  inventory_built_same out st = ground arith

  pub observe_inventory_same :
      (chart : Option ChartMetadata) (ws : List Releaser) (st : Run E.World)
      → SameObject st (observe_inventory E chart ws st)
  unfolding observe_inventory
  observe_inventory_same chart [] st = refl
  observe_inventory_same chart (typed rls ∷ ws) st =
      let out = E.build_inventory st.world rls chart in
      ground (
        arith,
        inventory_built_same out st,
        observe_inventory_same chart ws (inventory_built E out st),
      )
  observe_inventory_same chart (other_api ∷ ws) st = observe_inventory_same chart ws st

module _ (E : Env) (retry : Bool) (req : Request) where
  install_failure_same :
      (e : Error) (st : Run E.World) → SameObject st (install_failure E retry req e st)
  unfolding install_failure
  install_failure_same e st = ground arith

  install_success_same : (st : Run E.World) → SameObject st (install_success E retry req st).0
  unfolding install_success install_succeeded_status emit_about
  install_success_same st = ground arith

  install_finish_same :
      (observed : List Observation) (e : Option Error) (st : Run E.World)
      → SameObject st (install_finish E retry req observed e st).0
  unfolding install_finish observe_post_renderers
  install_finish_same observed none st = ground (arith, install_success_same st)
  install_finish_same observed (some e) st = ground (arith, install_failure_same e st)

  install_record_same :
      (out : HelmOutcome E.World) (st : Run E.World)
      → SameObject st (install_record E retry req out st)
  unfolding install_record record_on_object
  install_record_same out st =
      ground (arith, observe_inventory_same E (some req.chart) out.writes (set_world out.world st))

  pub install_reconcile_same :
      (st : Run E.World) → SameObject st (install_reconcile E retry req st).0
  unfolding install_reconcile install_prepare
  install_reconcile_same st =
      let prepared = install_prepare E retry req st in
      let out = E.install prepared.world prepared.object req.chart req.values in
      let recorded = install_record E retry req out prepared in
      let observed = observe_writes [] out.writes in
      ground (
        arith,
        install_record_same out prepared,
        install_finish_same observed out.error recorded,
        summarize_same E (install_finish E retry req observed out.error recorded).0,
      )

  upgrade_failure_same :
      (e : Error) (st : Run E.World) → SameObject st (upgrade_failure E retry req e st)
  unfolding upgrade_failure
  upgrade_failure_same e st = ground arith

  upgrade_success_same : (st : Run E.World) → SameObject st (upgrade_success E retry req st).0
  unfolding upgrade_success upgrade_succeeded_status emit_about
  upgrade_success_same st = ground arith

  upgrade_finish_same :
      (observed : List Observation) (e : Option Error) (st : Run E.World)
      → SameObject st (upgrade_finish E retry req observed e st).0
  unfolding upgrade_finish observe_post_renderers
  upgrade_finish_same observed none st = ground (arith, upgrade_success_same st)
  upgrade_finish_same observed (some e) st = ground (arith, upgrade_failure_same e st)

  upgrade_record_same :
      (out : HelmOutcome E.World) (st : Run E.World)
      → SameObject st (upgrade_record E retry req out st)
  unfolding upgrade_record record_on_object
  upgrade_record_same out st =
      ground (arith, observe_inventory_same E (some req.chart) out.writes (set_world out.world st))

  pub upgrade_reconcile_same :
      (st : Run E.World) → SameObject st (upgrade_reconcile E retry req st).0
  unfolding upgrade_reconcile upgrade_prepare
  upgrade_reconcile_same st =
      let prepared = upgrade_prepare E retry req st in
      let out = E.upgrade prepared.world prepared.object req.chart req.values in
      let recorded = upgrade_record E retry req out prepared in
      let observed = observe_writes [] out.writes in
      ground (
        arith,
        upgrade_record_same out prepared,
        upgrade_finish_same observed out.error recorded,
        summarize_same E (upgrade_finish E retry req observed out.error recorded).0,
      )
