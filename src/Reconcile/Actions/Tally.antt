-- ===== src/Reconcile/Actions/Tally.antt =====
-- The failure counters, and the parts of a reconciler that do not change them
-- (internal/reconcile/install.go, upgrade.go and release.go).
use helm_controller.Base.{
  String, ◌≡◌, refl, ap, sym, ◌∙◌, Bool, true, false, List, [], ◌∷◌, map, Option, is_some, ℤ, pos,
  inc64, arith, Option-cases, inl, inr,
}
use helm_controller.Helm.{ChartMetadata}
use helm_controller.Api.Spec.{HelmReleaseSpec}
use helm_controller.Api.Snapshots.{Snapshots, latest}
use helm_controller.Api.Snapshots.Order.{latest-eq-none}
use helm_controller.Api.Conditions.{ReleaseAction}
use helm_controller.External.Digests.{Digests}
use helm_controller.Reconcile.Record.History.{key_of, keys-record_observed}
use helm_controller.External.Cluster.{Env, Releaser, typed, other_api, InventoryOutcome}
use helm_controller.Release.Observation.{Observation}
use helm_controller.Reconcile.Request.{Run}
use helm_controller.Reconcile.Summary.{summarize}
use helm_controller.Reconcile.Summary.Frame.{summarize_frame}
use helm_controller.Reconcile.Record.{observe_inventory, record_observed, inventory_built}

-- The three failure counters, with the specification that decides how they are kept.
pub record Tally : Type 0 where
  pub failures : ℤ
  pub install_failures : ℤ
  pub upgrade_failures : ℤ
  pub spec : HelmReleaseSpec

abbrev pub tally : {World : Type 0} → Run World → Tally
tally st = record {
  failures = st.object.status.failures;
  install_failures = st.object.status.install_failures;
  upgrade_failures = st.object.status.upgrade_failures;
  spec = st.object.spec;
}

module _ (E : Env) where
  pub tally-summarize : (st : Run E.World) → tally (summarize E st) ≡ tally st
  tally-summarize st = sym (ap tally (summarize_frame E st))

  history-inventory_built :
      (out : InventoryOutcome) (st : Run E.World)
      → (inventory_built E out st).object.status.history ≡ st.object.status.history
  unfolding inventory_built
  history-inventory_built out st = ground arith

  pub history-observe_inventory :
      (chart : Option ChartMetadata) (ws : List Releaser) (st : Run E.World)
      → (observe_inventory E chart ws st).object.status.history ≡ st.object.status.history
  unfolding observe_inventory
  history-observe_inventory chart [] st = refl
  history-observe_inventory chart (typed rls ∷ ws) st =
      history-observe_inventory chart ws
        (inventory_built E (E.build_inventory st.world rls chart) st)
      ∙ history-inventory_built (E.build_inventory st.world rls chart) st
  history-observe_inventory chart (other_api ∷ ws) st = history-observe_inventory chart ws st

  tally-inventory_built :
      (out : InventoryOutcome) (st : Run E.World) → tally (inventory_built E out st) ≡ tally st
  unfolding inventory_built
  tally-inventory_built out st = ground arith

  pub tally-observe_inventory :
      (chart : Option ChartMetadata) (ws : List Releaser) (st : Run E.World)
      → tally (observe_inventory E chart ws st) ≡ tally st
  unfolding observe_inventory
  tally-observe_inventory chart [] st = refl
  tally-observe_inventory chart (typed rls ∷ ws) st =
      tally-observe_inventory chart ws (inventory_built E (E.build_inventory st.world rls chart) st)
      ∙ tally-inventory_built (E.build_inventory st.world rls chart) st
  tally-observe_inventory chart (other_api ∷ ws) st = tally-observe_inventory chart ws st

-- Something that was recorded is found again.
pub is_some-latest-record :
    (d : Digests) (oci : String) (act : ReleaseAction) (o : Observation) (os : List Observation)
    (history : Snapshots)
    → is_some (latest (record_observed d oci act (o ∷ os) history)) ≡ true
is_some-latest-record d oci act o os history =
    let recorded = record_observed d oci act (o ∷ os) history in
    elim (Option-cases (latest recorded)) [
      | inr (s, e) ↦ rw e refl
      | inl n ↦
          let empty : recorded ≡ [] = latest-eq-none recorded n in
          absurd (cc (keys-record_observed d oci act o os history, ap (map key_of) empty))
    ]

abbrev pub is_nil : List Observation → Bool
is_nil [] = true
is_nil (o ∷ os) = false

-- What a failed or successful action does to the counters.
abbrev pub counted : Tally → Tally
counted t = record t { failures = inc64 t.failures }

abbrev pub cleared_if : Bool → Tally → Tally
cleared_if true t = record t {
  failures = pos 0;
  install_failures = pos 0;
  upgrade_failures = pos 0;
}
cleared_if false t = t
