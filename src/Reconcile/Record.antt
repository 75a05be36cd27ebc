-- ===== src/Reconcile/Record.antt =====
-- internal/reconcile/release.go: the releases that are observed to be written to the Helm storage,
-- and how they are recorded in the history of the object.
pub mod History
pub mod Observed
use helm_controller.Base.{
  ℕ, String, Bool, true, false, List, [], ◌∷◌, map, Option, none, some, ltb, ◌==◌, if◌then◌else◌,
}
use helm_controller.Helm.{Release, ChartMetadata}
use helm_controller.Api.Conditions.{
  ReleaseAction, Reason, inventory_build_failed, namespace_check_skipped, printf,
  inventory_failed_fmt, warnings_fmt, text, error,
}
use helm_controller.Api.Snapshots.{Snapshot, Snapshots, targets, set_test_hooks}
use helm_controller.External.Digests.{Digests}
use helm_controller.External.Cluster.{Env, Releaser, typed, other_api, ok, err, InventoryOutcome}
use helm_controller.Release.Observation.{Observation, observe_release}
use helm_controller.Release.Snapshot.{observed_to_snapshot}
use helm_controller.Reconcile.Request.{Run, update_status, emit}

-- `observed[obs.Version] = obs` on a map, kept in descending order of version as `sortedVersions`
-- reads it.
unfoldable pub observe_version : Observation → List Observation → List Observation
observe_version o [] = o ∷ []
observe_version o (p ∷ ps) =
    let rest = observe_version o ps in
    if o.version == p.version
    then o ∷ ps
    else if ltb o.version p.version
    then p ∷ rest
    else o ∷ p ∷ ps

-- observeRelease, over the writes of a Helm action in their order.
unfoldable pub observe_writes : List Observation → List Releaser → List Observation
observe_writes seen [] = seen
observe_writes seen (typed rls ∷ ws) =
    observe_writes (observe_version (observe_release rls) seen) ws
observe_writes seen (other_api ∷ ws) = observe_writes seen ws

-- releaseToObservation.
unfoldable pub release_to_observation : Release → Snapshot → ReleaseAction → Observation
release_to_observation rls snapshot act = record (observe_release rls) {
  oci_digest = snapshot.oci_digest;
  action = act;
}

-- A snapshot of the observation that keeps the artifact digest and test hooks of the one it replaces.
unfoldable pub refreshed : Digests → Observation → Snapshot → Snapshot
refreshed d obs snap =
    set_test_hooks (observed_to_snapshot d (record obs { oci_digest = snap.oci_digest }))
      snap.test_hooks

-- The inner loop of recordOnObject: replaces the first snapshot that the observation targets.
unfoldable pub replace_target : Digests → Observation → Snapshots → Option Snapshots
replace_target d obs [] = none
replace_target d obs (snap ∷ ss) =
    let rest = replace_target d obs ss in
    if targets snap obs.name obs.namespace obs.version
    then some (refreshed d obs snap ∷ ss)
    else elim rest [ none ↦ none | some l ↦ some (snap ∷ l) ]

-- The outer loop over the older versions, which returns at the first replacement.
unfoldable pub update_older : Digests → List Observation → Snapshots → Snapshots
update_older d [] ss = ss
update_older d (obs ∷ os) ss =
    let rest = update_older d os ss in elim (replace_target d obs ss) [ some l ↦ l | none ↦ rest ]

-- recordOnObject with the mutators mutateOCIDigest and mutateAction.
unfoldable pub record_observed :
    Digests → String → ReleaseAction → List Observation → Snapshots → Snapshots
record_observed d oci act [] history = history
record_observed d oci act (obs ∷ older) history =
    update_older d older
      (observed_to_snapshot d (record obs { oci_digest = oci; action = act }) ∷ history)

module _ (E : Env) where
  unfoldable pub record_on_object : ReleaseAction → List Observation → Run E.World → Run E.World
  record_on_object act observed st =
      update_status
        (λ s. record s {
          history =
              record_observed E.digests s.last_attempted_revision_digest act observed s.history;
        })
        st

  unfoldable pub inventory_built : InventoryOutcome → Run E.World → Run E.World
  inventory_built out st = elim (out.inventory) [
    | err e ↦ emit true inventory_build_failed (printf inventory_failed_fmt (error e ∷ [])) none st
    | ok inv ↦
        let warned : Run E.World = elim (out.warnings) [
          | [] ↦ st
          | w ∷ ws ↦
              emit true namespace_check_skipped (printf warnings_fmt (map text (w ∷ ws))) none st
        ] in
        update_status (λ s. record s { inventory = some inv }) warned
  ]

  -- observeInventory, over the writes of a Helm action.
  unfoldable pub observe_inventory :
      Option ChartMetadata → List Releaser → Run E.World → Run E.World
  observe_inventory chart [] st = st
  observe_inventory chart (typed rls ∷ ws) st =
      observe_inventory chart ws (inventory_built (E.build_inventory st.world rls chart) st)
  observe_inventory chart (other_api ∷ ws) st = observe_inventory chart ws st
