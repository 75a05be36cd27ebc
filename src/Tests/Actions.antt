-- ===== src/Tests/Actions.antt =====
-- Instances of the results on the action reconcilers and the summary of conditions.
use mathlib.Core.List.{Memᴰ}
use helm_controller.Base.{
  Option, none, ◌≤◌, ◌≡◌, refl, true, false, [], ◌∷◌, map, some, is_some, All, if◌then◌else◌,
}
use helm_controller.Errors
use helm_controller.Errors.{Error}
use helm_controller.External.Cluster.{Env}
use helm_controller.Api.HelmRelease.{get_active_remediation}
use helm_controller.Reconcile.Request.{sort_history, set_world}
use helm_controller.Reconcile.Actions.{tested}
use helm_controller.Reconcile.Actions.Uninstall.{uninstall_reconcile}
use helm_controller.Reconcile.Actions.Uninstall.Gone.{IsUninstalled, uninstall_reconcile_done}
use helm_controller.Reconcile.Actions.Test.{observe_test, test_reconcile}
use helm_controller.Reconcile.Actions.Test.Counting.{IsTestError, test_table, test_reconcile-tally}
use helm_controller.Tests.Program.{program}
use helm_controller.Tests.Samples.{snapshot_of}
use helm_controller.Api.Snapshots.{previous}
use helm_controller.Reconcile.Actions.Rollback.{rollback_ignores_tests, rollback_reconcile}
use helm_controller.Reconcile.Actions.Rollback.Settled.{IsRolledBack, rollback_reconcile_done}
use helm_controller.Tests.Samples.{upgrade_failed}
use helm_controller.Helm
use helm_controller.Api.Conditions
use helm_controller.Api.Conditions.{
  Condition, ready, remediated, released, reconciling, condition_true, condition_unknown, empty,
}
use helm_controller.Api.Snapshots.{
  Snapshot, latest, sort_by_version, targets, set_test_hooks, chart_name_of, full_name_of,
}
use helm_controller.Api.HelmRelease.{get_release_name, get_test}
use helm_controller.Action.Verify.{last_release, typed_release}
use helm_controller.Release.Name.{shorten_name}
use helm_controller.External.Conditions.{outcome}
use helm_controller.Reconcile.Request.{Run, update_conditions, add_meta, event_meta}
use helm_controller.Reconcile.Summary.{summarize}
use helm_controller.Reconcile.Summary.Ready.{priority, tests_count, ready_of, summarize-ready}
use helm_controller.Reconcile.Record.{observe_writes, release_to_observation}
use helm_controller.Reconcile.Record.History.{key_of}
use helm_controller.Reconcile.Actions.{Exit, done, emit_about, snapshot_meta}
use helm_controller.Reconcile.Actions.Tally.{Tally, tally}
use helm_controller.Reconcile.Actions.Install.{install_prepare, install_reconcile}
use helm_controller.Reconcile.Actions.Install.Counting.{install_table, install_reconcile-tally}
use helm_controller.Reconcile.Actions.Upgrade.{upgrade_prepare, upgrade_reconcile}
use helm_controller.Reconcile.Actions.Upgrade.Counting.{upgrade_table, upgrade_reconcile-tally}
use helm_controller.Reconcile.Actions.Uninstall.{
  same_digest, uninstall_remediation_reconcile, uninstall_remediation_run,
  uninstall_remediation_finish, uninstall_error, uninstall_remediation_failure, uninstall_observed,
  observe_uninstall, uninstall_remediation_success,
}
use helm_controller.Reconcile.Actions.Rollback.{replace_snapshot}
use helm_controller.Release.Observation
use helm_controller.Release.Observation.{
  observe_release, ignore_hook_test_events, ignore_test_hooks, is_hook_for_event,
}
use helm_controller.Release.Snapshot.{observed_to_snapshot}
use helm_controller.Reconcile.Actions.Uninstall.Settled.{uninstall_remediation_done}
use helm_controller.Reconcile.Actions.Unlock.{unlock_reconcile}
use helm_controller.Reconcile.Actions.Unlock.Unlocked.{
  is_stale, view, exit_of, unlock_reconcile_lem,
}
use helm_controller.Tests.Conditions.{delete_type, sample_conditions-ConditionsLaws}
use helm_controller.Tests.World.{Cluster, sample_env, release_of}
use helm_controller.Tests.Samples.{sample_request, fresh, deployed}

-- A cluster in which every deployment fails.
abbrev unhealthy : Run Cluster
unhealthy = record fresh { world = record { stored = []; healthy = false } }

install_reconcile-tally_example :
    let prepared = install_prepare sample_env false sample_request unhealthy in
    let out =
      sample_env.install prepared.world prepared.object sample_request.chart
        sample_request.values in
    let (ended, exit) = install_reconcile sample_env false sample_request unhealthy in
    ◌≡◌ {A = Tally × Exit}
      (tally ended, exit)
      (install_table sample_env false sample_request
        (observe_writes [] out.writes)
        out.error
        (tally unhealthy))
install_reconcile-tally_example = install_reconcile-tally sample_env false sample_request unhealthy

upgrade_reconcile-tally_example :
    let prepared = upgrade_prepare sample_env true sample_request deployed in
    let out =
      sample_env.upgrade prepared.world prepared.object sample_request.chart
        sample_request.values in
    let (ended, exit) = upgrade_reconcile sample_env true sample_request deployed in
    ◌≡◌ {A = Tally × Exit}
      (tally ended, exit)
      (upgrade_table sample_env true sample_request
        (observe_writes [] out.writes)
        out.error
        (is_some (latest deployed.object.status.history))
        (tally deployed))
upgrade_reconcile-tally_example = upgrade_reconcile-tally sample_env true sample_request deployed

-- A release whose upgrade was interrupted.
abbrev pending : Run Cluster
pending = record deployed {
  world = record { stored = release_of 2 Helm.pending_upgrade ∷ []; healthy = true };
}

unlock_reconcile_lem_example :
    let (written, e) =
      sample_env.update pending.world
        (sample_env.set_status (release_of 2 Helm.pending_upgrade) Helm.failed) in
    let keys = map key_of pending.object.status.history in
    view sample_env (unlock_reconcile sample_env pending) ≡ (
      if is_stale (release_of 2 Helm.pending_upgrade).info.status
      then (written, keys, exit_of e)
      else (pending.world, keys, done))
unfolding last_release typed_release shorten_name get_release_name
unlock_reconcile_lem_example =
    unlock_reconcile_lem sample_env pending (release_of 2 Helm.pending_upgrade) refl

-- A release that was remediated before.
abbrev condition_of : Conditions.ConditionType → Condition
condition_of t = record {
  type = t;
  status = condition_true;
  observed_generation = 1;
  last_transition_time = 0;
  reason = Conditions.no_reason;
  message = empty;
}

abbrev two_conditions : Run Cluster
two_conditions =
    update_conditions (λ _. condition_of released ∷ condition_of remediated ∷ []) deployed

summarize-ready_example :
    (b : Condition) × Memᴰ b (condition_of released ∷ condition_of remediated ∷ [])
    × All
        (λ d.
          priority (tests_count two_conditions.object) b.type
          ≤ priority (tests_count two_conditions.object) d.type)
        (condition_of released ∷ condition_of remediated ∷ [])
    × (outcome ready (summarize sample_env two_conditions).object.status.conditions
        ≡ some (ready_of b))
unfolding get_test delete_type
summarize-ready_example =
    summarize-ready sample_env sample_conditions-ConditionsLaws two_conditions 1
      (condition_of released) (condition_of remediated ∷ []) refl (refl, (refl, tt))

uninstall_remediation_done_example :
    (cur : Snapshot) × (latest deployed.object.status.history ≡ some cur)
    × (same_digest cur
          (latest (uninstall_remediation_reconcile sample_env deployed).0.object.status.history)
        ≡ false)
unfolding uninstall_remediation_reconcile uninstall_remediation_run latest sort_by_version
    uninstall_remediation_finish uninstall_error Observation.targets observe_release
    uninstall_remediation_failure emit_about uninstall_observed observe_uninstall replace_snapshot
    targets set_test_hooks observed_to_snapshot release_to_observation chart_name_of full_name_of
    same_digest uninstall_remediation_success snapshot_meta add_meta event_meta
    ignore_hook_test_events ignore_test_hooks is_hook_for_event
uninstall_remediation_done_example = uninstall_remediation_done sample_env deployed refl

uninstall_reconcile_done_example :
    (cur : Snapshot) × (latest deployed.object.status.history ≡ some cur)
    × IsUninstalled sample_env cur
        (sort_history deployed)
        (latest (uninstall_reconcile sample_env deployed).0.object.status.history)
unfolding program
uninstall_reconcile_done_example = uninstall_reconcile_done sample_env deployed refl

-- A cluster in which every test fails.
abbrev failing_tests : Env
failing_tests = record sample_env {
  test = λ w obj. record {
    world = w;
    writes = [];
    release = none;
    error = some (Errors.external "pod failed");
    elapsed = 1;
  };
}

test_reconcile-tally_example :
    let out = failing_tests.test deployed.world (sort_history deployed).object in
    let observed =
      observe_test failing_tests out.writes (set_world out.world (sort_history deployed)) in
    let (ended, exit) = test_reconcile failing_tests deployed in
    (e : Option Error) × IsTestError failing_tests
      (snapshot_of 1 Helm.deployed)
      out.release
      out.error
      e
    × ◌≡◌ {A = Tally × Exit}
        (tally ended, exit)
        (test_table failing_tests
          (tested (latest observed.object.status.history))
          e
          (get_active_remediation observed.object)
          (tally deployed))
unfolding latest sort_by_version
test_reconcile-tally_example =
    test_reconcile-tally failing_tests deployed (snapshot_of 1 Helm.deployed) refl

rollback_reconcile_done_example :
    (prev : Snapshot) × (previous
        (rollback_ignores_tests sample_env sample_request upgrade_failed.object)
        upgrade_failed.object.status.history
      ≡ some prev)
    × IsRolledBack sample_env sample_request
        (latest upgrade_failed.object.status.history)
        prev
        (sort_history upgrade_failed)
        (latest
          (rollback_reconcile sample_env sample_request upgrade_failed).0.object.status.history)
unfolding program
rollback_reconcile_done_example =
    rollback_reconcile_done sample_env sample_request upgrade_failed refl
