-- ===== src/Tests/Program.antt =====
-- The definitions that a run of the loop computes through.
use helm_controller.Errors.{is, is_one_of, ignore}
use helm_controller.Text.{has, split, strip, trim_prefix, replace_all, after_last}
use helm_controller.Api.Spec.{get_mode, must_detect_changes}
use helm_controller.Api.Spec.Actions.{
  get_retry_interval, get_retry, get_retries, must_ignore_test_failures,
  must_remediate_last_failure, get_strategy, is_uninstall_after_upgrade, get_filters, timeout_or,
}
use helm_controller.Api.Spec.Chart.{get_version, get_reconcile_strategy}
use helm_controller.Api.HelmRelease.{
  clear_history, clear_failures, get_drift_detection, get_install, get_upgrade,
  get_chart_name_change_strategy, get_test, get_rollback, get_uninstall, install_remediation,
  upgrade_remediation, get_failure_count, increment_failure_count, retries_exhausted,
  get_active_remediation, active_retry_of, get_active_retry, get_release_name,
  get_release_namespace, get_storage_namespace, get_timeout, get_max_history, use_persistent_client,
}
use helm_controller.Api.Charts.{
  reference_string, object_key, matches, chart_reference, template_reference, has_chart, set_chart,
  parse_reference, status_reference, has_chart_ref, has_chart_template, get_template_interval,
  get_requeue_after, is_valid_chart_ref,
}
use helm_controller.Api.Snapshots.{
  sort_by_version, latest, get_test_hooks, has_test_in_phase, has_been_tested, is_rollback_target,
  previous, truncate, truncate_ignoring_previous_snapshots, full_name_of, chart_name_of,
  set_test_hooks, targets, get_action,
}
use helm_controller.Release.Observation
use helm_controller.Release.Observation.{
  is_hook_for_event, ignore_test_hooks, ignore_hook_test_events, observe_release,
}
use helm_controller.Release.Snapshot.{observed_to_snapshot}
use helm_controller.Release.Name.{shorten_name}
use helm_controller.Action.Verify.{
  target_changed_from, release_target_changed, verify_release_object, verify_release, typed_release,
  last_release, verify_found, verify_snapshot,
}
use helm_controller.Action.Reset.{
  should_handle_reset_request, attempted_digest, values_differ, reset_reason, must_reset_failures,
}
use helm_controller.External.Conditions.{find_type, outcome}
use helm_controller.Tests.Conditions.{delete_type, put, put_mark}
use helm_controller.Reconcile.Request.{contains, count, add_meta, event_meta}
use helm_controller.Reconcile.Summary.{
  summary_conditions, position, before_position, summary_less, insert_back, sort_back,
  sort_conditions, summarize_sorted, summarize, observe_post_renderers,
}
use helm_controller.Reconcile.Record.{
  observe_version, observe_writes, release_to_observation, refreshed, replace_target, update_older,
  record_observed, record_on_object, inventory_built, observe_inventory,
}
use helm_controller.Reconcile.State.{
  is_locked_status, observed_digest_algorithm, desired_post_renderers_digest,
  desired_common_metadata_digest, test_failure_counts, test_state, drift_state, deployed_state,
  managed_state, verified_state, found_state, determine_release_state, after_determine,
}
use helm_controller.Reconcile.Access.{allows_access_to}
use helm_controller.Reconcile.ChartTemplate.{
  must_clean_deployed_chart, build_helm_chart, build_oci_repository, build_chart, forget_chart,
  delete_found, fetch_and_delete, delete_referenced, reconcile_delete, applied, apply_built,
  apply_template, reconcile_present, diverges, after_delete, reconcile_chart,
}
use helm_controller.Reconcile.Actions.{type_of, name_of, snapshot_meta, emit_about}
use helm_controller.Reconcile.Actions.Install.{
  install_failure, install_succeeded_status, install_success, install_prepare, install_record,
  install_finish, install_reconcile,
}
use helm_controller.Reconcile.Actions.Upgrade.{
  upgrade_failure, upgrade_succeeded_status, upgrade_success, upgrade_prepare, upgrade_record,
  upgrade_finish, upgrade_reconcile,
}
use helm_controller.Reconcile.Actions.Rollback.{
  replace_snapshot, observe_rollback, nothing_stored, rollback_failure, rollback_success,
  rollback_finish, other_release, rollback_run, rollback_ignores_tests, rollback_reconcile,
}
use helm_controller.Reconcile.Actions.Uninstall.{
  observe_uninstall, same_digest, uninstall_error, uninstall_remediation_failure,
  uninstall_remediation_success, uninstall_remediation_finish, uninstall_observed,
  uninstall_remediation_run, uninstall_remediation_reconcile, uninstall_failure, uninstall_success,
  uninstall_finish, is_gone, uninstall_run, uninstall_reconcile,
}
use helm_controller.Reconcile.Atomic.Choose.{
  ignores_test_failures, success_reason, replace_condition, forget_remediation, prune_history,
  report_success, restore_released, clear_drift, in_sync_next, release_or_refuse, drifted_next,
  rollback_next, remediate_by, failed_remediation, failed_next, choose, should_handle_force_request,
  action_for_state,
}
use helm_controller.Reconcile.Atomic.Loop.{
  must_continue, must_stop, timeout_for_action, cancelled_exit, retry_after_interval, must_requeue,
  stalled_exceeded, refused_exit, completed, must_continue_exit, must_stop_exit, failed_action_exit,
  mark_running, run_action, patch_progress, after_action, start_action, interrupted, perform,
  follow, state_error_exit, determined, round, loop, reconcile,
}
use helm_controller.Controller.Dependencies.{
  dependency_name, eval_ready_expr, is_ready_release, check_built_in, check_expression,
  check_dependency, check_each, check_dependencies,
}
use helm_controller.Controller.Source.{
  fetch_allowed, get_source_from_oci_ref, get_source_from_external_artifact, get_source_by,
  get_source_of_ref, get_source, is_ready, is_artifact_ready, is_source_ready,
}
use helm_controller.Controller.Revision.{
  digest_of_pair, extract_digest_sub_string, extract_digest, is_source_with_revision_digest,
  semver_candidate, parse_semver_from_tag, with_digest, with_tag, mutate_version,
  mutate_chart_with_source_revision,
}
use helm_controller.Controller.Clients.{
  impersonation_user, secret_data, kube_config_data, config_from_secret, new_getter, remote_config,
  target_config, build_rest_client_getter,
}
use helm_controller.Controller.Delete
use helm_controller.Controller.Delete.{
  remove_finalizer, contains_finalizer, account_of, reconcile_chart_template, reconcile_uninstall,
  truncate_details, uninstall_deleted, confirm_account, delete_with, reconcile_release_deletion,
  finish_delete, clean_up,
}
use helm_controller.Controller.Stages.{
  clear_stale, start, dependency_failed, confirm_dependencies, source_failed, resolve_source,
  confirm_source, compose_values, load_failed, load_chart, mutate_chart, build_getter,
  build_manager,
}
use helm_controller.Controller.Release.{
  must_uninstall_first, forget_target, uninstall_target, check_target, record_attempt,
  build_factory, attempt, reach_target, open_chart, gather, prepare, answer_retry, answer_error,
  canceled, answer_exit, release_atomically, reconcile_release,
}
use helm_controller.Controller.Entry
use helm_controller.Controller.Entry.{
  invalid_health_checks, reconcile_active, add_finalizer, reconcile_object, observes_generation,
  ignore_waits, join_error, patch_error, note_request, finish, reconcile_valid, reconcile_found,
}
use helm_controller.Controller.Entry.Scheduled.{delays, has_delays}
use helm_controller.Controller.Requests.{
  is_ready_or_reconciling, sorted_requests, must_request, requests_of, requests_for_change,
  requests_for_config,
}
use helm_controller.Action.Options.{
  get_wait_strategy, wait_strategy_for, to_helm_post_render_strategy, to_helm_ssa_value,
  new_install, ssa_mode, new_upgrade, new_rollback, new_uninstall, filter_names, new_test,
}
use helm_controller.Action.Run.{
  typed_result, has_version, install, with_upgrade_mode, resolve_upgrade, upgrade,
  with_rollback_mode, rollback_as_before, previous_version, resolve_to, resolve_rollback, rollback,
  uninstall, test,
}

-- Named on an `unfolding` line, this opens all of them.
unfoldable pub program : Unit {0}
unfolding is is_one_of ignore has split strip trim_prefix replace_all after_last get_mode
    must_detect_changes get_retry_interval get_retry get_retries must_ignore_test_failures
    must_remediate_last_failure get_strategy is_uninstall_after_upgrade get_filters timeout_or
    get_version get_reconcile_strategy clear_history clear_failures get_drift_detection get_install
    get_upgrade get_chart_name_change_strategy get_test get_rollback get_uninstall
    install_remediation upgrade_remediation get_failure_count increment_failure_count
    retries_exhausted get_active_remediation active_retry_of get_active_retry get_release_name
    get_release_namespace get_storage_namespace get_timeout get_max_history use_persistent_client
    reference_string object_key matches chart_reference template_reference has_chart set_chart
    parse_reference status_reference has_chart_ref has_chart_template get_template_interval
    get_requeue_after is_valid_chart_ref sort_by_version latest get_test_hooks has_test_in_phase
    has_been_tested is_rollback_target previous truncate truncate_ignoring_previous_snapshots
    full_name_of chart_name_of set_test_hooks targets get_action is_hook_for_event ignore_test_hooks
    ignore_hook_test_events observe_release Observation.targets observed_to_snapshot shorten_name
    target_changed_from release_target_changed verify_release_object verify_release typed_release
    last_release verify_found verify_snapshot should_handle_reset_request attempted_digest
    values_differ reset_reason must_reset_failures find_type outcome delete_type put put_mark
    contains count add_meta event_meta summary_conditions position before_position summary_less
    insert_back sort_back sort_conditions summarize_sorted summarize observe_post_renderers
    observe_version observe_writes release_to_observation refreshed replace_target update_older
    record_observed record_on_object inventory_built observe_inventory is_locked_status
    observed_digest_algorithm desired_post_renderers_digest desired_common_metadata_digest
    test_failure_counts test_state drift_state deployed_state managed_state verified_state
    found_state determine_release_state after_determine allows_access_to must_clean_deployed_chart
    build_helm_chart build_oci_repository build_chart forget_chart delete_found fetch_and_delete
    delete_referenced reconcile_delete applied apply_built apply_template reconcile_present diverges
    after_delete reconcile_chart type_of name_of snapshot_meta emit_about install_failure
    install_succeeded_status install_success install_prepare install_record install_finish
    install_reconcile upgrade_failure upgrade_succeeded_status upgrade_success upgrade_prepare
    upgrade_record upgrade_finish upgrade_reconcile replace_snapshot observe_rollback nothing_stored
    rollback_failure rollback_success rollback_finish other_release rollback_run
    rollback_ignores_tests rollback_reconcile observe_uninstall same_digest uninstall_error
    uninstall_remediation_failure uninstall_remediation_success uninstall_remediation_finish
    uninstall_observed uninstall_remediation_run uninstall_remediation_reconcile uninstall_failure
    uninstall_success uninstall_finish is_gone uninstall_run uninstall_reconcile
    ignores_test_failures success_reason replace_condition forget_remediation prune_history
    report_success restore_released clear_drift in_sync_next release_or_refuse drifted_next
    rollback_next remediate_by failed_remediation failed_next choose should_handle_force_request
    action_for_state must_continue must_stop timeout_for_action cancelled_exit retry_after_interval
    must_requeue stalled_exceeded refused_exit completed must_continue_exit must_stop_exit
    failed_action_exit mark_running run_action patch_progress after_action start_action interrupted
    perform follow state_error_exit determined round loop reconcile dependency_name eval_ready_expr
    is_ready_release check_built_in check_expression check_dependency check_each check_dependencies
    fetch_allowed get_source_from_oci_ref get_source_from_external_artifact get_source_by
    get_source_of_ref get_source is_ready is_artifact_ready is_source_ready digest_of_pair
    extract_digest_sub_string extract_digest is_source_with_revision_digest semver_candidate
    parse_semver_from_tag with_digest with_tag mutate_version mutate_chart_with_source_revision
    impersonation_user secret_data kube_config_data config_from_secret new_getter remote_config
    target_config build_rest_client_getter remove_finalizer contains_finalizer account_of
    reconcile_chart_template reconcile_uninstall truncate_details uninstall_deleted confirm_account
    delete_with reconcile_release_deletion finish_delete clean_up Delete.reconcile_delete
    clear_stale start dependency_failed confirm_dependencies source_failed resolve_source
    confirm_source compose_values load_failed load_chart mutate_chart build_getter build_manager
    must_uninstall_first forget_target uninstall_target check_target record_attempt build_factory
    attempt reach_target open_chart gather prepare answer_retry answer_error canceled answer_exit
    release_atomically reconcile_release invalid_health_checks reconcile_active add_finalizer
    reconcile_object observes_generation ignore_waits join_error patch_error note_request finish
    reconcile_valid reconcile_found Entry.reconcile delays has_delays is_ready_or_reconciling
    sorted_requests must_request requests_of requests_for_change requests_for_config
    get_wait_strategy wait_strategy_for to_helm_post_render_strategy to_helm_ssa_value new_install
    ssa_mode new_upgrade new_rollback new_uninstall filter_names new_test typed_result has_version
    install with_upgrade_mode resolve_upgrade upgrade with_rollback_mode rollback_as_before
    previous_version resolve_to resolve_rollback rollback uninstall test
program = tt
