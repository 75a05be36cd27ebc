-- ===== src/Controller/Release.antt =====
-- internal/controller/helmrelease_controller.go: reconcileRelease, by its stages, and what the result
-- of the atomic release leads to.
pub mod Going
pub mod Prepared
pub mod Reach
use helm_controller.Base.{
  ℕ, String, Bool, true, false, not, ◌&&◌, ◌||◌, List, [], ◌∷◌, Option, none, some, pos, str_eq,
  is_some, if◌then◌else◌,
}
use helm_controller.Errors
use helm_controller.Errors.{Error, is, is_one_of}
use helm_controller.Helm.{ChartMetadata, Value}
use helm_controller.Api.Conditions
use helm_controller.Api.Conditions.{
  ready, condition_false, dependency_not_ready, access_denied, artifact_failed, source_not_ready,
  values_error, rest_client_error, factory_error, health_check_canceled, printf, text,
  health_checks_canceled_fmt, new_reconciliation_fmt,
}
use helm_controller.Api.Spec.{ActionStrategy, get_retry_interval}
use helm_controller.Api.HelmRelease.{
  HelmRelease, get_active_retry, get_storage_namespace, get_upgrade, clear_history, clear_failures,
  get_chart_name_change_strategy,
}
use helm_controller.Api.Charts.{get_requeue_after}
use helm_controller.External.Platform.{Platform, Settings, Source, ReconcileResult}
use helm_controller.Action.Verify.{Target, chart_name, release_target_changed}
use helm_controller.Action.Reset.{must_reset_failures}
use helm_controller.Reconcile.Request.{Request, Run, update_status, mark, emit}
use helm_controller.Reconcile.Actions.{Exit, done, failed, panicked}
use helm_controller.Reconcile.Atomic.Loop
use helm_controller.Controller.Flow.{
  Verdict, answer, panic, Step, stop, go, Flow, ◌>>=◌, ◌>>◌, no_result, requeue_now, fail_with,
  terminal_with, modify, pass,
}
use helm_controller.Controller.Clients.{Getter}
use helm_controller.Controller.Delete.{reconcile_uninstall}
use helm_controller.Controller.Stages.{
  clear_stale, start, confirm_dependencies, resolve_source, confirm_source, compose_values,
  load_chart, mutate_chart, build_getter, build_manager, fail_marked,
}

abbrev is_chart_name : Target → Bool
is_chart_name chart_name = true
is_chart_name _ = false

module _ (P : Platform) (s : Settings) where
  -- The target of the release has changed in a way that asks for an uninstall.
  unfoldable pub must_uninstall_first : HelmRelease → String → Bool
  must_uninstall_first obj chart = elim (release_target_changed P.env.sha256_hex obj chart) [
    | none ↦ false
    | some reason ↦
        not (is_chart_name reason)
        || str_eq (get_chart_name_change_strategy (get_upgrade obj)) "Reinstall"
  ]

  -- The status after the old target is uninstalled: the next reconciliation installs anew.
  unfoldable pub forget_target : Run P.env.World → Run P.env.World
  forget_target st =
      update_status (λ t. record (clear_failures (clear_history t)) { storage_namespace = "" }) st

  unfoldable pub uninstall_target : Getter P s → Flow P.env.World (Unit {0})
  uninstall_target getter st =
      let (ended, exit) = reconcile_uninstall P s getter.config st in
      elim exit [
        | done ↦ stop (forget_target ended) (answer requeue_now none)
        | failed e ↦
            if is e Errors.no_latest
            then stop (forget_target ended) (answer requeue_now none)
            else stop ended (fail_with e)
        | panicked ↦ stop ended panic
      ]

  unfoldable pub check_target : Getter P s → ChartMetadata → Flow P.env.World (Unit {0})
  check_target getter chart st =
      if must_uninstall_first st.object chart.name then uninstall_target getter st else go st tt

  -- The storage namespace, the failure counters, and what is noted of an attempt.
  unfoldable pub record_attempt : ChartMetadata → Value → String → Run P.env.World → Run P.env.World
  record_attempt chart values oci_digest st =
      let stored =
        update_status (λ t. record t { storage_namespace = get_storage_namespace st.object }) st in
      let (reason, obj) = must_reset_failures P.env stored.object chart values in
      let counted = record stored {
        object = if is_some reason then record obj { status = clear_failures obj.status } else obj;
      } in
      update_status
        (λ t. record t {
          last_attempted_generation = st.object.generation;
          last_attempted_revision = chart.version;
          last_attempted_revision_digest = oci_digest;
          last_attempted_config_digest = P.env.digests.digest_values values;
          last_attempted_values_checksum = "";
          last_release_revision = pos 0;
        })
        counted

  unfoldable pub build_factory : Getter P s → Flow P.env.World (Unit {0})
  build_factory getter st =
      elim (P.config_factory_error st.world getter.config st.object.status.storage_namespace) [
        | some e ↦ fail_marked P s factory_error e st
        | none ↦ go st tt
      ]

  -- The attempt is recorded, and the configuration of Helm is built.
  unfoldable pub attempt : Getter P s → ChartMetadata → Value → String → Flow P.env.World Request
  attempt getter chart values oci_digest = do
    modify (record_attempt chart values oci_digest)
    build_factory getter
    clear_stale P s (factory_error ∷ [])
    pass (record { chart = chart; values = values })

  -- The clients of the cluster, and the check of the release's target.
  unfoldable pub reach_target : Value → ChartMetadata → String → Flow P.env.World Request
  reach_target values chart oci_digest = do
    getter ← build_getter P s
    build_manager P s getter
    clear_stale P s (rest_client_error ∷ [])
    check_target getter chart
    attempt getter chart values oci_digest

  -- The chart with its version, from the artifact of the source.
  unfoldable pub open_chart : Source → Value → Flow P.env.World Request
  open_chart src values = do
    loaded ← load_chart P s src.artifact
    clear_stale P s (artifact_failed ∷ [])
    (chart, oci_digest) ← mutate_chart P s loaded src
    reach_target values chart oci_digest

  -- The source and the values.
  unfoldable pub gather : Flow P.env.World Request
  gather = do
    src ← resolve_source P s
    clear_stale P s (access_denied ∷ artifact_failed ∷ [])
    confirm_source P s src
    clear_stale P s (source_not_ready ∷ [])
    values ← compose_values P s
    clear_stale P s (values_error ∷ [])
    open_chart src values

  -- The stages before the atomic release.
  unfoldable pub prepare : Flow P.env.World Request
  prepare = do
    start P s
    confirm_dependencies P s
    clear_stale P s (dependency_not_ready ∷ [])
    gather

  -- A retry strategy is active where the atomic release asks for a retry; a nil one panics.
  unfoldable pub answer_retry : Option ActionStrategy → Verdict
  answer_retry none = panic
  answer_retry (some retry) =
      answer (record { requeue = false; requeue_after = P.jitter (get_retry_interval retry) }) none

  unfoldable pub answer_error : Error → HelmRelease → Verdict
  answer_error e obj =
      if is e Errors.retry_after_interval
      then answer_retry (get_active_retry obj s.default_to_retry_on_failure)
      else if is e Errors.must_requeue
      then answer requeue_now none
      else if is_one_of e (Errors.exceeded_max_retries ∷ Errors.missing_rollback_target ∷ [])
      then terminal_with e
      else fail_with e

  -- The object was enqueued again, which cancels the health checks.
  unfoldable pub canceled : Run P.env.World → Run P.env.World
  canceled st =
      emit false health_check_canceled
        (printf health_checks_canceled_fmt (text (P.trigger st.world) ∷ [])) none
        (mark P.env ready condition_false health_check_canceled
          (printf new_reconciliation_fmt (text (P.trigger st.world) ∷ [])) st)

  unfoldable pub answer_exit : Exit → Run P.env.World → Run P.env.World × Verdict
  answer_exit panicked st = (st, panic)
  answer_exit done st = (
    st,
    answer (record { requeue = false; requeue_after = P.jitter (get_requeue_after st.object) })
        none,
  )
  answer_exit (failed e) st =
      if P.env.enqueued st.world
      then (canceled st, answer requeue_now none)
      else (st, answer_error e st.object)

  -- The atomic release always ends (`reconcile_total`), so the last case does not arise.
  unfoldable pub release_atomically : Request → Run P.env.World → Run P.env.World × Verdict
  release_atomically req st =
      elim (Loop.reconcile P.env s.default_to_retry_on_failure s.field_manager
        s.disallowed_field_managers req st) [
          | some (ended, exit) ↦ answer_exit exit ended
          | none ↦ (st, panic)
        ]

  abbrev pub released_by : Step P.env.World Request → Run P.env.World × Verdict
  released_by (stop st verdict) = (st, verdict)
  released_by (go st req) = release_atomically req st

  -- reconcileRelease.
  unfoldable pub reconcile_release : Run P.env.World → Run P.env.World × Verdict
  reconcile_release st = released_by (prepare st)
