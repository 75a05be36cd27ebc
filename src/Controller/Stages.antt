-- ===== src/Controller/Stages.antt =====
-- internal/controller/helmrelease_controller.go: the stages of reconcileRelease before the atomic
-- release. Each marks the object, and returns where the code does.
pub mod Same
use helm_controller.Base.{
  ℕ, String, Bool, true, false, not, ◌&&◌, ◌||◌, List, [], ◌∷◌, Option, none, some, str_eq,
  if◌then◌else◌,
}
use helm_controller.Errors
use helm_controller.Errors.{Error, is}
use helm_controller.Helm.{ChartMetadata, Value}
use helm_controller.Api.Conditions
use helm_controller.Api.Conditions.{
  ready, reconciling, condition_false, condition_unknown, progressing, dependency_not_ready,
  invalid_cel_expression, access_denied, artifact_failed, source_not_ready, values_error,
  chart_mutate_error, rest_client_error, resource_manager_error, Reason, Message, printf, error,
  text, duration, error_fmt, prerequisites_fmt, in_progress_fmt, terminal_fmt, source_failed_fmt,
  artifact_retry_fmt, load_failed_fmt,
}
use helm_controller.Api.HelmRelease.{HelmRelease}
use helm_controller.External.Cluster.{Result, ok, err}
use helm_controller.External.Platform.{
  Platform, Settings, Source, Artifact, Failure, ReconcileResult,
}
use helm_controller.Reconcile.Request.{
  Run, mark, mark_reconciling, mark_stalled, delete, emit, set_world,
}
use helm_controller.Controller.Delete.{mark_not_ready}
use helm_controller.Controller.Flow.{
  Verdict, answer, panic, Step, stop, go, Flow, no_result, fail_with, terminal_with, modify,
}
use helm_controller.Controller.Dependencies.{check_dependencies}
use helm_controller.Controller.Source.{get_source, is_source_ready}
use helm_controller.Controller.Revision.{mutate_chart_with_source_revision}
use helm_controller.Controller.Clients.{Getter, build_rest_client_getter}

-- `len(l) == 0`.
abbrev pub is_empty {ℓ} : {A : Type ℓ} → List A → Bool
is_empty [] = true
is_empty (x ∷ xs) = false

module _ (P : Platform) (s : Settings) where
  -- A stale Ready condition with one of the reasons becomes unknown.
  unfoldable pub clear_stale : List Reason → Flow P.env.World (Unit {0})
  clear_stale reasons st =
      go
        (if P.has_any_reason st.object.status.conditions ready reasons
          then mark P.env ready condition_unknown progressing (printf in_progress_fmt []) st
          else st)
        tt

  -- The object is marked as reconciling, and patched.
  unfoldable pub start : Flow P.env.World (Unit {0})
  start st =
      let marked = mark_reconciling P.env progressing (printf prerequisites_fmt []) st in
      let (w, e) = P.env.patch marked.world marked.object in
      elim e [
        | some x ↦ stop (set_world w marked) (fail_with x)
        | none ↦ go (set_world w marked) tt
      ]

  -- The requeue at the dependency interval, with an error that is not returned after the patch.
  abbrev pub wait_with : Error → ℕ → Verdict
  wait_with e after =
      answer (record { requeue = false; requeue_after = after })
        (some (record { terminal = false; cause = e }))

  unfoldable pub dependency_failed : Failure → Flow P.env.World (Unit {0})
  dependency_failed f st =
      if f.terminal
      then stop
          (emit true invalid_cel_expression (printf error_fmt (error f.cause ∷ [])) none (
            mark_stalled P.env invalid_cel_expression (printf terminal_fmt (error f.cause ∷ [])) (
              mark_not_ready P s invalid_cel_expression (printf terminal_fmt (error f.cause ∷ []))
                st)))
          (answer no_result (some f))
      else stop
          (emit false dependency_not_ready (printf error_fmt (error f.cause ∷ [])) none
            (mark_not_ready P s dependency_not_ready (printf error_fmt (error f.cause ∷ [])) st))
          (wait_with Errors.wait_for_dependency s.dependency_requeue_interval)

  unfoldable pub confirm_dependencies : Flow P.env.World (Unit {0})
  confirm_dependencies st =
      if is_empty st.object.spec.depends_on
      then go st tt
      else elim (check_dependencies P s st.world st.object) [
        | some f ↦ dependency_failed f st
        | none ↦ go st tt
      ]

  unfoldable pub source_failed : Error → Flow P.env.World Source
  source_failed e st =
      if is e Errors.access_denied
      then stop
          (emit true access_denied (printf error_fmt (error e ∷ [])) none (
            delete P.env reconciling (
              mark_not_ready P s access_denied (printf error_fmt (error e ∷ []))
                (mark_stalled P.env access_denied (printf error_fmt (error e ∷ [])) st))))
          (terminal_with e)
      else stop (mark_not_ready P s artifact_failed (printf source_failed_fmt (error e ∷ [])) st)
          (fail_with e)

  unfoldable pub resolve_source : Flow P.env.World Source
  resolve_source st = elim (get_source P s st.world st.object) [
    | err e ↦ source_failed e st
    | ok src ↦ go st src
  ]

  -- The watch of the source triggers a reconciliation when the artifact is there.
  unfoldable pub confirm_source : Source → Flow P.env.World (Unit {0})
  confirm_source src st = elim (is_source_ready src.kind src) [
    | some msg ↦
        stop (mark_not_ready P s source_not_ready msg st)
          (wait_with Errors.wait_for_chart (P.jitter s.dependency_requeue_interval))
    | none ↦ go st tt
  ]

  unfoldable pub compose_values : Flow P.env.World Value
  compose_values st = elim (P.values_from_references st.world st.object) [
    | err e ↦
        stop
          (emit true values_error (printf error_fmt (error e ∷ [])) none
            (mark_not_ready P s values_error (printf error_fmt (error e ∷ [])) st))
          (fail_with e)
    | ok values ↦ go st values
  ]

  unfoldable pub load_failed : Error → Flow P.env.World ChartMetadata
  load_failed e st =
      if is e Errors.file_not_found || is e Errors.digest_mismatch
      then stop
          (mark_not_ready P s artifact_failed
            (printf artifact_retry_fmt (
              text (
                if is e Errors.digest_mismatch
                then "artifact digest changed"
                else "artifact not found")
              ∷ duration s.dependency_requeue_interval
              ∷ []))
            st)
          (wait_with Errors.wait_for_dependency s.dependency_requeue_interval)
      else stop
          (emit true artifact_failed (printf error_fmt (error e ∷ [])) none
            (mark_not_ready P s artifact_failed (printf load_failed_fmt (error e ∷ [])) st))
          (fail_with e)

  -- A source that is ready has an artifact.
  unfoldable pub load_chart : Option Artifact → Flow P.env.World ChartMetadata
  load_chart none st = stop st panic
  load_chart (some artifact) st = elim (P.load_chart st.world artifact) [
    | err e ↦ load_failed e st
    | ok chart ↦ go st chart
  ]

  -- An error that only marks Ready.
  abbrev pub fail_marked : {A : Type 0} → Reason → Error → Flow P.env.World A
  fail_marked reason e st =
      stop (mark_not_ready P s reason (printf error_fmt (error e ∷ [])) st) (fail_with e)

  unfoldable pub mutate_chart : ChartMetadata → Source → Flow P.env.World (ChartMetadata × String)
  mutate_chart chart src st = elim (mutate_chart_with_source_revision P s chart src) [
    | err e ↦ fail_marked chart_mutate_error e st
    | ok mutated ↦ go st mutated
  ]

  unfoldable pub build_getter : Flow P.env.World (Getter P s)
  build_getter st = elim (build_rest_client_getter P s st.world st.object) [
    | err e ↦ fail_marked rest_client_error e st
    | ok getter ↦ go st getter
  ]

  unfoldable pub build_manager : Getter P s → Flow P.env.World (Unit {0})
  build_manager getter st = elim (P.resource_manager_error st.world getter.config) [
    | some e ↦ fail_marked resource_manager_error e st
    | none ↦ go st tt
  ]
