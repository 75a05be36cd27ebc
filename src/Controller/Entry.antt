-- ===== src/Controller/Entry.antt =====
-- internal/controller/helmrelease_controller.go: Reconcile, with the patch that it defers.
pub mod Finalizer
pub mod Scheduled
pub mod Waiting
use helm_controller.Base.{
  ℕ, String, Bool, true, false, not, ◌&&◌, ◌||◌, List, [], ◌∷◌, ◌++◌, Option, none, some,
  if◌then◌else◌,
}
use helm_controller.Errors
use helm_controller.Errors.{Error, is, ignore}
use helm_controller.Api.Conditions.{
  ready, condition_false, invalid_cel_expression, printf, error, error_fmt, terminal_fmt,
}
use helm_controller.Api.HelmRelease.{HelmRelease}
use helm_controller.Api.Charts.{is_valid_chart_ref}
use helm_controller.External.Cluster.{Result, ok, err}
use helm_controller.External.Platform.{Platform, Settings, Failure, ReconcileResult}
use helm_controller.Reconcile.Request.{Run, update_status, mark, mark_stalled, emit, set_world}
use helm_controller.Controller.Flow.{
  Verdict, answer, panic, Step, stop, go, no_result, requeue_now, fail_with, terminal_with, is_zero,
}
use helm_controller.Controller.Delete.{
  helm_release_finalizer, contains_finalizer, reconcile_delete, reconcile_chart_template, ended_by,
  mark_not_ready,
}
use helm_controller.Controller.Release.{reconcile_release}

module _ (P : Platform) (s : Settings) where
  -- The custom health checks of the specification do not compile.
  unfoldable pub invalid_health_checks : Error → Run P.env.World → Run P.env.World × Verdict
  invalid_health_checks e st = (
    emit true invalid_cel_expression (printf error_fmt (error e ∷ [])) none (
        update_status (λ t. record t { observed_generation = st.object.generation })
          (mark_stalled P.env invalid_cel_expression (printf terminal_fmt (error e ∷ []))
            (mark_not_ready P s invalid_cel_expression (printf terminal_fmt (error e ∷ [])) st))),
    terminal_with e,
  )

  unfoldable pub reconcile_active : Run P.env.World → Run P.env.World × Verdict
  reconcile_active st = elim (P.status_reader_error st.object.spec.health_check_exprs) [
    | some e ↦ invalid_health_checks e st
    | none ↦ ended_by P s (reconcile_release P s) (reconcile_chart_template P s st)
  ]

  unfoldable pub add_finalizer : Run P.env.World → Run P.env.World
  add_finalizer st = record st {
    object = record st.object { finalizers = st.object.finalizers ++ helm_release_finalizer ∷ [] };
  }

  -- The body of Reconcile, after the object is read.
  unfoldable pub reconcile_object : Run P.env.World → Run P.env.World × Verdict
  reconcile_object st =
      if st.object.deleting
      then reconcile_delete P s st
      else if not (contains_finalizer helm_release_finalizer st.object.finalizers)
      then (add_finalizer st, answer requeue_now none)
      else if st.object.spec.suspend
      then (st, answer no_result none)
      else reconcile_active st

  -- Whether the deferred patch records the observed generation. A panic leaves both named results
  -- of Reconcile at their zero values.
  unfoldable pub observes_generation : Verdict → Bool
  observes_generation panic = true
  observes_generation (answer result (some f)) = f.terminal
  observes_generation (answer result none) = is_zero result || not result.requeue

  -- Errors that only make the object wait are dropped.
  unfoldable pub ignore_waits : Verdict → Verdict
  ignore_waits panic = panic
  ignore_waits (answer result none) = answer result none
  ignore_waits (answer result (some f)) =
      elim (ignore f.cause (Errors.wait_for_dependency ∷ Errors.wait_for_chart ∷ [])) [
        | none ↦ answer result none
        | some e ↦ answer result (some f)
      ]

  -- The error of the patch is joined to one that is there, whose cause is kept here.
  unfoldable pub join_error : Option Error → Verdict → Verdict
  join_error none verdict = verdict
  join_error (some e) panic = panic
  join_error (some e) (answer result (some f)) = answer result (some f)
  join_error (some e) (answer result none) =
      answer result (some (record { terminal = false; cause = e }))

  unfoldable pub patch_error : HelmRelease → Option Error → Option Error
  patch_error obj none = none
  patch_error obj (some e) = if obj.deleting && is e Errors.not_found then none else some e

  unfoldable pub note_request : Run P.env.World → Run P.env.World
  note_request st = elim (P.reconcile_annotation st.object.annotations) [
    | none ↦ st
    | some v ↦ update_status (λ t. record t { last_handled_reconcile_at = v }) st
  ]

  -- The deferred function.
  unfoldable pub finish : Run P.env.World → Verdict → Run P.env.World × Verdict
  finish st verdict =
      let noted = note_request st in
      let (w, e) = P.final_patch noted.world noted.object (observes_generation verdict) in
      (set_world w noted, join_error (patch_error noted.object e) (ignore_waits verdict))

  -- The object is valid, so the deferred function runs whatever the body returns.
  unfoldable pub reconcile_valid : Run P.env.World → Run P.env.World × Verdict
  reconcile_valid st = let (ended, verdict) = reconcile_object st in finish ended verdict

  unfoldable pub reconcile_found : Run P.env.World → Run P.env.World × Verdict
  reconcile_found st =
      if not (is_valid_chart_ref st.object)
      then (st, terminal_with (Errors.external "invalid Chart reference"))
      else reconcile_valid st

  -- Reconcile, of a world and the namespace and name of an object.
  unfoldable pub reconcile : P.env.World → String × String → P.env.World × Verdict
  reconcile w key = elim (P.get_object w key) [
    | err e ↦ (w, if is e Errors.not_found then answer no_result none else fail_with e)
    | ok obj ↦
        let (ended, verdict) = reconcile_found (record { object = obj; world = w; events = [] }) in
        (ended.world, verdict)
  ]
