-- ===== src/Reconcile/Actions/Drift.antt =====
-- internal/reconcile/correct_cluster_drift.go
use helm_controller.Base.{
  String, Bool, true, false, not, ◌||◌, List, [], ◌∷◌, map, Option, none, some, if◌then◌else◌,
}
use helm_controller.Errors.{Error}
use helm_controller.Api.Conditions.{
  ready, condition_unknown, progressing, printf, correcting_drift_fmt, drift_failed_fmt,
  drift_corrected_fmt, drift_correction_failed, drift_corrected, error, text,
}
use helm_controller.Api.Snapshots.{latest, full_name_of}
use helm_controller.Api.Spec.{get_mode, same_mode, enabled}
use helm_controller.Api.HelmRelease.{get_drift_detection}
use helm_controller.External.Cluster.{Env, Diff}
use helm_controller.Reconcile.Request.{Run, sort_history, set_world, mark}
use helm_controller.Reconcile.Actions.{Exit, done, emit_about}

abbrev pub is_empty : List Diff → Bool
is_empty [] = true
is_empty (d ∷ ds) = false

module _ (E : Env) where
  -- The event about the corrections that were made and the error that ended them.
  unfoldable pub drift_report : List String → Option Error → Run E.World → Run E.World × Exit
  drift_report changes (some e) st =
      let cur = latest st.object.status.history in
      emit_about true drift_correction_failed
        (printf drift_failed_fmt (full_name_of cur ∷ error e ∷ map text changes)) cur done
        (sort_history st)
  drift_report [] none st = (sort_history st, done)
  drift_report (c ∷ cs) none st =
      let cur = latest st.object.status.history in
      emit_about false drift_corrected
        (printf drift_corrected_fmt (full_name_of cur ∷ map text (c ∷ cs))) cur done
        (sort_history st)

  unfoldable pub drift_reconcile : List Diff → String → Run E.World → Run E.World × Exit
  drift_reconcile diffs field_manager st =
      let marked = mark E ready condition_unknown progressing (printf correcting_drift_fmt []) st in
      let (w, changes, e) = E.apply_diff marked.world diffs field_manager in
      if not (same_mode (get_mode (get_drift_detection st.object)) enabled) || is_empty diffs
      then (st, done)
      else drift_report changes e (set_world w marked)
