-- ===== src/Controller/Entry/Scheduled.antt =====
-- What brings an active HelmRelease back to the controller.
use helm_controller.Base.{◌≡◌, refl, Bool, true, false, not, ◌&&◌, ◌==◌, Option, none, some, arith}
use helm_controller.Api.Spec.{ActionStrategy, get_retry_interval, get_retry}
use helm_controller.Api.HelmRelease.{
  HelmRelease, get_active_retry, get_install, get_upgrade, active_retry_of,
}
use helm_controller.Api.Charts.{get_requeue_after}
use helm_controller.External.Platform.{Platform, Settings}
use helm_controller.Reconcile.Request.{Request, Run}
use helm_controller.Reconcile.Summary.Frame.{SameObject, SameObject-trans}
use helm_controller.Reconcile.Actions.{Exit, done, failed, panicked}
use helm_controller.Reconcile.Atomic.Loop.Bound.{reconcile_total}
use helm_controller.Reconcile.Atomic.Loop.Same.{reconcile_same}
use helm_controller.Reconcile.ChartTemplate.{reconcile_chart}
use helm_controller.Reconcile.ChartTemplate.Cleanup.{reconcile_chart_frame}
use helm_controller.Controller.Flow.{Step, stop, go}
use helm_controller.Controller.Delete.{
  helm_release_finalizer, contains_finalizer, reconcile_chart_template,
}
use helm_controller.Controller.Stages.Same.{is_dropped, step_run, drops, prepare-Keeps}
use helm_controller.Controller.Release.{
  answer_retry, answer_error, answer_exit, release_atomically, released_by, reconcile_release,
  prepare,
}
use helm_controller.Controller.Entry.{invalid_health_checks, reconcile_active, reconcile_object}

module _ (P : Platform) (s : Settings) where
  -- A retry, where there is one, comes after a delay that is not zero.
  unfoldable pub delays : Option ActionStrategy → Bool
  delays none = true
  delays (some retry) = not (P.jitter (get_retry_interval retry) == 0)

  -- The delays after a release and before a retry, of an install or an upgrade, are not zero.
  unfoldable pub has_delays : HelmRelease → Bool
  has_delays obj =
      not (P.jitter obj.spec.interval == 0)
      && delays (get_retry (get_install obj).strategy s.default_to_retry_on_failure)
      && delays (get_retry (get_upgrade obj).strategy s.default_to_retry_on_failure)

  -- They are read from the specification, so the delay of the active retry is one of them.
  active_retry_delays :
      (obj end : HelmRelease)
      → end ≡ record obj { status = end.status }
      → has_delays obj ≡ true
      → delays (get_active_retry end s.default_to_retry_on_failure) ≡ true
  unfolding has_delays delays get_active_retry active_retry_of get_install get_upgrade
  active_retry_delays obj end same h = ground arith

  answer_retry_kept :
      (r : Option ActionStrategy) → delays r ≡ true → is_dropped (answer_retry P s r) ≡ false
  unfolding answer_retry delays
  answer_retry_kept none h = refl
  answer_retry_kept (some retry) h = ground arith

  answer_exit_kept :
      (exit : Exit) (st end : Run P.env.World)
      → has_delays st.object ≡ true
      → SameObject st end
      → is_dropped (answer_exit P s exit end).1 ≡ false
  unfolding answer_exit answer_error has_delays get_requeue_after
  answer_exit_kept done st end h same = ground arith
  answer_exit_kept panicked st end h same = refl
  answer_exit_kept (failed e) st end h same = ground (
    arith,
    answer_retry_kept (get_active_retry end.object s.default_to_retry_on_failure)
        (active_retry_delays st.object end.object same h),
  )

  release_atomically_kept :
      (req : Request) (st next : Run P.env.World)
      → has_delays st.object ≡ true
      → SameObject st next
      → is_dropped (release_atomically P s req next).1 ≡ false
  unfolding release_atomically
  release_atomically_kept req st next h same =
      let ((end, exit), d) =
        reconcile_total P.env s.default_to_retry_on_failure s.field_manager
          s.disallowed_field_managers req next in
      let ended =
        reconcile_same P.env s.default_to_retry_on_failure s.field_manager
          s.disallowed_field_managers req next end exit d in
      ground (arith, d, answer_exit_kept exit st end h (SameObject-trans st next end same ended))

  released_by_kept :
      (r : Step P.env.World Request) (st : Run P.env.World)
      → has_delays st.object ≡ true
      → SameObject st (step_run r) × (drops r ≡ false)
      → is_dropped (released_by P s r).1 ≡ false
  released_by_kept (stop end verdict) st h (same, kept) = kept
  released_by_kept (go next req) st h (same, kept) = release_atomically_kept req st next h same

  has_delays-same :
      (st end : Run P.env.World)
      → SameObject st end
      → has_delays st.object ≡ true
      → has_delays end.object ≡ true
  unfolding has_delays get_install get_upgrade
  has_delays-same st end same h = ground arith

  reconcile_release_kept :
      (st : Run P.env.World)
      → has_delays st.object ≡ true
      → is_dropped (reconcile_release P s st).1 ≡ false
  unfolding reconcile_release
  reconcile_release_kept st h = released_by_kept (prepare P s st) st h (prepare-Keeps P s st)

  -- For an object that holds the finalizer, is not being deleted and is not suspended, and whose
  -- interval and retry intervals give delays that are not zero: if the body of Reconcile neither
  -- panics nor returns an error, its result is a requeue or a delay that is not zero, whatever the
  -- cluster, the storage and the Helm actions do. Nothing is said of a result with an error.
  pub reconcile_object-is_dropped :
      (st : Run P.env.World)
      → st.object.deleting ≡ false
      → st.object.spec.suspend ≡ false
      → contains_finalizer helm_release_finalizer st.object.finalizers ≡ true
      → has_delays st.object ≡ true
      → is_dropped (reconcile_object P s st).1 ≡ false
  unfolding reconcile_object reconcile_active reconcile_chart_template invalid_health_checks
  reconcile_object-is_dropped st alive active held h =
      let charted = (reconcile_chart P s st).0 in
      let kept =
        reconcile_release_kept charted
          (has_delays-same st charted (reconcile_chart_frame P s st) h) in
      ground (arith, kept)
