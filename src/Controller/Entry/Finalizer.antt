-- ===== src/Controller/Entry/Finalizer.antt =====
-- The finalizer of a HelmRelease that is not being deleted.
use helm_controller.Base.{
  ◌≡◌, ◌⊎◌, refl, String, true, false, List, [], ◌∷◌, ◌++◌, arith, Option-cases, inl, inr,
}
use helm_controller.Errors.{Error}
use helm_controller.External.Platform.{Platform, Settings}
use helm_controller.Reconcile.Request.{Request, Run}
use helm_controller.Reconcile.Summary.Frame.{SameObject, SameObject-trans}
use helm_controller.Reconcile.Actions.{Exit, done, failed, panicked}
use helm_controller.Reconcile.Atomic.Loop
use helm_controller.Reconcile.Atomic.Loop.Same.{reconcile_same}
use helm_controller.Reconcile.ChartTemplate.{reconcile_chart}
use helm_controller.Reconcile.ChartTemplate.Cleanup.{reconcile_chart_frame}
use helm_controller.Controller.Flow.{Step, stop, go}
use helm_controller.Controller.Delete.{
  helm_release_finalizer, contains_finalizer, reconcile_chart_template,
}
use helm_controller.Controller.Stages.Same.{step_run, prepare-Keeps}
use helm_controller.Controller.Release.{
  canceled, answer_exit, release_atomically, released_by, reconcile_release, prepare,
}
use helm_controller.Controller.Entry.{
  invalid_health_checks, reconcile_active, add_finalizer, reconcile_object,
}

contains_finalizer-append :
    (fs : List String)
    → contains_finalizer helm_release_finalizer (fs ++ helm_release_finalizer ∷ []) ≡ true
unfolding contains_finalizer
contains_finalizer-append [] = refl
contains_finalizer-append (f ∷ fs) = ground (arith, contains_finalizer-append fs)

module _ (P : Platform) (s : Settings) where
  answer_exit_same :
      (exit : Exit) (st : Run P.env.World) → SameObject st (answer_exit P s exit st).0
  unfolding answer_exit canceled
  answer_exit_same done st = refl
  answer_exit_same panicked st = refl
  answer_exit_same (failed e) st = ground arith

  release_atomically_same :
      (req : Request) (st : Run P.env.World) → SameObject st (release_atomically P s req st).0
  unfolding release_atomically
  release_atomically_same req st =
      elim (Option-cases (
        Loop.reconcile P.env s.default_to_retry_on_failure s.field_manager
          s.disallowed_field_managers req st)) [
            | inl h ↦ ground arith
            | inr ((ended, exit), h) ↦ ground (
              arith,
              reconcile_same P.env s.default_to_retry_on_failure s.field_manager
                  s.disallowed_field_managers req st ended exit h,
              answer_exit_same exit ended,
            )
          ]

  released_by_same :
      (st : Run P.env.World) (r : Step P.env.World Request)
      → SameObject st (step_run r)
      → SameObject st (released_by P s r).0
  released_by_same st (stop end verdict) h = h
  released_by_same st (go next req) h =
      SameObject-trans st next (release_atomically P s req next).0 h
        (release_atomically_same req next)

  -- The reconciliation of a release changes nothing of a HelmRelease but its status.
  pub reconcile_release_same : (st : Run P.env.World) → SameObject st (reconcile_release P s st).0
  unfolding reconcile_release
  reconcile_release_same st = released_by_same st (prepare P s st) (prepare-Keeps P s st).0

  invalid_health_checks_same :
      (e : Error) (st : Run P.env.World) → SameObject st (invalid_health_checks P s e st).0
  unfolding invalid_health_checks
  invalid_health_checks_same e st = ground arith

  reconcile_active_same : (st : Run P.env.World) → SameObject st (reconcile_active P s st).0
  unfolding reconcile_active reconcile_chart_template
  reconcile_active_same st =
      elim (Option-cases (P.status_reader_error st.object.spec.health_check_exprs)) [
        | inl h ↦
            ground (
              arith,
              reconcile_chart_frame P s st,
              reconcile_release_same (reconcile_chart P s st).0,
            )
        | inr (e, h) ↦ ground (arith, invalid_health_checks_same e st)
      ]

  -- After the body of Reconcile, which runs for a HelmRelease whose chart reference is valid and stands
  -- before the deferred patch, an object that is not being deleted holds the finalizer, with its
  -- specification as it was. Nothing else is done before the object holds it: if it did not, the
  -- body leaves the world, the status and the events as before.
  pub reconcile_object-contains :
      (st : Run P.env.World)
      → st.object.deleting ≡ false
      → let end = (reconcile_object P s st).0 in
        (contains_finalizer helm_release_finalizer end.object.finalizers ≡ true)
        × (end.object.spec ≡ st.object.spec)
        × ((contains_finalizer helm_release_finalizer st.object.finalizers ≡ true)
            ⊎ ((end.world ≡ st.world)
                × (end.object.status ≡ st.object.status)
                × (end.events ≡ st.events)))
  unfolding reconcile_object add_finalizer
  reconcile_object-contains st alive = (
    ground (arith, reconcile_active_same st, contains_finalizer-append st.object.finalizers),
    ground (arith, reconcile_active_same st),
    ground arith,
  )
