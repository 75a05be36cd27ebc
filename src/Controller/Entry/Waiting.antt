-- ===== src/Controller/Entry/Waiting.antt =====
-- What becomes of the stages that wait for a dependency, a source or an artifact, once Reconcile has
-- left out the errors of waits (internal/controller/helmrelease_controller.go).
use helm_controller.Base.{
  ◌≡◌, ◌⊎◌, refl, inl, inr, true, false, none, some, ◌==◌, arith, Bool-cases, Option-cases,
}
use helm_controller.Errors
use helm_controller.External.Platform.{Platform, Settings, Source, Failure, ReconcileResult}
use helm_controller.Reconcile.Request.{Run}
use helm_controller.Controller.Dependencies.{check_dependencies}
use helm_controller.Controller.Source.{is_source_ready}
use helm_controller.Controller.Flow.{Verdict, answer, Step, stop, go, is_zero}
use helm_controller.Controller.Stages.{
  is_empty, confirm_dependencies, dependency_failed, confirm_source, load_failed,
}
use helm_controller.Controller.Entry.{ignore_waits}

module _ (P : Platform) (s : Settings) where
  -- No error is left, and the object comes back after a delay or by a requeue.
  pub IsDelay : Verdict → Type 0
  IsDelay verdict =
      (r : ReconcileResult) × (ignore_waits P s verdict ≡ answer r none) × (is_zero r ≡ false)

  -- A stage goes on, or it delays the object.
  pub Delays : {A : Type 0} → Step P.env.World A → Type 0
  Delays (go st a) = Unit {0}
  Delays (stop st verdict) = IsDelay verdict

  -- A dependency fails for good, as with an expression that does not compile.
  abbrev pub IsTerminal : Run P.env.World → Type 0
  IsTerminal st =
      (f : Failure) × (check_dependencies P s st.world st.object ≡ some f) × (f.terminal ≡ true)

  dependency_failed-Delays :
      (f : Failure) (st : Run P.env.World)
      → f.terminal ≡ false
      → (s.dependency_requeue_interval == 0) ≡ false
      → Delays (dependency_failed P s f st)
  unfolding dependency_failed Delays IsDelay ignore_waits Errors.ignore Errors.is_one_of Errors.is
  dependency_failed-Delays f st t n = rw (t, dependency_failed) (_, refl, ground arith)

  confirm_dependencies-Delays :
      (st : Run P.env.World)
      → (s.dependency_requeue_interval == 0) ≡ false
      → IsTerminal st ⊎ Delays (confirm_dependencies P s st)
  unfolding confirm_dependencies
  confirm_dependencies-Delays st n =
      elim (Option-cases (check_dependencies P s st.world st.object)) [
        | inl e ↦ elim (Bool-cases (is_empty st.object.spec.depends_on)) [
          | inl x ↦ inr (rw (x, confirm_dependencies) (unfold Delays in tt))
          | inr x ↦ inr (rw (x, e, confirm_dependencies) (unfold Delays in tt))
        ]
        | inr (f, e) ↦ elim (Bool-cases f.terminal) [
          | inl t ↦ inl (f, e, t)
          | inr t ↦ elim (Bool-cases (is_empty st.object.spec.depends_on)) [
            | inl x ↦ inr (rw (x, confirm_dependencies) (unfold Delays in tt))
            | inr x ↦ inr (rw (x, e, confirm_dependencies) (dependency_failed-Delays f st t n))
          ]
        ]
      ]

  confirm_source-Delays :
      (src : Source) (st : Run P.env.World)
      → (P.jitter s.dependency_requeue_interval == 0) ≡ false
      → Delays (confirm_source P s src st)
  unfolding confirm_source Delays IsDelay ignore_waits Errors.ignore Errors.is_one_of Errors.is
  confirm_source-Delays src st n = elim (Option-cases (is_source_ready src.kind src)) [
    | inl e ↦ rw (e, confirm_source) tt
    | inr (m, e) ↦ rw (e, confirm_source) (_, refl, ground arith)
  ]

  -- Where the interval for dependencies is not zero, with jitter and without, a stage that waits only
  -- delays the object: the checks of the dependencies, unless one fails for good, and of the source
  -- go on, or return what leaves no error once Reconcile has left out the errors of waits, with a
  -- result that is not zero, and so does an artifact that is not found or has another digest.
  pub stages-Delays :
      (src : Source) (st : Run P.env.World)
      → (s.dependency_requeue_interval == 0) ≡ false
      → (P.jitter s.dependency_requeue_interval == 0) ≡ false
      → (IsTerminal st ⊎ Delays (confirm_dependencies P s st))
        × Delays (confirm_source P s src st)
        × Delays (load_failed P s Errors.file_not_found st)
        × Delays (load_failed P s Errors.digest_mismatch st)
  unfolding load_failed Delays IsDelay ignore_waits Errors.ignore Errors.is_one_of Errors.is
  stages-Delays src st n j = (
    confirm_dependencies-Delays st n,
    confirm_source-Delays src st j,
    (_, refl, ground arith),
    (_, refl, ground arith),
  )
