-- ===== src/Controller/Stages/Same.antt =====
-- The stages of reconcileRelease change nothing of a HelmRelease but its status, and none of them ends
-- a reconciliation without an error, a requeue or a delay.
use helm_controller.Base.{◌≡◌, refl, String, Bool, false, List, [], ◌∷◌, Option, none, some, arith}
use helm_controller.Api.Conditions.{
  dependency_not_ready, access_denied, artifact_failed, source_not_ready, values_error,
  rest_client_error, factory_error,
}
use helm_controller.Helm.{ChartMetadata, Value}
use helm_controller.Api.Conditions.{Reason}
use helm_controller.Api.HelmRelease.{clear_failures, clear_history}
use helm_controller.External.Platform.{Platform, Settings, Source, Artifact}
use helm_controller.Action.Reset.{must_reset_failures, should_handle_reset_request}
use helm_controller.Reconcile.Request.{Request, Run}
use helm_controller.Reconcile.Summary.Frame.{SameObject, SameObject-trans}
use helm_controller.Reconcile.Actions.Uninstall.Frame.{uninstall_reconcile_same}
use helm_controller.Controller.Flow.{
  Verdict, answer, panic, is_zero, Step, stop, go, Flow, ◌>>=◌, ◌>>◌, modify, pass,
}
use helm_controller.Controller.Clients.{Getter}
use helm_controller.Controller.Delete.{reconcile_uninstall}
use helm_controller.Controller.Stages.{
  clear_stale, start, confirm_dependencies, dependency_failed, resolve_source, source_failed,
  confirm_source, compose_values, load_chart, load_failed, mutate_chart, build_getter,
  build_manager,
}
use helm_controller.Controller.Release.{
  check_target, uninstall_target, forget_target, record_attempt, build_factory, attempt,
  reach_target, open_chart, gather, prepare,
}

-- The run at the end of a step.
abbrev pub step_run : {World A : Type 0} → Step World A → Run World
step_run (stop st verdict) = st
step_run (go st a) = st

-- No error, no requeue and no delay. What comes with an error does not count, whichever it is.
abbrev pub is_dropped : Verdict → Bool
is_dropped (answer r none) = is_zero r
is_dropped (answer r (some f)) = false
is_dropped panic = false

abbrev pub drops : {World A : Type 0} → Step World A → Bool
drops (stop st verdict) = is_dropped verdict
drops (go st a) = false

-- A step that changes only the status, and does not drop the object.
abbrev pub Keeps : {World A : Type 0} → Flow World A → Type 0
Keeps {World} m = (st : Run World) → SameObject st (step_run (m st)) × (drops (m st) ≡ false)

pub >>=-Keeps :
    {World A B : Type 0} (m : Flow World A) (f : A → Flow World B)
    → Keeps m
    → ((a : A) → Keeps (f a))
    → Keeps (m >>= f)
>>=-Keeps {World} {A} {B} m f k l st = by_step (m st) (k st)
  where
    by_step :
        (r : Step World A)
        → SameObject st (step_run r) × (drops r ≡ false)
        → (let t = elim r as (λ x. Step World B) [
          | stop end verdict ↦ stop end verdict
          | go next a ↦ f a next
        ] in
            SameObject st (step_run t) × (drops t ≡ false))
    by_step (stop end verdict) h = h
    by_step (go next a) (h, k) =
        (SameObject-trans st next (step_run (f a next)) h (l a next).0, (l a next).1)

>>-Keeps :
    {World B : Type 0} (m : Flow World (Unit {0})) (k : Flow World B)
    → Keeps m
    → Keeps k
    → Keeps (m >> k)
>>-Keeps m k h l = >>=-Keeps m (λ _. k) h (λ _. l)

module _ (P : Platform) (s : Settings) where
  clear_stale-Keeps : (reasons : List Reason) → Keeps (clear_stale P s reasons)
  unfolding clear_stale
  clear_stale-Keeps reasons st = ground arith

  start-Keeps : Keeps (start P s)
  unfolding start
  start-Keeps st = ground arith

  confirm_dependencies-Keeps : Keeps (confirm_dependencies P s)
  unfolding confirm_dependencies dependency_failed
  confirm_dependencies-Keeps st = ground arith

  resolve_source-Keeps : Keeps (resolve_source P s)
  unfolding resolve_source source_failed
  resolve_source-Keeps st = ground arith

  confirm_source-Keeps : (src : Source) → Keeps (confirm_source P s src)
  unfolding confirm_source
  confirm_source-Keeps src st = ground arith

  compose_values-Keeps : Keeps (compose_values P s)
  unfolding compose_values
  compose_values-Keeps st = ground arith

  load_chart-Keeps : (a : Option Artifact) → Keeps (load_chart P s a)
  unfolding load_chart load_failed
  load_chart-Keeps none st = (refl, refl)
  load_chart-Keeps (some a) st = ground arith

  mutate_chart-Keeps : (chart : ChartMetadata) (src : Source) → Keeps (mutate_chart P s chart src)
  unfolding mutate_chart
  mutate_chart-Keeps chart src st = ground arith

  build_getter-Keeps : Keeps (build_getter P s)
  unfolding build_getter
  build_getter-Keeps st = ground arith

  build_manager-Keeps : (getter : Getter P s) → Keeps (build_manager P s getter)
  unfolding build_manager
  build_manager-Keeps getter st = ground arith

  check_target-Keeps :
      (getter : Getter P s) (chart : ChartMetadata) → Keeps (check_target P s getter chart)
  unfolding check_target uninstall_target forget_target reconcile_uninstall clear_failures
      clear_history
  check_target-Keeps getter chart st = ground (arith, uninstall_reconcile_same P.env st)

  record_attempt-Keeps :
      (chart : ChartMetadata) (values : Value) (digest : String) (st : Run P.env.World)
      → SameObject st (record_attempt P s chart values digest st)
  unfolding record_attempt must_reset_failures should_handle_reset_request
  record_attempt-Keeps chart values digest st = ground arith

  build_factory-Keeps : (getter : Getter P s) → Keeps (build_factory P s getter)
  unfolding build_factory
  build_factory-Keeps getter st = ground arith

  attempt-Keeps :
      (getter : Getter P s) (chart : ChartMetadata) (values : Value) (digest : String)
      → Keeps (attempt P s getter chart values digest)
  unfolding attempt
  attempt-Keeps getter chart values digest =
      let last : Flow P.env.World Request = pass (record { chart = chart; values = values }) in
      let clear = clear_stale P s (factory_error ∷ []) in
      >>-Keeps (modify (record_attempt P s chart values digest))
        (build_factory P s getter >> (clear >> last))
        (λ st. (record_attempt-Keeps chart values digest st, refl))
        (>>-Keeps (build_factory P s getter) (clear >> last) (build_factory-Keeps getter)
          (>>-Keeps clear last (clear_stale-Keeps (factory_error ∷ [])) (λ end. (refl, refl))))

  reach_target-Keeps :
      (values : Value) (chart : ChartMetadata) (digest : String)
      → Keeps (reach_target P s values chart digest)
  unfolding reach_target
  reach_target-Keeps values chart digest =
      let clear = clear_stale P s (rest_client_error ∷ []) in
      let last : Getter P s → Flow P.env.World Request =
        λ getter. attempt P s getter chart values digest in
      let check : Getter P s → Flow P.env.World Request =
        λ getter. clear >> (check_target P s getter chart >> last getter) in
      >>=-Keeps (build_getter P s) (λ getter. build_manager P s getter >> check getter)
        build_getter-Keeps
        (λ getter. >>-Keeps (build_manager P s getter) (check getter) (build_manager-Keeps getter) (
          >>-Keeps clear (check_target P s getter chart >> last getter)
            (clear_stale-Keeps (rest_client_error ∷ []))
            (>>-Keeps (check_target P s getter chart) (last getter)
              (check_target-Keeps getter chart) (attempt-Keeps getter chart values digest))))

  open_chart-Keeps : (src : Source) (values : Value) → Keeps (open_chart P s src values)
  unfolding open_chart
  open_chart-Keeps src values =
      let clear = clear_stale P s (artifact_failed ∷ []) in
      let last : ChartMetadata × String → Flow P.env.World Request =
        λ mutated. reach_target P s values mutated.0 mutated.1 in
      let mutate : ChartMetadata → Flow P.env.World Request =
        λ loaded. mutate_chart P s loaded src >>= last in
      >>=-Keeps (load_chart P s src.artifact) (λ loaded. clear >> mutate loaded)
        (load_chart-Keeps src.artifact)
        (λ loaded. >>-Keeps clear (mutate loaded) (clear_stale-Keeps (artifact_failed ∷ [])) (
          >>=-Keeps (mutate_chart P s loaded src) last (mutate_chart-Keeps loaded src)
            (λ mutated. reach_target-Keeps values mutated.0 mutated.1)))

  gather-Keeps : Keeps (gather P s)
  unfolding gather
  gather-Keeps =
      let clear = clear_stale P s in
      let last : Source → Value → Flow P.env.World Request =
        λ src values. clear (values_error ∷ []) >> open_chart P s src values in
      let ready : Source → Flow P.env.World Request =
        λ src. clear (source_not_ready ∷ []) >> (compose_values P s >>= last src) in
      let found : Source → Flow P.env.World Request = λ src.
        clear (access_denied ∷ artifact_failed ∷ []) >> (confirm_source P s src >> ready src) in
      >>=-Keeps (resolve_source P s) found resolve_source-Keeps (λ src.
        >>-Keeps (clear (access_denied ∷ artifact_failed ∷ []))
          (confirm_source P s src >> ready src)
          (clear_stale-Keeps (access_denied ∷ artifact_failed ∷ []))
          (>>-Keeps (confirm_source P s src) (ready src) (confirm_source-Keeps src) (
            >>-Keeps (clear (source_not_ready ∷ [])) (compose_values P s >>= last src)
              (clear_stale-Keeps (source_not_ready ∷ []))
              (>>=-Keeps (compose_values P s) (last src) compose_values-Keeps (λ values.
                >>-Keeps (clear (values_error ∷ [])) (open_chart P s src values)
                  (clear_stale-Keeps (values_error ∷ [])) (open_chart-Keeps src values))))))

  pub prepare-Keeps : Keeps (prepare P s)
  unfolding prepare
  prepare-Keeps =
      let clear = clear_stale P s (dependency_not_ready ∷ []) in
      >>-Keeps (start P s) (confirm_dependencies P s >> (clear >> gather P s)) start-Keeps (
        >>-Keeps (confirm_dependencies P s) (clear >> gather P s) confirm_dependencies-Keeps (
          >>-Keeps clear (gather P s) (clear_stale-Keeps (dependency_not_ready ∷ [])) gather-Keeps))
