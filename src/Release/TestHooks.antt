-- ===== src/Release/TestHooks.antt =====
-- internal/release/observation.go and util.go: which test hooks of a release are recorded.
use helm_controller.Base.{
  String, Bool, true, false, not, ◌||◌, List, [], ◌∷◌, some, str_eq, if◌then◌else◌,
}
pub mod Selection
use helm_controller.Helm
use helm_controller.Helm.{Hook, Release}
use helm_controller.Api.Snapshots.{TestHooks}
use helm_controller.Api.Spec.{Filter}
use helm_controller.Release.Observation.{is_hook_for_event}

-- The loop of isTestHookSelected over the filters, with its two flags.
unfoldable pub selected_from : Bool → Bool → String → List Filter → Bool
selected_from has_include included name [] = not has_include || included
selected_from has_include included name (f ∷ fs) =
    let included_rest = selected_from true (included || str_eq f.name name) name fs in
    let excluded_rest = selected_from has_include included name fs in
    if f.exclude then (if str_eq f.name name then false else excluded_rest) else included_rest

unfoldable pub is_test_hook_selected : String → List Filter → Bool
unfolding selected_from
is_test_hook_selected name filters = selected_from false false name filters

-- `th[h.Name] = h` of GetTestHooks.
put_hook : Hook → List Hook → List Hook
put_hook h [] = h ∷ []
put_hook h (g ∷ gs) = if str_eq g.name h.name then h ∷ gs else g ∷ put_hook h gs

collect_test_hooks : List Hook → List Hook → List Hook
unfolding put_hook is_hook_for_event
collect_test_hooks seen [] = seen
collect_test_hooks seen (h ∷ hs) =
    collect_test_hooks (if is_hook_for_event h Helm.test then put_hook h seen else seen) hs

unfoldable pub get_test_hooks : Release → List Hook
unfolding collect_test_hooks
get_test_hooks rls = collect_test_hooks [] rls.hooks

statuses_of : List Filter → List Hook → TestHooks
unfolding is_test_hook_selected
statuses_of filters [] = []
statuses_of filters (h ∷ hs) =
    let rest = statuses_of filters hs in
    if not (is_test_hook_selected h.name filters)
    then rest
    else (
      h.name,
      some (record {
        last_started = h.started_at;
        last_completed = h.completed_at;
        phase = h.phase;
      }),
    )
      ∷ rest

unfoldable pub test_hooks_from_release : Release → List Filter → TestHooks
unfolding statuses_of get_test_hooks
test_hooks_from_release rls filters = statuses_of filters (get_test_hooks rls)
