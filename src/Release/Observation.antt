-- ===== src/Release/Observation.antt =====
-- internal/release/observation.go and util.go: the observation that is made of a Helm release.
use helm_controller.Base.{
  ℕ, String, Bool, false, not, ◌&&◌, ◌||◌, List, [], ◌∷◌, ◌==◌, str_eq, if◌then◌else◌,
}
use helm_controller.Helm
use helm_controller.Helm.{Value, Hook, HookEvent, Info, ChartMetadata, Release, event_code}
use helm_controller.Api.Conditions.{ReleaseAction, no_action}

pub record Observation : Type 0 where
  pub name : String
  pub version : ℕ
  pub info : Info
  pub action : ReleaseAction
  pub chart_metadata : ChartMetadata
  pub config : Value
  pub manifest : String
  pub hooks : List Hook
  pub namespace : String
  pub oci_digest : String

any_event : HookEvent → List HookEvent → Bool
any_event event [] = false
any_event event (e ∷ es) = event_code e == event_code event || any_event event es

unfoldable pub is_hook_for_event : Hook → HookEvent → Bool
unfolding any_event
is_hook_for_event hook event = any_event event hook.events

-- The loop of IgnoreHookTestEvents.
unfoldable pub ignore_test_hooks : List Hook → List Hook
unfolding is_hook_for_event
ignore_test_hooks [] = []
ignore_test_hooks (h ∷ hs) =
    let rest = ignore_test_hooks hs in
    if not (is_hook_for_event h Helm.test) then h ∷ rest else rest

unfoldable pub ignore_hook_test_events : Observation → Observation
unfolding ignore_test_hooks
ignore_hook_test_events obs = record obs { hooks = ignore_test_hooks obs.hooks }

-- An empty config is observed as `nil`.
config_or_nil : Value → Value
config_or_nil (Helm.mapping Helm.no_fields) = Helm.null
config_or_nil v = v

-- ObserveRelease with its default filter, on a release that is not `nil`.
unfoldable pub observe_release : Release → Observation
unfolding ignore_hook_test_events config_or_nil
observe_release rel = ignore_hook_test_events (record {
  name = rel.name;
  version = rel.version;
  info = rel.info;
  action = no_action;
  chart_metadata = rel.chart;
  config = config_or_nil rel.config;
  manifest = rel.manifest;
  hooks = rel.hooks;
  namespace = rel.namespace;
  oci_digest = "";
})

-- `Targets` of an observation; version 0 matches any version.
unfoldable pub targets : Observation → String → String → ℕ → Bool
targets o name namespace version =
    str_eq o.name name && str_eq o.namespace namespace && (version == 0 || o.version == version)
