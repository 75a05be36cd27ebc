-- ===== src/Api/Snapshots.antt =====
-- api/v2/snapshot_types.go: the snapshots of the releases that were made for a HelmRelease, and the
-- history that they form.
pub mod Order
pub mod Previous
pub mod Truncate
pub mod Bounds
use helm_controller.Base.{
  ℕ, suc, ◌+◌, String, Bool, true, false, not, ◌&&◌, ◌||◌, List, [], ◌∷◌, Option, none, some, ltb,
  leb, ◌==◌, if◌then◌else◌, length, take, head?, str_eq,
}
use helm_controller.Helm
use helm_controller.Helm.{HookPhase, phase_succeeded, phase_failed, same_phase, same_status}
use helm_controller.Api.Conditions.{
  ReleaseAction, no_action, Arg, no_name, full_release_name, versioned_chart_name,
}

pub record TestHookStatus : Type 0 where
  pub last_started : ℕ
  pub last_completed : ℕ
  pub phase : HookPhase

-- A `map[string]*TestHookStatus`; a `nil` entry is `none`.
abbrev pub TestHooks : Type 0
TestHooks = List (String × Option TestHookStatus)

pub record Snapshot : Type 0 where
  pub api_version : String
  pub digest : String
  pub name : String
  pub namespace : String
  pub version : ℕ
  pub status : Helm.Status
  pub action : ReleaseAction
  pub chart_name : String
  pub chart_version : String
  pub app_version : String
  pub config_digest : String
  pub first_deployed : ℕ
  pub last_deployed : ℕ
  pub deleted : ℕ
  pub test_hooks : Option TestHooks
  pub oci_digest : String

abbrev pub Snapshots : Type 0
Snapshots = List Snapshot

abbrev pub snapshot_api_version2 : String
snapshot_api_version2 = "v2"

abbrev pub current_snapshot_api_version : String
current_snapshot_api_version = snapshot_api_version2

abbrev pub default_max_history : ℕ
default_max_history = 5

-- `sort.Slice` with `in[i].Version > in[j].Version`: insertion in descending order.
insert_version : Snapshot → Snapshots → Snapshots
insert_version s [] = s ∷ []
insert_version s (t ∷ ts) = if ltb s.version t.version then t ∷ insert_version s ts else s ∷ t ∷ ts

unfoldable pub sort_by_version : Snapshots → Snapshots
unfolding insert_version
sort_by_version [] = []
sort_by_version (s ∷ ss) = insert_version s (sort_by_version ss)

-- The value that `Latest` returns; it also leaves the history in the order of `sort_by_version`.
unfoldable pub latest : Snapshots → Option Snapshot
latest ss = head? (sort_by_version ss)

-- GetTestHooks and HasTestInPhase.
unfoldable pub get_test_hooks : Snapshot → TestHooks
get_test_hooks s = elim (s.test_hooks) [ none ↦ [] | some hooks ↦ hooks ]

hook_in_phase : HookPhase → Option TestHookStatus → Bool
hook_in_phase phase none = false
hook_in_phase phase (some h) = same_phase h.phase phase

any_hook_in_phase : HookPhase → TestHooks → Bool
unfolding hook_in_phase
any_hook_in_phase phase [] = false
any_hook_in_phase phase ((k, h) ∷ hooks) = hook_in_phase phase h || any_hook_in_phase phase hooks

unfoldable pub has_test_in_phase : Snapshot → HookPhase → Bool
unfolding any_hook_in_phase get_test_hooks
has_test_in_phase s phase = any_hook_in_phase phase (get_test_hooks s)

all_hooks_succeeded : TestHooks → Bool
unfolding hook_in_phase
all_hooks_succeeded [] = true
all_hooks_succeeded ((k, h) ∷ hooks) = hook_in_phase phase_succeeded h && all_hooks_succeeded hooks

has_been_tested_hooks : Option TestHooks → Bool
unfolding any_hook_in_phase all_hooks_succeeded
has_been_tested_hooks none = false
has_been_tested_hooks (some []) = true
has_been_tested_hooks (some hooks) =
    if any_hook_in_phase phase_failed hooks then true else all_hooks_succeeded hooks

unfoldable pub has_been_tested : Snapshot → Bool
unfolding has_been_tested_hooks
has_been_tested s = has_been_tested_hooks s.test_hooks

-- The condition under which `Previous` and `Truncate` stop at a snapshot.
unfoldable pub is_rollback_target : Bool → Snapshot → Bool
unfolding has_test_in_phase
is_rollback_target ignore_tests s =
    (same_status s.status Helm.deployed || same_status s.status Helm.superseded)
    && (ignore_tests || not (has_test_in_phase s phase_failed))

pub find_target : Bool → Snapshots → Option Snapshot
unfolding is_rollback_target
find_target ignore_tests [] = none
find_target ignore_tests (s ∷ ss) =
    if is_rollback_target ignore_tests s then some s else find_target ignore_tests ss

previous_sorted : Bool → Snapshots → Option Snapshot
unfolding find_target
previous_sorted ignore_tests [] = none
previous_sorted ignore_tests (s ∷ ss) = find_target ignore_tests ss

unfoldable pub previous : Bool → Snapshots → Option Snapshot
unfolding previous_sorted sort_by_version
previous ignore_tests ss =
    if ltb (length ss) 2 then none else previous_sorted ignore_tests (sort_by_version ss)

-- `(*in)[:i+2]` at the first rollback target behind the latest snapshot, `none` if there is none.
pub cut_at_target : Bool → Snapshots → Option Snapshots
unfolding is_rollback_target
cut_at_target ignore_tests [] = none
cut_at_target ignore_tests (s ∷ ss) =
    let rest = cut_at_target ignore_tests ss in
    if is_rollback_target ignore_tests s
    then some (s ∷ [])
    else elim rest [ none ↦ none | some kept ↦ some (s ∷ kept) ]

limit_history : Snapshots → Snapshots
limit_history ss = if ltb default_max_history (length ss) then take default_max_history ss else ss

truncate_sorted : Bool → Snapshots → Snapshots
unfolding cut_at_target limit_history
truncate_sorted ignore_tests [] = []
truncate_sorted ignore_tests (s ∷ ss) = elim (cut_at_target ignore_tests ss) [
  | none ↦ limit_history (s ∷ ss)
  | some kept ↦ s ∷ kept
]

unfoldable pub truncate : Bool → Snapshots → Snapshots
unfolding truncate_sorted sort_by_version
truncate ignore_tests ss =
    if ltb (length ss) 2 then ss else truncate_sorted ignore_tests (sort_by_version ss)

unfoldable pub truncate_ignoring_previous_snapshots : Snapshots → Snapshots
unfolding limit_history sort_by_version
truncate_ignoring_previous_snapshots ss = limit_history (sort_by_version ss)

-- The names are printed by the constructors of `Arg`, and a `nil` snapshot prints the empty name.
unfoldable pub full_name_of : Option Snapshot → Arg
full_name_of none = no_name
full_name_of (some s) = full_release_name s.namespace s.name s.version

unfoldable pub chart_name_of : Option Snapshot → Arg
chart_name_of none = no_name
chart_name_of (some s) = versioned_chart_name s.chart_name s.chart_version

-- `hooks` is `none` for a `nil` map.
unfoldable pub set_test_hooks : Snapshot → Option TestHooks → Snapshot
set_test_hooks s none = s
set_test_hooks s (some hooks) = record s { test_hooks = some hooks }

unfoldable pub targets : Snapshot → String → String → ℕ → Bool
targets s name namespace version =
    str_eq s.name name && str_eq s.namespace namespace && s.version == version

unfoldable pub get_action : Option Snapshot → ReleaseAction
get_action none = no_action
get_action (some s) = s.action
