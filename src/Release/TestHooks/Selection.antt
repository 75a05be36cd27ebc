-- ===== src/Release/TestHooks/Selection.antt =====
-- Which test hooks the filters select (internal/release/util.go).
use helm_controller.Base.{
  ◌≡◌, String, Bool, true, false, not, ◌&&◌, ◌||◌, List, [], ◌∷◌, str_eq, if◌then◌else◌, arith,
}
use helm_controller.Api.Spec.{Filter}
use helm_controller.Release.TestHooks.{selected_from, is_test_hook_selected}

-- Some filter that excludes, or that includes, has the name.
unfoldable pub names_any : Bool → String → List Filter → Bool
names_any excluding name [] = false
names_any excluding name (f ∷ fs) =
    let rest = names_any excluding name fs in
    (if f.exclude then excluding else not excluding) && str_eq f.name name || rest

unfoldable pub includes_some : List Filter → Bool
includes_some [] = false
includes_some (f ∷ fs) = not f.exclude || includes_some fs

selected_from_lem :
    (has_include included : Bool) (name : String) (fs : List Filter)
    → selected_from has_include included name fs ≡ (
        not (names_any true name fs)
        && (not (has_include || includes_some fs) || (included || names_any false name fs)))
unfolding selected_from names_any includes_some
selected_from_lem has_include included name [] = ground arith
selected_from_lem has_include included name (f ∷ fs) = ground (
  arith,
  selected_from_lem true (included || str_eq f.name name) name fs,
  selected_from_lem has_include included name fs,
)

-- A test hook is selected if and only if no filter excludes its name and, where any filter includes,
-- one of them includes its name. The order of the filters does not matter.
pub is_test_hook_selected_lem :
    (name : String) (fs : List Filter)
    → is_test_hook_selected name fs
      ≡ (not (names_any true name fs) && (not (includes_some fs) || names_any false name fs))
unfolding is_test_hook_selected
is_test_hook_selected_lem name fs = selected_from_lem false false name fs
