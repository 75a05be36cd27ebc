-- ===== src/Diff/Counts.antt =====
-- The counts of the brief summary.
use helm_controller.Base.{◌≡◌, refl, ℕ, ◌+◌, List, [], ◌∷◌, arith, if◌then◌else◌, length}
use helm_controller.External.Cluster.{DiffType, diff_none, diff_create, diff_update, diff_exclude}
use helm_controller.Diff.{ResourceDiff, same_diff_type, count_types}

abbrev pub with_type : DiffType → List ResourceDiff → ℕ
with_type t [] = 0
with_type t (d ∷ ds) = if same_diff_type t d.type then with_type t ds + 1 else with_type t ds

-- Each count is the number of differences with its type, and together they are all differences.
pub count_types_lem :
    (ds : List ResourceDiff)
    → let c = count_types ds in
      (c.removed ≡ with_type diff_create ds)
      × (c.changed ≡ with_type diff_update ds)
      × (c.excluded ≡ with_type diff_exclude ds)
      × (c.unchanged ≡ with_type diff_none ds)
      × (c.removed + c.changed + c.excluded + c.unchanged ≡ length ds)
unfolding count_types
count_types_lem [] = (refl, refl, refl, refl, refl)
count_types_lem (d ∷ ds) = ground (arith, count_types_lem ds)
