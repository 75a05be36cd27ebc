-- ===== src/Diff.antt =====
-- internal/diff/summarize.go: texts about a set of differences.
pub mod Counts
use helm_controller.Base.{
  ℕ, ◌+◌, ◌<>◌, String, Bool, true, false, not, ◌||◌, List, [], ◌∷◌, Option, none, some, str_eq,
  if◌then◌else◌,
}
use helm_controller.External.Cluster.{DiffType, diff_none, diff_create, diff_update, diff_exclude}

-- The operations of a JSON patch; others are not counted.
pub data PatchOperation : Type 0 where
  add replace remove other_operation : PatchOperation

-- A jsondiff.Diff, by its type, the kind, namespace and name of the desired object, and its patch.
pub record ResourceDiff : Type 0 where
  pub type : DiffType
  pub kind : String
  pub namespace : String
  pub name : String
  pub patch : List PatchOperation

abbrev pub same_diff_type : DiffType → DiffType → Bool
same_diff_type diff_none diff_none = true
same_diff_type diff_create diff_create = true
same_diff_type diff_update diff_update = true
same_diff_type diff_exclude diff_exclude = true
same_diff_type _ _ = false

abbrev pub default_diff_types : List DiffType
default_diff_types = diff_create ∷ diff_update ∷ diff_exclude ∷ []

unfoldable pub type_in_slice : DiffType → List DiffType → Bool
type_in_slice t [] = false
type_in_slice t (s ∷ ss) = if same_diff_type t s then true else type_in_slice t ss

-- A nil slice stands for the default.
abbrev pub included : Option (List DiffType) → List DiffType
included none = default_diff_types
included (some types) = types

unfoldable pub resource_name : ResourceDiff → String
resource_name d =
    d.kind
    <> ("/" <> (if not (str_eq d.namespace "") then d.namespace <> ("/" <> d.name) else d.name))

-- The fields that are added, changed and removed.
abbrev pub count_operation : PatchOperation → ℕ × ℕ × ℕ → ℕ × ℕ × ℕ
count_operation add (added, changed, removed) = (added + 1, changed, removed)
count_operation replace (added, changed, removed) = (added, changed + 1, removed)
count_operation remove (added, changed, removed) = (added, changed, removed + 1)
count_operation other_operation counts = counts

unfoldable pub summarize_update : List PatchOperation → ℕ × ℕ × ℕ
summarize_update [] = (0, 0, 0)
summarize_update (op ∷ ops) = count_operation op (summarize_update ops)

-- How many differences have each type, as counted for the brief summary.
pub record TypeCounts : Type 0 where
  pub removed : ℕ
  pub changed : ℕ
  pub excluded : ℕ
  pub unchanged : ℕ

abbrev pub count_type : DiffType → TypeCounts → TypeCounts
count_type diff_create c = record c { removed = c.removed + 1 }
count_type diff_update c = record c { changed = c.changed + 1 }
count_type diff_exclude c = record c { excluded = c.excluded + 1 }
count_type diff_none c = record c { unchanged = c.unchanged + 1 }

unfoldable pub count_types : List ResourceDiff → TypeCounts
count_types [] = record { removed = 0; changed = 0; excluded = 0; unchanged = 0 }
count_types (d ∷ ds) = count_type d.type (count_types ds)

-- `decimal` writes a number in decimal digits.
module _ (decimal : ℕ → String) where
  abbrev update_text : ℕ × ℕ × ℕ → String
  update_text (added, changed, removed) =
      " changed ("
      <> (decimal added
          <> (" additions, "
              <> (decimal changed <> (" changes, " <> (decimal removed <> " removals)\n")))))

  unfoldable pub line_of : ResourceDiff → String
  line_of d = elim (d.type) [
    | diff_none ↦ resource_name d <> " unchanged\n"
    | diff_create ↦ resource_name d <> " removed\n"
    | diff_exclude ↦ resource_name d <> " excluded\n"
    | diff_update ↦ resource_name d <> update_text (summarize_update d.patch)
  ]

  -- SummarizeDiffSet before the text is trimmed, of differences that are not nil.
  unfoldable pub summarize_diff_set : List ResourceDiff → Option (List DiffType) → String
  summarize_diff_set [] include = ""
  summarize_diff_set (d ∷ ds) include =
      let rest = summarize_diff_set ds include in
      if not (type_in_slice d.type (included include)) then rest else line_of d <> rest

  abbrev count_text : TypeCounts → DiffType → String
  count_text c diff_create = "removed: " <> decimal c.removed
  count_text c diff_update = "changed: " <> decimal c.changed
  count_text c diff_exclude = "excluded: " <> decimal c.excluded
  count_text c diff_none = "unchanged: " <> decimal c.unchanged

  -- The counts of the included types, separated by `, `.
  unfoldable pub brief_of : TypeCounts → List DiffType → String
  brief_of c [] = ""
  brief_of c (t ∷ []) = count_text c t
  brief_of c (t ∷ u ∷ ts) = count_text c t <> (", " <> brief_of c (u ∷ ts))

  -- SummarizeDiffSetBrief.
  unfoldable pub summarize_diff_set_brief : List ResourceDiff → Option (List DiffType) → String
  summarize_diff_set_brief ds include = brief_of (count_types ds) (included include)
