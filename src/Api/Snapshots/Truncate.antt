-- ===== src/Api/Snapshots/Truncate.antt =====
-- What `Truncate` keeps of the history (api/v2/snapshot_types.go).
use helm_controller.Base.{
  ℕ, zero, suc, ◌≤◌, ◌<◌, ◌⊎◌, ◌≡◌, refl, sym, ap, ◌∙◌, Bool, true, false, [], ◌∷◌, none, some,
  arith, ltb, Bool-cases, Option-cases, inl, inr, All, length, take, tail, head?,
}
use helm_controller.Api.Snapshots.{
  Snapshot, Snapshots, default_max_history, sort_by_version, latest, is_rollback_target,
  find_target, previous, cut_at_target, limit_history, truncate_sorted, truncate,
  truncate_ignoring_previous_snapshots,
}
use helm_controller.Api.Snapshots.Previous.{previous-eq}
use helm_controller.Api.Snapshots.Order.{IsSorted, sort-IsSorted, sort_of_IsSorted}

-- `cut_at_target` keeps a prefix that ends at the first rollback target.
pub cut_none : (ig : Bool) (ss : Snapshots) → cut_at_target ig ss ≡ none → find_target ig ss ≡ none
unfolding cut_at_target find_target
cut_none ig [] e = refl
cut_none ig (s ∷ ss) e = ground (arith, cut_none ig ss)

pub cut-cons :
    (ig : Bool) (s : Snapshot) (ss kept : Snapshots)
    → cut_at_target ig (s ∷ ss) ≡ some kept
    → (is_rollback_target ig s ≡ true) × (kept ≡ s ∷ [])
      ⊎ ((more : Snapshots) × (is_rollback_target ig s ≡ false)
          × (cut_at_target ig ss ≡ some more)
          × (kept ≡ s ∷ more))
unfolding cut_at_target
cut-cons ig s ss kept e = elim (Bool-cases (is_rollback_target ig s)) [
  | inl t ↦ inl (t, ground arith)
  | inr t ↦ elim (Option-cases (cut_at_target ig ss)) [
    | inl c ↦ absurd (ground arith)
    | inr (more, c) ↦ inr (more, t, c, ground arith)
  ]
]

cut_find :
    (ig : Bool) (ss kept : Snapshots)
    → cut_at_target ig ss ≡ some kept
    → (find_target ig kept ≡ find_target ig ss) × (0 < length kept)
unfolding find_target
cut_find ig [] kept e = unfold cut_at_target in cc
cut_find ig (s ∷ ss) kept e = elim (cut-cons ig s ss kept e) [
  | inl (t, k) ↦ rw k (ground arith, omega arith)
  | inr (more, t, c, k) ↦ let ih = cut_find ig ss more c in rw k (ground arith, omega arith)
]

cut-All :
    (P : Snapshot → Type 0) (ig : Bool) (ss kept : Snapshots)
    → cut_at_target ig ss ≡ some kept
    → All P ss
    → All P kept
cut-All P ig [] kept e h = unfold cut_at_target in cc
cut-All P ig (s ∷ ss) kept e h = elim (cut-cons ig s ss kept e) [
  | inl (t, k) ↦ rw k (h.0, tt)
  | inr (more, t, c, k) ↦ rw k (h.0, cut-All P ig ss more c h.1)
]

cut-IsSorted :
    (ig : Bool) (ss kept : Snapshots)
    → cut_at_target ig ss ≡ some kept
    → IsSorted ss
    → IsSorted kept
cut-IsSorted ig [] kept e h = unfold cut_at_target in cc
cut-IsSorted ig (s ∷ ss) kept e h = elim (cut-cons ig s ss kept e) [
  | inl (t, k) ↦ rw k (tt, tt)
  | inr (more, t, c, k) ↦
      rw k (cut-All (λ u. u.version ≤ s.version) ig ss more c h.0, cut-IsSorted ig ss more c h.1)
]

take-All : (P : Snapshot → Type 0) (n : ℕ) (ss : Snapshots) → All P ss → All P (take n ss)
take-All P zero ss h = tt
take-All P (suc n) [] h = tt
take-All P (suc n) (s ∷ ss) h = (h.0, take-All P n ss h.1)

take-IsSorted : (n : ℕ) (ss : Snapshots) → IsSorted ss → IsSorted (take n ss)
take-IsSorted zero ss h = tt
take-IsSorted (suc n) [] h = tt
take-IsSorted (suc n) (s ∷ ss) h =
    (take-All (λ t. t.version ≤ s.version) n ss h.0, take-IsSorted n ss h.1)

find_target-take :
    (ig : Bool) (n : ℕ) (ss : Snapshots)
    → find_target ig ss ≡ none
    → find_target ig (take n ss) ≡ none
unfolding find_target
find_target-take ig zero ss e = refl
find_target-take ig (suc n) [] e = refl
find_target-take ig (suc n) (s ∷ ss) e = ground (arith, find_target-take ig n ss)

-- What `truncate` makes of a history that is sorted.
record Keeps (ig : Bool) (srt kept : Snapshots) : Type 0 where
  sorted : IsSorted kept
  same_latest : head? kept ≡ head? srt
  same_previous : find_target ig (tail kept) ≡ find_target ig (tail srt)

limit-Keeps :
    (ig : Bool) (srt : Snapshots)
    → IsSorted srt
    → find_target ig (tail srt) ≡ none
    → Keeps ig srt (limit_history srt)
unfolding limit_history
limit-Keeps ig [] h e = record { sorted = tt; same_latest = refl; same_previous = refl }
limit-Keeps ig (s ∷ ss) h e = elim (Bool-cases (ltb default_max_history (length (s ∷ ss)))) [
  | inl long ↦ rw long (record {
    sorted = take-IsSorted 5 (s ∷ ss) h;
    same_latest = refl;
    same_previous = find_target-take ig 4 ss e ∙ sym e;
  })
  | inr short ↦ rw short (record { sorted = h; same_latest = refl; same_previous = refl })
]

truncate_sorted-Keeps :
    (ig : Bool) (srt : Snapshots) → IsSorted srt → Keeps ig srt (truncate_sorted ig srt)
unfolding truncate_sorted
truncate_sorted-Keeps ig [] h = record { sorted = tt; same_latest = refl; same_previous = refl }
truncate_sorted-Keeps ig (s ∷ ss) h = elim (Option-cases (cut_at_target ig ss)) [
  | inl c ↦ rw (c, truncate_sorted) (limit-Keeps ig (s ∷ ss) h (cut_none ig ss c))
  | inr (kept, c) ↦
      rw (c, truncate_sorted)
        (record {
          sorted = (
            cut-All (λ u. u.version ≤ s.version) ig ss kept c h.0,
            cut-IsSorted ig ss kept c h.1,
          );
          same_latest = refl;
          same_previous = (cut_find ig ss kept c).0;
        })
]

-- `Truncate` keeps the two releases that the controller relies on: what `Latest` and `Previous`
-- return is the same after it as before it.
pub latest-previous-truncate :
    (ig : Bool) (ss : Snapshots)
    → (latest (truncate ig ss) ≡ latest ss) × (previous ig (truncate ig ss) ≡ previous ig ss)
unfolding truncate latest
latest-previous-truncate ig ss = elim (Bool-cases (ltb (length ss) 2)) [
  | inl short ↦ rw short (refl, refl)
  | inr long ↦
      let k = truncate_sorted-Keeps ig (sort_by_version ss) (sort-IsSorted ss) in
      let T = truncate_sorted ig (sort_by_version ss) in
      let st : sort_by_version T ≡ T = sort_of_IsSorted T k.sorted in
      rw long (
        ap head? st ∙ k.same_latest,
        previous-eq ig T
            ∙ ap (λ l. find_target ig (tail l)) st
            ∙ k.same_previous
            ∙ sym (previous-eq ig ss),
      )
]

head?-limit : (ss : Snapshots) → head? (limit_history ss) ≡ head? ss
unfolding limit_history
head?-limit [] = refl
head?-limit (s ∷ ss) = ground arith

limit-IsSorted : (ss : Snapshots) → IsSorted ss → IsSorted (limit_history ss)
unfolding limit_history
limit-IsSorted ss h = ground (arith, take-IsSorted 5 ss h)

-- `TruncateIgnoringPreviousSnapshots` keeps what `Latest` returns.
pub latest-truncate_ignoring :
    (ss : Snapshots) → latest (truncate_ignoring_previous_snapshots ss) ≡ latest ss
unfolding truncate_ignoring_previous_snapshots latest
latest-truncate_ignoring ss =
    ap head? (
      sort_of_IsSorted (limit_history (sort_by_version ss))
        (limit-IsSorted (sort_by_version ss) (sort-IsSorted ss)))
    ∙ head?-limit (sort_by_version ss)
