-- ===== src/Api/Snapshots/Bounds.antt =====
-- What `Truncate` drops of the history (api/v2/snapshot_types.go).
use helm_controller.Base.{
  ℕ, zero, suc, true, take, refl, sym, ◌≤◌, ◌⊎◌, ◌++◌, ◌≡◌, ap, ◌∙◌, Bool, [], ◌∷◌, none, some,
  arith, ltb, Bool-cases, Option-cases, inl, inr, length, tail,
}
use helm_controller.Api.Snapshots.{
  Snapshot, Snapshots, default_max_history, sort_by_version, find_target, previous, cut_at_target,
  limit_history, truncate_sorted, truncate,
}
use helm_controller.Api.Snapshots.Previous.{previous-eq}
use helm_controller.Api.Snapshots.Truncate.{cut-cons, cut_none}

-- What is kept of a list are the elements up to `p`, in their order.
pub EndsAt : Snapshot → Snapshots → Snapshots → Type 0
EndsAt p ss kept =
    (front : Snapshots) × (rest : Snapshots) × (ss ≡ front ++ p ∷ rest) × (kept ≡ front ++ p ∷ [])

cut_ends :
    (ig : Bool) (ss kept : Snapshots) (p : Snapshot)
    → cut_at_target ig ss ≡ some kept
    → find_target ig ss ≡ some p
    → EndsAt p ss kept
unfolding find_target EndsAt
cut_ends ig [] kept p e f = cc
cut_ends ig (s ∷ ss) kept p e f = elim (cut-cons ig s ss kept e) [
  | inl (t, k) ↦
      let same : s ≡ p = ground arith in ([], ss, ap (λ q. q ∷ ss) same, k ∙ ap (λ q. q ∷ []) same)
  | inr (more, t, c, k) ↦
      let (front, rest, whole, same) = cut_ends ig ss more p c (rw t at f) in
      (s ∷ front, rest, ap (λ l. s ∷ l) whole, k ∙ ap (λ l. s ∷ l) same)
]

find_of_cut :
    (ig : Bool) (ss kept : Snapshots)
    → cut_at_target ig ss ≡ some kept
    → find_target ig ss ≡ none
    → ⊥
unfolding find_target
find_of_cut ig [] kept e f = unfold cut_at_target in cc
find_of_cut ig (s ∷ ss) kept e f = elim (cut-cons ig s ss kept e) [
  | inl (t, k) ↦ absurd (ground arith)
  | inr (more, t, c, k) ↦ find_of_cut ig ss more c (rw t at f)
]

truncate_sorted_ends :
    (ig : Bool) (srt : Snapshots) (p : Snapshot)
    → find_target ig (tail srt) ≡ some p
    → EndsAt p srt (truncate_sorted ig srt)
unfolding truncate_sorted EndsAt
truncate_sorted_ends ig [] p f = unfold find_target in cc
truncate_sorted_ends ig (s ∷ ss) p f = elim (Option-cases (cut_at_target ig ss)) [
  | inl c ↦ absurd (ground (arith, cut_none ig ss c))
  | inr (kept, c) ↦
      let (front, rest, whole, same) = cut_ends ig ss kept p c f in
      (s ∷ front, rest, ap (λ l. s ∷ l) whole, rw (c, truncate_sorted) (ap (λ l. s ∷ l) same))
]

take_all : (n : ℕ) (ss : Snapshots) → length ss ≤ n → take n ss ≡ ss
take_all zero [] h = refl
take_all (suc n) [] h = refl
take_all zero (s ∷ ss) h = absurd (ground arith)
take_all (suc n) (s ∷ ss) h = ap (λ l. s ∷ l) (take_all n ss (ground arith))

limit-take : (ss : Snapshots) → limit_history ss ≡ take default_max_history ss
unfolding limit_history
limit-take ss = elim (Bool-cases (ltb default_max_history (length ss))) [
  | inl e ↦ rw e refl
  | inr e ↦ rw e (sym (take_all default_max_history ss (ground arith)))
]

truncate_sorted_newest :
    (ig : Bool) (srt : Snapshots)
    → find_target ig (tail srt) ≡ none
    → truncate_sorted ig srt ≡ take default_max_history srt
unfolding truncate_sorted
truncate_sorted_newest ig [] f = refl
truncate_sorted_newest ig (s ∷ ss) f = elim (Option-cases (cut_at_target ig ss)) [
  | inl c ↦ rw (c, truncate_sorted) (limit-take (s ∷ ss))
  | inr (kept, c) ↦ absurd (find_of_cut ig ss kept c f)
]

sort_short : (ss : Snapshots) → ltb (length ss) 2 ≡ true → sort_by_version ss ≡ ss
unfolding sort_by_version
sort_short [] h = refl
sort_short (s ∷ []) h = refl
sort_short (s ∷ t ∷ ss) h = absurd (ground arith)

-- `Truncate` ends the history, sorted from the newest snapshot to the oldest, at the snapshot that
-- `Previous` returns: those before it are kept in their order, and those behind it dropped. Where
-- there is no such snapshot, the first five of the sorted history are kept, or all of fewer.
pub truncate_bounds :
    (ig : Bool) (ss : Snapshots)
    → ((p : Snapshot) × (previous ig ss ≡ some p) × EndsAt p (sort_by_version ss) (truncate ig ss))
      ⊎ (previous ig ss ≡ none) × (truncate ig ss ≡ take 5 (sort_by_version ss))
unfolding truncate
truncate_bounds ig ss = elim (Option-cases (previous ig ss)) [
  | inl e ↦ inr (e, newest e)
  | inr (p, e) ↦ inl (p, e, ends p e)
]
  where
    newest : previous ig ss ≡ none → truncate ig ss ≡ take 5 (sort_by_version ss)
    newest e = elim (Bool-cases (ltb (length ss) 2)) [
      | inl short ↦ rw (short, sort_short ss short) (sym (take_all 5 ss (ground arith)))
      | inr long ↦
          rw long (truncate_sorted_newest ig (sort_by_version ss) (rw (previous-eq ig ss) at e))
    ]

    ends : (p : Snapshot) → previous ig ss ≡ some p → EndsAt p (sort_by_version ss) (truncate ig ss)
    ends p e = elim (Bool-cases (ltb (length ss) 2)) [
      | inl short ↦ absurd (unfold previous in ground arith)
      | inr long ↦
          rw long (truncate_sorted_ends ig (sort_by_version ss) p (rw (previous-eq ig ss) at e))
    ]
