-- ===== src/Api/Snapshots/Order.antt =====
-- Sorting the history by version, and what `Latest` promises (api/v2/snapshot_types.go).
use mathlib.Core.List.Perm
use mathlib.Core.List.{Perm, Mem, Memᴰ}
use mathlib.Core.Option.{some_inj}
use native.Mathlib.Nat.{le_refl}
use helm_controller.Base.{
  ℕ, suc, ◌≤◌, ◌≡◌, refl, sym, ap, subst, ◌∙◌, [], ◌∷◌, none, some, arith, ltb, Bool-cases, inl,
  inr, All, length, head?,
}
use helm_controller.Api.Snapshots.{Snapshot, Snapshots, sort_by_version, insert_version, latest}

-- Every snapshot is at least as new as those behind it.
abbrev pub IsSorted : Snapshots → Type 0
IsSorted [] = Unit
IsSorted (s ∷ ss) = All (λ t. t.version ≤ s.version) ss × IsSorted ss

module _ (P : Snapshot → Type 0) where
  All-insert : (s : Snapshot) (ss : Snapshots) → P s → All P ss → All P (insert_version s ss)
  unfolding insert_version
  All-insert s [] p h = (p, tt)
  All-insert s (t ∷ ts) p h = ground (arith, All-insert s ts p h.1)

  pub All-sort : (ss : Snapshots) → All P ss → All P (sort_by_version ss)
  unfolding sort_by_version
  All-sort [] h = tt
  All-sort (s ∷ ss) h = All-insert s (sort_by_version ss) h.0 (All-sort ss h.1)

  All-of_insert : (s : Snapshot) (ss : Snapshots) → All P (insert_version s ss) → P s × All P ss
  unfolding insert_version
  All-of_insert s [] h = h
  All-of_insert s (t ∷ ts) h = elim (Bool-cases (ltb s.version t.version)) [
    | inl e ↦
        let h' : P t × All P (insert_version s ts) = rw e at h in
        let r = All-of_insert s ts h'.1 in (r.0, (h'.0, r.1))
    | inr e ↦ rw e at h
  ]

  pub All-of_sort : (ss : Snapshots) → All P (sort_by_version ss) → All P ss
  unfolding sort_by_version
  All-of_sort [] h = tt
  All-of_sort (s ∷ ss) h =
      let r = All-of_insert s (sort_by_version ss) h in (r.0, All-of_sort ss r.1)

All-le_trans :
    (a b : ℕ) (ss : Snapshots) → b ≤ a → All (λ t. t.version ≤ b) ss → All (λ t. t.version ≤ a) ss
All-le_trans a b [] h k = tt
All-le_trans a b (s ∷ ss) h k = (omega arith, All-le_trans a b ss h k.1)

insert-IsSorted : (s : Snapshot) (ss : Snapshots) → IsSorted ss → IsSorted (insert_version s ss)
unfolding insert_version
insert-IsSorted s [] h = (tt, tt)
insert-IsSorted s (t ∷ ts) h = elim (Bool-cases (ltb s.version t.version)) [
  | inl e ↦
      rw e
        (All-insert (λ u. u.version ≤ t.version) s ts (ground arith) h.0, insert-IsSorted s ts h.1)
  | inr e ↦ rw e ((ground arith, All-le_trans s.version t.version ts (ground arith) h.0), h)
]

-- The history is in descending order of version after `SortByVersion`.
pub sort-IsSorted : (ss : Snapshots) → IsSorted (sort_by_version ss)
unfolding sort_by_version
sort-IsSorted [] = tt
sort-IsSorted (s ∷ ss) = insert-IsSorted s (sort_by_version ss) (sort-IsSorted ss)

insert-perm : (s : Snapshot) (ss : Snapshots) → Perm (insert_version s ss) (s ∷ ss)
unfolding insert_version
insert-perm s [] = Perm.rfl
insert-perm s (t ∷ ts) = elim (Bool-cases (ltb s.version t.version)) [
  | inl e ↦ rw e (Perm.trans (Perm.cons t (insert-perm s ts)) (Perm.swap s t ts))
  | inr e ↦ rw e Perm.rfl
]

-- `SortByVersion` loses no snapshot and invents none.
pub sort-perm : (ss : Snapshots) → Perm (sort_by_version ss) ss
unfolding sort_by_version
sort-perm [] = Perm.rfl
sort-perm (s ∷ ss) = Perm.trans (insert-perm s (sort_by_version ss)) (Perm.cons s (sort-perm ss))

insert_of_newest :
    (s : Snapshot) (ss : Snapshots)
    → All (λ t. t.version ≤ s.version) ss
    → insert_version s ss ≡ s ∷ ss
unfolding insert_version
insert_of_newest s [] h = refl
insert_of_newest s (t ∷ ts) h = ground arith

-- A sorted history is left as it is.
pub sort_of_IsSorted : (ss : Snapshots) → IsSorted ss → sort_by_version ss ≡ ss
unfolding sort_by_version
sort_of_IsSorted [] h = refl
sort_of_IsSorted (s ∷ ss) h = rw (sort_of_IsSorted ss h.1) (insert_of_newest s ss h.0)

pub sort_idem : (ss : Snapshots) → sort_by_version (sort_by_version ss) ≡ sort_by_version ss
sort_idem ss = sort_of_IsSorted (sort_by_version ss) (sort-IsSorted ss)

length-insert : (s : Snapshot) (ss : Snapshots) → length (insert_version s ss) ≡ suc (length ss)
unfolding insert_version
length-insert s [] = refl
length-insert s (t ∷ ts) = ground (arith, length-insert s ts)

pub length-sort : (ss : Snapshots) → length (sort_by_version ss) ≡ length ss
unfolding sort_by_version
length-sort [] = refl
length-sort (s ∷ ss) = length-insert s (sort_by_version ss) ∙ ap suc (length-sort ss)

latest_of_sorted :
    (srt : Snapshots) (s : Snapshot)
    → IsSorted srt
    → head? srt ≡ some s
    → Memᴰ s srt × All (λ t. t.version ≤ s.version) srt
latest_of_sorted [] s h e = cc
latest_of_sorted (t ∷ ts) s h e =
    let same : t ≡ s = some_inj.0 e in
    (
      Memᴰ.head (sym same),
      subst (λ u. All (λ w. w.version ≤ u.version) (t ∷ ts)) same (le_refl t.version, h.0),
    )

-- `Latest` returns a snapshot of the history, and none of the history is newer.
pub latest-max :
    (ss : Snapshots) (s : Snapshot)
    → latest ss ≡ some s
    → Mem s ss × All (λ t. t.version ≤ s.version) ss
unfolding latest
latest-max ss s e =
    let r = latest_of_sorted (sort_by_version ss) s (sort-IsSorted ss) e in
    ((Perm.mem_iff (sort-perm ss)).0 ∣ r.0 ∣₁, All-of_sort (λ t. t.version ≤ s.version) ss r.1)

nil_of_head? : (ss : Snapshots) → head? ss ≡ none → ss ≡ []
nil_of_head? [] e = refl
nil_of_head? (s ∷ ss) e = cc

-- `Latest` returns nil on the empty history only.
pub latest-eq-none : (ss : Snapshots) → latest ss ≡ none → ss ≡ []
unfolding latest
latest-eq-none [] e = refl
latest-eq-none (s ∷ ss) e = absurd (
    omega
      (arith, length-sort (s ∷ ss), ap {B = ℕ} length (nil_of_head? (sort_by_version (s ∷ ss)) e)))
