-- ===== src/Api/Snapshots/Previous.antt =====
-- What `Previous` returns (api/v2/snapshot_types.go).
use helm_controller.Base.{
  ℕ, ◌⊎◌, ◌++◌, ◌≡◌, ap, Bool, true, false, [], ◌∷◌, none, some, arith, ltb, if◌then◌else◌,
  Bool-cases, Option-cases, inl, inr, All, length, tail,
}
use helm_controller.Api.Snapshots.{
  Snapshot, Snapshots, sort_by_version, is_rollback_target, find_target, previous_sorted, previous,
}
use helm_controller.Api.Snapshots.Order.{length-sort}

abbrev pub NotTarget : Bool → Snapshot → Type 0
NotTarget ignore_tests s = is_rollback_target ignore_tests s ≡ false

-- `p` is the first rollback target of the list, with the snapshots in front of it and behind it.
pub record FirstTarget (ignore_tests : Bool) (ss : Snapshots) (p : Snapshot) : Type 0 where
  pub skipped : Snapshots
  pub older : Snapshots
  pub split : ss ≡ skipped ++ p ∷ older
  pub no_target : All (NotTarget ignore_tests) skipped
  pub target : is_rollback_target ignore_tests p ≡ true

FirstTarget-cons :
    (ig : Bool) (s : Snapshot) (ss : Snapshots) (p : Snapshot)
    → NotTarget ig s
    → FirstTarget ig ss p
    → FirstTarget ig (s ∷ ss) p
FirstTarget-cons ig s ss p no_t f = record {
  skipped = s ∷ f.skipped;
  older = f.older;
  split = ap (λ l. s ∷ l) f.split;
  no_target = (no_t, f.no_target);
  target = f.target;
}

find_target-FirstTarget :
    (ig : Bool) (ss : Snapshots) (p : Snapshot) → find_target ig ss ≡ some p → FirstTarget ig ss p
unfolding find_target
find_target-FirstTarget ig [] p e = cc
find_target-FirstTarget ig (s ∷ ss) p e = elim (Bool-cases (is_rollback_target ig s)) [
  | inl t ↦
      let same : s ≡ p = ground arith in
      record {
        skipped = [];
        older = ss;
        split = ap (λ l. l ∷ ss) same;
        no_target = tt;
        target = rw (← same) t;
      }
  | inr t ↦ FirstTarget-cons ig s ss p t (find_target-FirstTarget ig ss p (rw t at e))
]

find_target-none : (ig : Bool) (ss : Snapshots) → find_target ig ss ≡ none → All (NotTarget ig) ss
unfolding find_target
find_target-none ig [] e = tt
find_target-none ig (s ∷ ss) e = elim (Bool-cases (is_rollback_target ig s)) [
  | inl t ↦ absurd (ground arith)
  | inr t ↦ (t, find_target-none ig ss (rw t at e))
]

FirstTarget-tail :
    (ig : Bool) (ss : Snapshots)
    → (find_target ig ss ≡ none) × All (NotTarget ig) ss
      ⊎ ((p : Snapshot) × (find_target ig ss ≡ some p) × FirstTarget ig ss p)
FirstTarget-tail ig ss = elim (Option-cases (find_target ig ss)) [
  | inl e ↦ inl (e, find_target-none ig ss e)
  | inr (p, e) ↦ inr (p, e, find_target-FirstTarget ig ss p e)
]

previous_of_length :
    (ig : Bool) (srt : Snapshots) (n : ℕ)
    → length srt ≡ n
    → (if ltb n 2 then none else previous_sorted ig srt) ≡ find_target ig (tail srt)
unfolding previous_sorted find_target
previous_of_length ig [] n e = ground arith
previous_of_length ig (s ∷ []) n e = ground arith
previous_of_length ig (s ∷ t ∷ ts) n e = ground arith

pub previous-eq :
    (ig : Bool) (ss : Snapshots) → previous ig ss ≡ find_target ig (tail (sort_by_version ss))
unfolding previous
previous-eq ig ss = previous_of_length ig (sort_by_version ss) (length ss) (length-sort ss)

-- `Previous` returns the newest rollback target behind the latest snapshot, and nil if and only if
-- there is none: what it skips is no target.
pub previous_lem :
    (ig : Bool) (ss : Snapshots)
    → (previous ig ss ≡ none) × All (NotTarget ig) (tail (sort_by_version ss))
      ⊎ ((p : Snapshot) × (previous ig ss ≡ some p) × FirstTarget ig (tail (sort_by_version ss)) p)
previous_lem ig ss = rw (previous-eq ig ss) (FirstTarget-tail ig (tail (sort_by_version ss)))
