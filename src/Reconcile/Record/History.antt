-- ===== src/Reconcile/Record/History.antt =====
-- What the observation of a Helm action does to the history (internal/reconcile/release.go).
use helm_controller.Base.{
  ℕ, ◌≡◌, refl, ap, sym, ◌∙◌, String, true, List, [], ◌∷◌, map, some, arith, eq_iff, Option-cases,
  Bool-cases, inl, inr,
}
use helm_controller.Api.Conditions.{ReleaseAction}
use helm_controller.Api.Snapshots.{Snapshot, Snapshots, targets, set_test_hooks}
use helm_controller.External.Digests.{Digests}
use helm_controller.Release.Observation.{Observation}
use helm_controller.Release.Snapshot.{observed_to_snapshot}
use helm_controller.Reconcile.Record.{refreshed, replace_target, update_older, record_observed}

-- What a snapshot is a snapshot of.
abbrev pub key_of : Snapshot → String × String × ℕ
key_of s = (s.name, s.namespace, s.version)

key-refreshed :
    (d : Digests) (obs : Observation) (snap : Snapshot)
    → targets snap obs.name obs.namespace obs.version ≡ true
    → key_of (refreshed d obs snap) ≡ key_of snap
unfolding targets refreshed observed_to_snapshot set_test_hooks
key-refreshed d obs snap t =
    ground (arith, eq_iff snap.name obs.name, eq_iff snap.namespace obs.namespace)

keys-replace :
    (d : Digests) (obs : Observation) (ss l : Snapshots)
    → replace_target d obs ss ≡ some l
    → map key_of l ≡ map key_of ss
unfolding replace_target
keys-replace d obs [] l e = cc
keys-replace d obs (s ∷ ss) l e = elim (Bool-cases (targets s obs.name obs.namespace obs.version)) [
  | inl t ↦
      let r : refreshed d obs s ∷ ss ≡ l = ground arith in
      ap (map key_of) (sym r) ∙ ap (λ k. k ∷ map key_of ss) (key-refreshed d obs s t)
  | inr t ↦ elim (Option-cases (replace_target d obs ss)) [
    | inl n ↦ absurd (ground arith)
    | inr (m, f) ↦
        let r : s ∷ m ≡ l = ground arith in
        ap (map key_of) (sym r) ∙ ap (λ ks. key_of s ∷ ks) (keys-replace d obs ss m f)
  ]
]

keys-update_older :
    (d : Digests) (os : List Observation) (ss : Snapshots)
    → map key_of (update_older d os ss) ≡ map key_of ss
unfolding update_older
keys-update_older d [] ss = refl
keys-update_older d (o ∷ os) ss = elim (Option-cases (replace_target d o ss)) [
  | inl n ↦ rw (n, update_older) (keys-update_older d os ss)
  | inr (l, f) ↦ rw (f, update_older) (keys-replace d o ss l f)
]

-- Recording what was observed adds exactly one snapshot, of the newest observed release, in front of
-- the history; the older snapshots may be refreshed, but they stay snapshots of the same releases
-- in the same order.
pub keys-record_observed :
    (d : Digests) (oci : String) (act : ReleaseAction) (obs : Observation)
    (older : List Observation) (history : Snapshots)
    → map key_of (record_observed d oci act (obs ∷ older) history)
      ≡ (obs.name, obs.namespace, obs.version) ∷ map key_of history
unfolding record_observed observed_to_snapshot
keys-record_observed d oci act obs older history = keys-update_older d older _
