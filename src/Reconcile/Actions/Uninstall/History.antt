-- ===== src/Reconcile/Actions/Uninstall/History.antt =====
-- What an uninstall does to the history (internal/reconcile/uninstall.go and
-- uninstall_remediation.go).
use helm_controller.Base.{
  ◌≡◌, refl, ap, sym, ◌∙◌, true, List, [], ◌∷◌, map, none, some, arith, eq_iff, Option-cases,
  Bool-cases, inl, inr,
}
use helm_controller.Helm.{Release}
use helm_controller.Api.Conditions.{ReleaseAction}
use helm_controller.Api.Snapshots.{Snapshot, Snapshots, targets, set_test_hooks}
use helm_controller.External.Digests.{Digests}
use helm_controller.External.Cluster.{Releaser, typed, other_api}
use helm_controller.Release.Observation.{observe_release}
use helm_controller.Release.Snapshot.{observed_to_snapshot}
use helm_controller.Reconcile.Record.{release_to_observation}
use helm_controller.Reconcile.Record.History.{key_of}
use helm_controller.Reconcile.Actions.Rollback.{replace_snapshot}
use helm_controller.Reconcile.Actions.Uninstall.{observe_uninstall}

-- The snapshot that takes the place of one that the release targets.
abbrev retaken : Digests → ReleaseAction → Release → Snapshot → Snapshot
retaken d act rls s =
    set_test_hooks (observed_to_snapshot d (release_to_observation rls s act)) s.test_hooks

key-retaken :
    (d : Digests) (act : ReleaseAction) (rls : Release) (s : Snapshot)
    → targets s rls.name rls.namespace rls.version ≡ true
    → key_of (retaken d act rls s) ≡ key_of s
unfolding targets observed_to_snapshot set_test_hooks release_to_observation observe_release
key-retaken d act rls s t = ground (arith, eq_iff s.name rls.name, eq_iff s.namespace rls.namespace)

keys-replace_snapshot :
    (d : Digests) (act : ReleaseAction) (rls : Release) (ss l : Snapshots)
    → replace_snapshot d act rls ss ≡ some l
    → map key_of l ≡ map key_of ss
unfolding replace_snapshot
keys-replace_snapshot d act rls [] l e = cc
keys-replace_snapshot d act rls (s ∷ ss) l e =
    elim (Bool-cases (targets s rls.name rls.namespace rls.version)) [
      | inl t ↦
          let r : retaken d act rls s ∷ ss ≡ l = ground arith in
          ap (map key_of) (sym r) ∙ ap (λ k. k ∷ map key_of ss) (key-retaken d act rls s t)
      | inr t ↦ elim (Option-cases (replace_snapshot d act rls ss)) [
        | inl n ↦ absurd (ground arith)
        | inr (m, f) ↦
            let r : s ∷ m ≡ l = ground arith in
            ap (map key_of) (sym r)
            ∙ ap (λ ks. key_of s ∷ ks) (keys-replace_snapshot d act rls ss m f)
      ]
    ]

keys-observe_one :
    (d : Digests) (act : ReleaseAction) (rls : Release) (history : Snapshots)
    → map key_of (elim (replace_snapshot d act rls history) [ some l ↦ l | none ↦ history ])
      ≡ map key_of history
keys-observe_one d act rls history = elim (Option-cases (replace_snapshot d act rls history)) [
  | inl n ↦ rw n refl
  | inr (l, f) ↦ rw f (keys-replace_snapshot d act rls history l f)
]

-- An uninstall keeps the history: whatever Helm writes, the snapshots stay snapshots of the same
-- releases in the same order. None is added, and none is lost.
pub keys-observe_uninstall :
    (d : Digests) (act : ReleaseAction) (ws : List Releaser) (history : Snapshots)
    → map key_of (observe_uninstall d act ws history) ≡ map key_of history
unfolding observe_uninstall
keys-observe_uninstall d act [] history = refl
keys-observe_uninstall d act (other_api ∷ ws) history = keys-observe_uninstall d act ws history
keys-observe_uninstall d act (typed rls ∷ ws) history =
    keys-observe_uninstall d act ws
      (elim (replace_snapshot d act rls history) [ some l ↦ l | none ↦ history ])
    ∙ keys-observe_one d act rls history
