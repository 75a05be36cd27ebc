-- ===== src/Reconcile/Record/Observed.antt =====
-- The map of observed releases that an action collects (internal/reconcile/release.go).
use helm_controller.Base.{
  ℕ, ◌≡◌, refl, ap, ◌∙◌, ◌<◌, ◌≤◌, List, [], ◌∷◌, Option, none, some, ◌==◌, ltb, if◌then◌else◌,
  arith, All, Bool-cases, inl, inr,
}
use helm_controller.External.Cluster.{Releaser, typed, other_api}
use helm_controller.Release.Observation.{Observation, observe_release}
use helm_controller.Reconcile.Record.{observe_version, observe_writes}

-- The newest version comes first, and no version occurs twice.
abbrev pub IsDescending : List Observation → Type 0
IsDescending [] = Unit
IsDescending (o ∷ os) = All (λ p. p.version < o.version) os × IsDescending os

-- `observed[version]`.
unfoldable pub find_version : ℕ → List Observation → Option Observation
find_version v [] = none
find_version v (o ∷ os) = if o.version == v then some o else find_version v os

All-observe_version :
    (n : ℕ) (o : Observation) (os : List Observation)
    → o.version < n
    → All (λ p. p.version < n) os
    → All (λ p. p.version < n) (observe_version o os)
unfolding observe_version
All-observe_version n o [] h k = (h, tt)
All-observe_version n o (p ∷ ps) h k = ground (arith, All-observe_version n o ps h k.1)

All-lt_trans :
    (m n : ℕ) (os : List Observation)
    → m ≤ n
    → All (λ p. p.version < m) os
    → All (λ p. p.version < n) os
All-lt_trans m n [] h k = tt
All-lt_trans m n (o ∷ os) h k = (omega arith, All-lt_trans m n os h k.1)

observe_version-IsDescending :
    (o : Observation) (os : List Observation)
    → IsDescending os
    → IsDescending (observe_version o os)
unfolding observe_version
observe_version-IsDescending o [] h = (tt, tt)
observe_version-IsDescending o (p ∷ ps) h = elim (Bool-cases (o.version == p.version)) [
  | inl e ↦ rw e (All-lt_trans p.version o.version ps (ground arith) h.0, h.1)
  | inr e ↦ elim (Bool-cases (ltb o.version p.version)) [
    | inl l ↦
        rw (e, l)
          (
            All-observe_version p.version o ps (ground arith) h.0,
            observe_version-IsDescending o ps h.1,
          )
    | inr l ↦ rw (e, l) ((ground arith, All-lt_trans p.version o.version ps (ground arith) h.0), h)
  ]
]

find-observe_version :
    (v : ℕ) (o : Observation) (os : List Observation)
    → find_version v (observe_version o os) ≡ (if o.version == v then some o else find_version v os)
unfolding observe_version find_version
find-observe_version v o [] = refl
find-observe_version v o (p ∷ ps) = ground (arith, find-observe_version v o ps)

-- The release that was last written with the version, before which `seen` was observed.
unfoldable pub last_written : ℕ → Option Observation → List Releaser → Option Observation
last_written v found [] = found
last_written v found (typed rls ∷ ws) =
    last_written v (if rls.version == v then some (observe_release rls) else found) ws
last_written v found (other_api ∷ ws) = last_written v found ws

observe_writes-IsDescending :
    (os : List Observation) (ws : List Releaser)
    → IsDescending os
    → IsDescending (observe_writes os ws)
unfolding observe_writes
observe_writes-IsDescending os [] h = h
observe_writes-IsDescending os (typed rls ∷ ws) h =
    observe_writes-IsDescending (observe_version (observe_release rls) os) ws
      (observe_version-IsDescending (observe_release rls) os h)
observe_writes-IsDescending os (other_api ∷ ws) h = observe_writes-IsDescending os ws h

find-observe_writes :
    (v : ℕ) (os : List Observation) (ws : List Releaser)
    → find_version v (observe_writes os ws) ≡ last_written v (find_version v os) ws
unfolding observe_writes last_written observe_release
find-observe_writes v os [] = refl
find-observe_writes v os (other_api ∷ ws) = find-observe_writes v os ws
find-observe_writes v os (typed rls ∷ ws) =
    find-observe_writes v (observe_version (observe_release rls) os) ws
    ∙ ap (λ f. last_written v f ws) (find-observe_version v (observe_release rls) os)

-- The releases that a Helm action writes are observed newest version first, each version once, and a
-- version is observed as the last write of it left it.
pub observe_writes_lem :
    (ws : List Releaser)
    → IsDescending (observe_writes [] ws)
      × ((v : ℕ) → find_version v (observe_writes [] ws) ≡ last_written v none ws)
unfolding find_version
observe_writes_lem ws = (observe_writes-IsDescending [] ws tt, λ v. find-observe_writes v [] ws)
