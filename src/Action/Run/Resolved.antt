-- ===== src/Action/Run/Resolved.antt =====
-- How an upgrade and a rollback apply their resources.
use helm_controller.Base.{
  ◌≡◌, ◌⊎◌, ◌-◌, inl, inr, refl, ℕ, String, Bool, true, false, not, ◌&&◌, List, str_eq, ◌==◌, arith,
  Bool-cases, if◌then◌else◌,
}
use helm_controller.Helm.{Release}
use helm_controller.Api.HelmRelease.{HelmRelease, get_upgrade, get_rollback, get_release_name}
use helm_controller.External.Cluster.{Env, ok, Result-cases, Releaser, typed, other_api}
use helm_controller.Release.Name.{shorten_name}
use helm_controller.Action.Options.{
  Features, UpgradeAction, RollbackAction, new_upgrade, new_rollback, ssa_mode,
}
use helm_controller.Action.Run.{
  Sdk, bool_text, has_version, with_upgrade_mode, resolve_upgrade, with_rollback_mode,
  rollback_as_before, previous_version, resolve_to, resolve_rollback,
}

bool_text_lem :
    (b : Bool) → (str_eq (bool_text b) "auto" ≡ false) × (b ≡ str_eq (bool_text b) "true")
bool_text_lem true = (refl, refl)
bool_text_lem false = (refl, refl)

module _ (E : Env) (K : Sdk E) (f : Features) where
  -- A mode that is not `auto`; conflicts are forced exactly with server-side apply, and resources are
  -- replaced by force only without it.
  abbrev pub IsResolved : String → Bool → Bool → Bool → Type 0
  IsResolved mode force_conflicts force_replace forced =
      (str_eq mode "auto" ≡ false)
      × (force_conflicts ≡ str_eq mode "true")
      × (force_replace ≡ (forced && not force_conflicts))

  -- An upgrade that is resolved applies by a mode that is not `auto`, forces conflicts exactly with
  -- server-side apply, and replaces resources only without it; and it has the mode of the
  -- specification, or the one by which the last release was applied.
  pub resolve_upgrade_lem :
      (w : E.World) (obj : HelmRelease) (action : UpgradeAction)
      → resolve_upgrade E K f w obj ≡ ok action
      → IsResolved action.server_side_apply action.force_conflicts action.force_replace
          (get_upgrade obj).force
        × ((action.server_side_apply ≡ ssa_mode (get_upgrade obj).server_side_apply)
            ⊎ ((r : Release) × (E.last w (shorten_name E.sha256_hex (get_release_name obj))
                  ≡ ok (typed r))
                × (action.force_conflicts ≡ str_eq (K.apply_method r) "ssa")))
  unfolding resolve_upgrade with_upgrade_mode new_upgrade
  resolve_upgrade_lem w obj action h =
      elim (Bool-cases (str_eq (ssa_mode (get_upgrade obj).server_side_apply) "auto")) [
        | inl auto ↦
            elim (Result-cases (E.last w (shorten_name E.sha256_hex (get_release_name obj)))) [
              | inl (e, d) ↦ absurd (ground (arith, h, auto, d))
              | inr (other_api, d) ↦ absurd (ground (arith, h, auto, d))
              | inr (typed r, d) ↦
                  let text = bool_text_lem (str_eq (K.apply_method r) "ssa") in
                  (ground (arith, text), inr (r, d, ground arith))
            ]
        | inr chosen ↦ (ground arith, inl (ground arith))
      ]

  -- The version exists in the history, and the release with it is the one that is read.
  abbrev pub IsFound : E.World → String → ℕ → Release → Type 0
  IsFound w name version r =
      (releases : List Releaser) × (K.history w name ≡ ok releases)
      × (has_version version releases ≡ ok true)
      × (E.get w name version ≡ ok (typed r))

  resolve_to_lem :
      (w : E.World) (obj : HelmRelease) (name : String) (start action : RollbackAction)
      (previous : ℕ)
      → resolve_to E K f w obj name start previous ≡ ok action
      → (r : Release) × IsFound w name previous r
        × (action
            ≡ with_rollback_mode E K f obj
                (str_eq (K.apply_method r) "ssa")
                (bool_text (str_eq (K.apply_method r) "ssa"))
                start)
  unfolding resolve_to rollback_as_before
  resolve_to_lem w obj name start action previous h = elim (Result-cases (K.history w name)) [
    | inl (e, d) ↦ absurd (ground arith)
    | inr (releases, d) ↦ elim (Result-cases (has_version previous releases)) [
      | inl (e, x) ↦ absurd (ground arith)
      | inr (false, x) ↦ absurd (ground arith)
      | inr (true, x) ↦ elim (Result-cases (E.get w name previous)) [
        | inl (e, y) ↦ absurd (ground arith)
        | inr (other_api, y) ↦ absurd (ground arith)
        | inr (typed r, y) ↦ (r, (releases, d, x, y), ground arith)
      ]
    ]
  ]

  -- A rollback that is resolved is to the version that is asked for, applies by a mode that is not
  -- `auto`, forces conflicts exactly with server-side apply, and replaces resources only without it;
  -- and it has the mode of the specification, or the one by which the release that is rolled back to
  -- was applied: it is in the history, with the version that is asked for or, for 0, the one before
  -- the last release.
  pub resolve_rollback_lem :
      (w : E.World) (obj : HelmRelease) (name : String) (version : ℕ) (action : RollbackAction)
      → resolve_rollback E K f w obj name version ≡ ok action
      → (action.version ≡ version)
        × IsResolved action.server_side_apply action.force_conflicts action.force_replace
            (get_rollback obj).force
        × ((action.server_side_apply ≡ ssa_mode (get_rollback obj).server_side_apply)
            ⊎ ((current r : Release) × (E.last w name ≡ ok (typed current))
                × IsFound w name (if version == 0 then current.version - 1 else version) r
                × (action.force_conflicts ≡ str_eq (K.apply_method r) "ssa")))
  unfolding resolve_rollback with_rollback_mode new_rollback previous_version
  resolve_rollback_lem w obj name version action h =
      elim (Bool-cases (str_eq (ssa_mode (get_rollback obj).server_side_apply) "auto")) [
        | inl auto ↦ elim (Result-cases (E.last w name)) [
          | inl (e, d) ↦ absurd (ground (arith, h, auto, d))
          | inr (other_api, d) ↦ absurd (ground (arith, h, auto, d))
          | inr (typed current, d) ↦
              let start = new_rollback f obj version in
              let previous = if version == 0 then current.version - 1 else version in
              let (r, found, e) =
                resolve_to_lem w obj name start action previous (ground (arith, h, auto, d)) in
              let text = bool_text_lem (str_eq (K.apply_method r) "ssa") in
              (
                ground (arith, e),
                ground (arith, e, text),
                inr (current, r, d, found, ground (arith, e)),
              )
        ]
        | inr chosen ↦ (ground arith, ground arith, inl (ground arith))
      ]
