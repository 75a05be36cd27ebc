-- ===== src/Tests/World.antt =====
-- A small cluster with one release name, and a concrete environment over it.
use helm_controller.Base.{
  ℕ, ◌+◌, refl, Bool, true, false, List, [], ◌∷◌, none, some, ◌==◌, str_eq, eq_iff, if◌then◌else◌,
}
use helm_controller.Errors
use helm_controller.Errors.{Error}
use helm_controller.Helm
use helm_controller.Helm.{Release, ChartMetadata, Value, Info}
use helm_controller.External.Digests.{Digests, DigestsLaws}
use helm_controller.External.Cluster.{Env, Result, ok, err, Releaser, typed, HelmOutcome}
use helm_controller.Tests.Conditions.{sample_conditions}

-- Digests that show a text in place of a checksum of it.
abbrev pub sample_digests : Digests
sample_digests = record {
  release_digest = λ o. o.manifest;
  parses = λ s. true;
  encode_error = λ o. none;
  verified = λ s o. str_eq s o.manifest;
  digest_values = λ v. "values";
  verify_values = λ s v. str_eq s "values";
  algorithm = λ s. some s;
  canonical = "sha256";
  post_renderers_digest = λ a ps. a;
  common_metadata_digest = λ a m. a;
}

pub sample_digests-DigestsLaws : DigestsLaws sample_digests
sample_digests-DigestsLaws = record {
  parses_digest = λ o. refl;
  encodes = λ o. refl;
  verified_digest = λ o. (eq_iff o.manifest o.manifest).1 refl;
  digest_ignores_action = λ o a. refl;
  verify_digest_values = λ v. refl;
  algorithm_post_renderers = λ a ps. refl;
  algorithm_common_metadata = λ a m. refl;
}

-- The stored releases, newest first. Helm actions fail where the cluster is not healthy.
pub record Cluster : Type 0 where
  pub stored : List Release
  pub healthy : Bool

abbrev pub sample_chart : ChartMetadata
sample_chart = record { name = "app"; version = "1.0.0"; app_version = "1" }

abbrev pub release_of : ℕ → Helm.Status → Release
release_of n status = record {
  name = "app";
  namespace = "apps";
  version = n;
  info = record { first_deployed = 1; last_deployed = n; deleted = 0; status = status };
  chart = sample_chart;
  config = Helm.mapping Helm.no_fields;
  manifest = "manifest";
  hooks = [];
}

abbrev pub newest : List Release → Result Releaser
newest [] = err Errors.driver_release_not_found
newest (r ∷ rs) = ok (typed r)

abbrev pub with_version : ℕ → List Release → Result Releaser
with_version n [] = err Errors.driver_release_not_found
with_version n (r ∷ rs) =
    let rest = with_version n rs in if r.version == n then ok (typed r) else rest

abbrev pub next_version : List Release → ℕ
next_version [] = 1
next_version (r ∷ rs) = r.version + 1

-- An action that stores a new release, with the status that the health of the cluster gives it.
abbrev pub deploy : Cluster → HelmOutcome Cluster
deploy w =
    let r = release_of (next_version w.stored) (if w.healthy then Helm.deployed else Helm.failed) in
    record {
      world = record w { stored = r ∷ w.stored };
      writes = typed r ∷ [];
      release = some (typed r);
      error = if w.healthy then none else some (Errors.external "deadline exceeded");
      elapsed = 3;
    }

abbrev pub no_outcome : Cluster → HelmOutcome Cluster
no_outcome w = record { world = w; writes = []; release = none; error = none; elapsed = 0 }

abbrev pub replace_newest : Release → List Release → List Release
replace_newest r [] = []
replace_newest r (s ∷ rs) = r ∷ rs

-- An uninstall keeps the newest release with the status uninstalled and another manifest.
abbrev pub remove : Cluster → HelmOutcome Cluster
remove w =
    let r = record (release_of 1 Helm.uninstalled) { manifest = "removed" } in
    record {
      world = record w { stored = r ∷ [] };
      writes = typed r ∷ [];
      release = some (typed r);
      error = none;
      elapsed = 1;
    }

abbrev pub sample_env : Env
sample_env = record {
  conditions = sample_conditions;
  digests = sample_digests;
  World = Cluster;
  cancelled = λ w. false;
  enqueued = λ w. false;
  last = λ w name. newest w.stored;
  get = λ w name n. with_version n w.stored;
  update = λ w r. (record w { stored = replace_newest r w.stored }, none);
  set_status = λ r s. record r { info = record r.info { status = s } };
  sha256_hex = λ s. "0123456789abcdef";
  install = λ w obj c v. deploy w;
  upgrade = λ w obj c v. deploy w;
  test = λ w obj. no_outcome w;
  rollback = λ w obj name n. deploy w;
  uninstall = λ w obj name. remove w;
  is_already_deleted = λ e. false;
  diff = λ w r managers ignore. ([], none);
  has_changes = λ ds. false;
  apply_diff = λ w ds manager. (w, [], none);
  build_inventory = λ w r c. record { inventory = ok ("app" ∷ []); warnings = [] };
  patch = λ w obj. (w, none);
  handle_annotation = λ annotations key seen. (false, seen);
  handle_force = λ annotations seen. (false, seen);
}
