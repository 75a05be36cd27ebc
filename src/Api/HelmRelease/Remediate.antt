-- ===== src/Api/HelmRelease/Remediate.antt =====
-- How many failures a remediation strategy of a HelmRelease permits (api/v2/helmrelease_types.go).
use helm_controller.Base.{
  ap, ◌∙◌, some, deref, ℕ, zero, suc, ◌≤◌, ◌≡◌, Bool, false, ℤ, refl, pos, negsuc, ltb, int64_max,
  arith,
}
use helm_controller.Api.Spec.{
  no_install, no_upgrade, Remediation, of_install, of_upgrade, get_retries,
}
use helm_controller.Api.Conditions
use helm_controller.Api.Conditions.{ReleaseAction}
use helm_controller.Api.HelmRelease.{
  get_install, get_upgrade, install_remediation, upgrade_remediation, active_remediation_of,
  get_active_remediation, HelmRelease, get_failure_count, increment_failure_count,
  retries_exhausted,
}

-- The object after `k` failures that were counted for the remediation.
unfoldable pub fail_times : ℕ → Remediation → HelmRelease → HelmRelease
fail_times zero r obj = obj
fail_times (suc k) r obj =
    let before = fail_times k r obj in
    record before { status = increment_failure_count r before.status }

-- The counters count: from 0, the failure count is the number of failures.
count-fail_times :
    (k : ℕ) (r : Remediation) (obj : HelmRelease)
    → k ≤ int64_max
    → get_failure_count r obj ≡ pos 0
    → get_failure_count r (fail_times k r obj) ≡ pos k
unfolding fail_times get_failure_count increment_failure_count
count-fail_times zero r obj h z = z
count-fail_times (suc k) (of_install r) obj h z =
    ground (arith, count-fail_times k (of_install r) obj)
count-fail_times (suc k) (of_upgrade r) obj h z =
    ground (arith, count-fail_times k (of_upgrade r) obj)

-- Whether `k` failures are too many for the configured retries: more than there are retries, where
-- a negative number of retries permits any number of failures.
abbrev pub exceeds : ℕ → ℤ → Bool
exceeds k (pos n) = ltb n k
exceeds k (negsuc n) = false

-- After `k` failures that were counted for a remediation from 0 on, its retries are exhausted if and
-- only if there were more failures than retries; never, where the retries are negative.
pub exhausted-fail_times :
    (k : ℕ) (r : Remediation) (obj : HelmRelease)
    → k ≤ int64_max
    → get_failure_count r obj ≡ pos 0
    → retries_exhausted r (fail_times k r obj) ≡ exceeds k (get_retries r)
unfolding retries_exhausted
exhausted-fail_times k r obj h z = of_retries (get_retries r) refl
  where
    of_retries :
        (n : ℤ) → get_retries r ≡ n → retries_exhausted r (fail_times k r obj) ≡ exceeds k n
    of_retries (pos n) e = ground (arith, count-fail_times k r obj h z)
    of_retries (negsuc n) e = ground (arith, count-fail_times k r obj h z)

active_remediation_of-spec :
    (act : ReleaseAction) (a b : HelmRelease)
    → a.spec ≡ b.spec
    → active_remediation_of act a ≡ active_remediation_of act b
unfolding active_remediation_of get_install get_upgrade
active_remediation_of-spec Conditions.install a b e =
    ap (λ s. some (install_remediation (deref s.install no_install))) e
active_remediation_of-spec Conditions.upgrade a b e =
    ap (λ s. some (upgrade_remediation (deref s.upgrade no_upgrade))) e
active_remediation_of-spec act a b e = ground arith

-- The active remediation depends on the specification and the last attempted action only.
pub get_active_remediation-spec :
    (a b : HelmRelease)
    → a.spec ≡ b.spec
    → a.status.last_attempted_release_action ≡ b.status.last_attempted_release_action
    → get_active_remediation a ≡ get_active_remediation b
unfolding get_active_remediation
get_active_remediation-spec a b e f =
    active_remediation_of-spec a.status.last_attempted_release_action a b e
    ∙ ap (λ act. active_remediation_of act b) f
