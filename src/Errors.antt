-- ===== src/Errors.antt =====
-- internal/errors/is.go and internal/errors/ignore.go, over the sentinel errors of the controller.
-- An error value stands for the sentinel that it wraps (`%w`), which is what `errors.Is` sees; any
-- other error is `external` with its text.
pub mod Laws
use helm_controller.Base.{
  ℕ, String, Bool, true, false, ◌||◌, List, [], ◌∷◌, Option, none, some, ◌==◌, str_eq,
  if◌then◌else◌,
}

pub data Error : Type 0 where
  exceeded_max_retries retry_after_interval must_requeue missing_rollback_target : Error
  unknown_release_status unknown_remediation_strategy no_latest release_mismatch : Error
  no_storage_update release_disappeared release_not_found release_not_observed : Error
  release_digest chart_changed config_digest canceled driver_release_not_found : Error
  unsupported_chart_api unknown_helm_status : Error
  wait_for_dependency wait_for_chart not_found access_denied : Error
  file_not_found digest_mismatch already_exists : Error
  external : String → Error

abbrev error_code : Error → ℕ
error_code exceeded_max_retries = 1
error_code retry_after_interval = 2
error_code must_requeue = 3
error_code missing_rollback_target = 4
error_code unknown_release_status = 5
error_code unknown_remediation_strategy = 6
error_code no_latest = 7
error_code release_mismatch = 8
error_code no_storage_update = 9
error_code release_disappeared = 10
error_code release_not_found = 11
error_code release_not_observed = 12
error_code release_digest = 13
error_code chart_changed = 14
error_code config_digest = 15
error_code canceled = 16
error_code driver_release_not_found = 17
error_code unsupported_chart_api = 18
error_code unknown_helm_status = 19
error_code wait_for_dependency = 20
error_code wait_for_chart = 21
error_code not_found = 22
error_code access_denied = 23
error_code file_not_found = 24
error_code digest_mismatch = 25
error_code already_exists = 26
error_code (external s) = 0

-- errors.Is of the standard library, on a target that is a sentinel or the same external error.
unfoldable pub is : Error → Error → Bool
is (external a) (external b) = str_eq a b
is err target = error_code err == error_code target

unfoldable pub is_one_of : Error → List Error → Bool
unfolding is
is_one_of err [] = false
is_one_of err (e ∷ errs) = is err e || is_one_of err errs

-- `nil` is `none`.
unfoldable pub ignore : Error → List Error → Option Error
unfolding is_one_of
ignore err errs = if is_one_of err errs then none else some err
