-- ===== src/Errors/Laws.antt =====
-- Laws of errors.Is on the controller's sentinels.
use helm_controller.Base.{◌≡◌, ◌↔◌, true, arith, eq_iff}
use helm_controller.Errors.{Error, external, is}

-- `errors.Is` identifies an error with itself and with no other.
pub is_iff : (a b : Error) → (is a b ≡ true) ↔ (a ≡ b)
unfolding is
is_iff (external s) (external t) = ground (arith, eq_iff s t)
is_iff a b = ground arith
