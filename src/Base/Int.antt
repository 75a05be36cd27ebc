-- ===== src/Base/Int.antt =====
-- Go's int and int64: an integer, with the wrap-around of `++` on 64 bits.
use Prim.Native.Nat.{ℕ, zero, suc, ◌+◌}
use mathlib.Core.Bool.{Bool, true, false}
use helm_controller.Base.Tests.{ltb, ◌==◌, if◌then◌else◌}

-- `negsuc n` is -(n + 1).
pub data ℤ : Type 0 where
  pos : ℕ → ℤ
  negsuc : ℕ → ℤ

abbrev pub ltz : ℤ → ℤ → Bool
ltz (pos a) (pos b) = ltb a b
ltz (pos a) (negsuc b) = false
ltz (negsuc a) (pos b) = true
ltz (negsuc a) (negsuc b) = ltb b a

abbrev pub eqz : ℤ → ℤ → Bool
eqz (pos a) (pos b) = a == b
eqz (negsuc a) (negsuc b) = a == b
eqz _ _ = false

abbrev pub int64_max : ℕ
int64_max = 9223372036854775807

-- `x++` on an int64.
abbrev pub inc64 : ℤ → ℤ
inc64 (pos n) = if ltb n int64_max then pos (n + 1) else negsuc int64_max
inc64 (negsuc n) = elim n [ zero ↦ pos 0 | suc m ↦ negsuc m ]
