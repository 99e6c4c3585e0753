-- ===== src/Prelude/Int.antt =====
-- Signed 64-bit values of the source, over the native numbers: `pos n` is n, `negsuc n` is -(n + 1).
use Prim.Native.Nat.{ℕ}
use mathlib.Core.Bool.{Bool, false}
use ironrun.Prelude.Tests.{◌==◌, ltb}

pub data ℤ : Type 0 where
  pos negsuc : ℕ → ℤ

unfoldable pub is_zero : ℤ → Bool
is_zero (pos n) = n == 0
is_zero (negsuc n) = false

-- Whether the value is more than the bound.
unfoldable pub is_above : ℤ → ℕ → Bool
is_above (pos n) bound = ltb bound n
is_above (negsuc n) bound = false
