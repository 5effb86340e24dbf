-- ===== src/Prelude/Int.antt =====
-- Signed integers over the native numbers: a Python `int`.
use nguyen_dinh_b.Prelude.Tests.{eqb}
use Prim.Native.Nat.{ℕ}
use mathlib.Core.Bool.{Bool, false}

-- `negsuc n` is -(n + 1).
pub data ℤ : Type 0 where
  pos : ℕ → ℤ
  negsuc : ℕ → ℤ

abbrev pub is_zero : ℤ → Bool
is_zero (pos n) = eqb n 0
is_zero (negsuc n) = false
