-- ===== src/Prelude/Int.antt =====
-- Signed 64-bit values, as the integers that they stand for.
use Prim.Native.Nat.{ℕ}

-- `negsuc n` is -(n + 1).
pub data ℤ : Type 0 where
  pos : ℕ → ℤ
  negsuc : ℕ → ℤ
