-- ===== src/Prelude/Int.antt =====
-- Signed 32-bit numbers that are only stored and compared.
use Prim.Native.Nat.{ℕ}

-- `negsuc n` is -(n + 1).
pub data ℤ : Type 0 where
  pos : ℕ → ℤ
  negsuc : ℕ → ℤ
