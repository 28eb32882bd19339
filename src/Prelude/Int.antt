-- ===== src/Prelude/Int.antt =====
-- Python's signed integers, where the program stores negative ones. `negsuc n` is -(n + 1).
use Prim.Native.Nat.{ℕ}

pub data ℤ : Type 0 where
  pos : ℕ → ℤ
  negsuc : ℕ → ℤ
