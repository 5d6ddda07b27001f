-- ===== src/Prelude/Integers.antt =====
-- Go's signed integers, where they are not near their limits.
use Prim.Native.Nat.{ℕ}

pub data ℤ : Type 0 where
  pos negsuc : ℕ → ℤ
