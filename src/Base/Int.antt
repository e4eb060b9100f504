-- ===== src/Base/Int.antt =====
-- The C integers that can be negative.
use Prim.Native.Nat.{ℕ, zero, suc}

pub data ℤ : Type 0 where
  pos : ℕ → ℤ
  -- `negsuc n` is -1 - n
  negsuc : ℕ → ℤ

-- `i + 1`
unfoldable pub add_one : ℤ → ℤ
add_one (pos n) = pos (suc n)
add_one (negsuc zero) = pos 0
add_one (negsuc (suc n)) = negsuc n
