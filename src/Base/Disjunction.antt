-- ===== src/Base/Disjunction.antt =====
-- Laws of `|` that rounding up to a power of two needs, at every width.
use Prim.Native.Nat.{ℕ, zero, suc, ◌+◌, ◌*◌, ◌/◌, ◌%◌, ◌^◌, ◌≤◌, ◌<◌, bit_or, max, bit_or-bitwise}
use mathlib.Core.Path.{◌≡◌, refl, ap}
use native.Mathlib.Nat.{pow-suc}
use native.Mathlib.Omega.{arith}
use libsmp.Base.Bits.{digits_fuel}

zero-bit_or : (b : ℕ) → bit_or 0 b ≡ b
zero-bit_or b = bit_or-bitwise 0 b

-- The lowest digit of a disjunction, and the digits above it.
bit_or_step : (a b : ℕ) → bit_or a b ≡ bit_or (a / 2) (b / 2) * 2 + max (a % 2) (b % 2)
bit_or_step zero b = omega (arith, zero-bit_or b, zero-bit_or (b / 2))
bit_or_step (suc a) b = omega (
  arith,
  bit_or-bitwise (suc a) b,
  bit_or-bitwise (suc a / 2) (b / 2),
  digits_fuel (λ c. c) max a (suc a / 2) (suc a / 2) (b / 2) (omega arith) (omega arith),
)

le_fuel : (n a b : ℕ) → a ≤ n → (a ≤ bit_or a b) × (b ≤ bit_or a b)
le_fuel zero zero b h = omega (arith, zero-bit_or b)
le_fuel zero (suc a) b h = absurd (omega arith)
le_fuel (suc n) zero b h = omega (arith, zero-bit_or b)
le_fuel (suc n) (suc a) b h =
    omega (arith, bit_or_step (suc a) b, le_fuel n (suc a / 2) (b / 2) (omega arith))

pub le-bit_or : (a b : ℕ) → (a ≤ bit_or a b) × (b ≤ bit_or a b)
le-bit_or a b = le_fuel a a b (omega arith)

bit_or-zero_fuel : (n a : ℕ) → a ≤ n → bit_or a 0 ≡ a
bit_or-zero_fuel n zero h = refl
bit_or-zero_fuel zero (suc a) h = absurd (omega arith)
bit_or-zero_fuel (suc n) (suc a) h =
    omega (arith, bit_or_step (suc a) 0, bit_or-zero_fuel n (suc a / 2) (omega arith))

pub bit_or-zero : (a : ℕ) → bit_or a 0 ≡ a
bit_or-zero a = bit_or-zero_fuel a a (omega arith)

-- A disjunction is no wider than its parts.
pub bit_or-lt : (k a b : ℕ) → a < 2 ^ k → b < 2 ^ k → bit_or a b < 2 ^ k
bit_or-lt zero zero b p q = omega (arith, zero-bit_or b)
bit_or-lt zero (suc a) b p q = absurd (omega arith)
bit_or-lt (suc k) a b p q = omega (
  arith,
  pow-suc 2 k,
  bit_or_step a b,
  bit_or-lt k (a / 2) (b / 2) (omega (arith, pow-suc 2 k)) (omega (arith, pow-suc 2 k)),
)

-- Digits above those of the second number stay.
pub bit_or-high :
    (k q r b : ℕ) → r < 2 ^ k → b < 2 ^ k → bit_or (q * 2 ^ k + r) b ≡ q * 2 ^ k + bit_or r b
bit_or-high zero q zero zero p s = omega (arith, bit_or-zero (q * 1 + 0), zero-bit_or 0)
bit_or-high zero q (suc r) b p s = absurd (omega arith)
bit_or-high zero q zero (suc b) p s = absurd (omega arith)
bit_or-high (suc k) q r b p s =
    let wide : q * 2 ^ suc k ≡ 2 * (q * 2 ^ k) =
      omega (arith, ap (λ (t : ℕ). q * t) (pow-suc 2 k)) in
    ground (
      arith,
      wide,
      pow-suc 2 k,
      bit_or_step (q * 2 ^ suc k + r) b,
      bit_or_step r b,
      bit_or-high k q (r / 2) (b / 2),
    )
