-- ===== src/Base/Bits.antt =====
-- Laws of `^` (exclusive or) that the checksum needs, at every width. The native operations are
-- recursions on binary digits with fuel.
use Prim.Native.Nat.{ℕ, zero, suc, ◌+◌, ◌*◌, ◌/◌, ◌%◌, ◌≤◌, ◌<◌, bit_xor, digits, differ}
use Prim.Native.Nat.{bit_xor-bitwise}
use mathlib.Core.Path.{◌≡◌, refl}
use native.Mathlib.Omega.{arith}

-- Fuel beyond the first number does not count.
pub digits_fuel :
    (f : ℕ → ℕ) (g : ℕ → ℕ → ℕ) (n m a b : ℕ) → a ≤ n → a ≤ m → digits f g n a b ≡ digits f g m a b
digits_fuel f g zero zero a b p q = refl
digits_fuel f g zero (suc m) zero b p q = refl
digits_fuel f g zero (suc m) (suc a) b p q = absurd (omega arith)
digits_fuel f g (suc n) zero zero b p q = refl
digits_fuel f g (suc n) zero (suc a) b p q = absurd (omega arith)
digits_fuel f g (suc n) (suc m) zero b p q = refl
digits_fuel f g (suc n) (suc m) (suc a) b p q =
    omega (arith, digits_fuel f g n m (suc a / 2) (b / 2) (omega arith) (omega arith))

differ_zero : (y : ℕ) → differ 0 y ≡ y
differ_zero y = refl

zero-bit_xor : (b : ℕ) → bit_xor 0 b ≡ b
zero-bit_xor b = bit_xor-bitwise 0 b

-- The lowest digit of an exclusive or, and the digits above it.
pub bit_xor_step : (a b : ℕ) → bit_xor a b ≡ bit_xor (a / 2) (b / 2) * 2 + differ (a % 2) (b % 2)
bit_xor_step zero b = omega (arith, zero-bit_xor b, zero-bit_xor (b / 2), differ_zero (b % 2))
bit_xor_step (suc a) b = omega (
  arith,
  bit_xor-bitwise (suc a) b,
  bit_xor-bitwise (suc a / 2) (b / 2),
  digits_fuel (λ c. c) differ a (suc a / 2) (suc a / 2) (b / 2) (omega arith) (omega arith),
)

differ_bits : (x y : ℕ) → x < 2 → y < 2 → differ x y ≡ (x + y) % 2
differ_bits zero zero p q = refl
differ_bits zero (suc zero) p q = refl
differ_bits zero (suc (suc y)) p q = absurd (omega arith)
differ_bits (suc zero) zero p q = refl
differ_bits (suc zero) (suc zero) p q = refl
differ_bits (suc zero) (suc (suc y)) p q = absurd (omega arith)
differ_bits (suc (suc x)) y p q = absurd (omega arith)

-- The same, with the digits added without carry.
bit_xor_parity : (a b : ℕ) → bit_xor a b ≡ bit_xor (a / 2) (b / 2) * 2 + (a % 2 + b % 2) % 2
bit_xor_parity a b =
    omega (arith, bit_xor_step a b, differ_bits (a % 2) (b % 2) (omega arith) (omega arith))

cancel_right_fuel : (n a b y : ℕ) → a ≤ n → b ≤ n → bit_xor a y ≡ bit_xor b y → a ≡ b
cancel_right_fuel zero a b y p q e = omega arith
cancel_right_fuel (suc n) a b y p q e =
    let high : bit_xor (a / 2) (y / 2) ≡ bit_xor (b / 2) (y / 2) =
      omega (arith, bit_xor_parity a y, bit_xor_parity b y) in
    omega (
      arith,
      bit_xor_parity a y,
      bit_xor_parity b y,
      cancel_right_fuel n (a / 2) (b / 2) (y / 2) (omega arith) (omega arith) high,
    )

pub bit_xor_cancel_right : (a b y : ℕ) → bit_xor a y ≡ bit_xor b y → a ≡ b
bit_xor_cancel_right a b y e = cancel_right_fuel (a + b) a b y (omega arith) (omega arith) e

cancel_left_fuel : (n x a b : ℕ) → x ≤ n → a ≤ n → b ≤ n → bit_xor x a ≡ bit_xor x b → a ≡ b
cancel_left_fuel zero x a b r p q e = omega arith
cancel_left_fuel (suc n) x a b r p q e =
    let high : bit_xor (x / 2) (a / 2) ≡ bit_xor (x / 2) (b / 2) =
      omega (arith, bit_xor_parity x a, bit_xor_parity x b) in
    omega (
      arith,
      bit_xor_parity x a,
      bit_xor_parity x b,
      cancel_left_fuel n (x / 2) (a / 2) (b / 2) (omega arith) (omega arith) (omega arith) high,
    )

pub bit_xor_cancel_left : (x a b : ℕ) → bit_xor x a ≡ bit_xor x b → a ≡ b
bit_xor_cancel_left x a b e =
    cancel_left_fuel (x + a + b) x a b (omega arith) (omega arith) (omega arith) e
