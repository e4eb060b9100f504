-- ===== src/Message/Rounding.antt =====
-- `next_pow2` of src/message.c rounds up to a power of two.
use libsmp.Base.{
  ℕ, zero, suc, ◌+◌, ◌-◌, ◌*◌, ◌/◌, ◌%◌, ◌^◌, ◌≤◌, ◌<◌, ◌≡◌, inl, inr, ap, ◌∙◌, arith, bit_or,
  Bool-cases, leb, leb→le, leb→lt,
}
use libsmp.Base.Disjunction.{bit_or-zero, le-bit_or, bit_or-lt, bit_or-high}
use native.Mathlib.Nat.{pow-suc, one-le-pow, pow-le-pow_right, le-div_iff_mul-le, div-lt_iff_lt-mul}
use libsmp.Message.Store.{or_shift, next_pow2}

pow-add : (m j : ℕ) → 2 ^ (m + j) ≡ 2 ^ m * 2 ^ j
pow-add m zero = let same : m + 0 ≡ m = omega arith in ap (λ (t : ℕ). 2 ^ t) same ∙ omega arith
pow-add m (suc j) =
    let next : m + suc j ≡ suc (m + j) = omega arith in
    let wide : 2 ^ m * 2 ^ suc j ≡ 2 * (2 ^ m * 2 ^ j) =
      omega (arith, ap (λ (t : ℕ). 2 ^ m * t) (pow-suc 2 j)) in
    ap (λ (t : ℕ). 2 ^ t) next ∙ omega (arith, pow-suc 2 (m + j), pow-add m j, wide)

-- A number of at most `k` binary digits, of which the `j` highest are ones.
record Leading (k j w : ℕ) : Type 0 where
  pub below : w < 2 ^ k
  pub ones : 2 ^ k ≤ w + 2 ^ (k - j)

-- the distributive law, where the difference is not cut
mul-sub : (a b c : ℕ) → b ≤ a → (a - b) * c + b * c ≡ a * c
mul-sub a b c h = grind arith

pos : (j : ℕ) → 0 < 2 ^ j
pos j = one-le-pow j 2 (omega arith)

-- With `j` leading ones of `m + j` digits, what is behind them and the quotient have `m` digits.
smear_in :
    (m j w : ℕ)
    → w < 2 ^ (m + j)
    → 2 ^ (m + j) ≤ w + 2 ^ m
    → 2 ^ m ≤ 2 ^ (m - j) * 2 ^ j
    → let w' = or_shift j w in (w' < 2 ^ (m + j)) × (2 ^ (m + j) ≤ w' + 2 ^ (m - j))
smear_in m j w below ones wide =
    let all = pow-add m j in
    let q = 2 ^ j - 1 in
    let b = w / 2 ^ j in
    let top : q * 2 ^ m + 2 ^ m ≡ 2 ^ (m + j) = omega (arith, mul-sub (2 ^ j) 1 (2 ^ m) (pos j)) in
    let r = w - q * 2 ^ m in
    let r_lt : r < 2 ^ m = omega arith in
    let b_lt : b < 2 ^ m = (div-lt_iff_lt-mul (pos j)).1 (omega arith) in
    let b_ge : 2 ^ m - 2 ^ (m - j) ≤ b = (le-div_iff_mul-le (pos j)).1 (
      omega (
        arith,
        mul-sub (2 ^ m) (2 ^ (m - j)) (2 ^ j) (pow-le-pow_right (omega arith) (omega arith)),
      )) in
    let split : bit_or w b ≡ q * 2 ^ m + bit_or r b =
      ap (λ (t : ℕ). bit_or t b) (omega arith) ∙ bit_or-high m q r b r_lt b_lt in
    omega (arith, split, bit_or-lt m r b r_lt b_lt, (le-bit_or r b).1)

wide_enough : (m j : ℕ) → 2 ^ m ≤ 2 ^ (m - j) * 2 ^ j
wide_enough m j = elim (Bool-cases (leb j m)) [
  | inl e ↦
      let whole : m - j + j ≡ m = omega (arith, leb→le j m e) in
      omega (arith, ap (λ (t : ℕ). 2 ^ t) whole, pow-add (m - j) j)
  | inr e ↦
      let less : m ≤ j = omega (arith, leb→lt j m e) in
      let none_left : m - j ≡ 0 = omega arith in
      rw none_left (omega (arith, pow-le-pow_right {n = 2} (omega arith) less))
]

-- `v |= v >> j` doubles the number of leading ones.
or_shift-Leading : (k j w : ℕ) → Leading k j w → Leading k (j + j) (or_shift j w)
or_shift-Leading k j w v = elim (Bool-cases (leb j k)) [
  | inl e ↦
      let m = k - j in
      let whole : m + j ≡ k = omega (arith, leb→le j k e) in
      let all = ap (λ (t : ℕ). 2 ^ t) whole in
      let left : k - (j + j) ≡ m - j = omega arith in
      let (below, ones) =
        smear_in m j w (omega (arith, v.below)) (omega (arith, v.ones)) (wide_enough m j) in
      record { below = omega arith; ones = rw left (omega arith) }
  | inr e ↦
      let less : k ≤ j = omega (arith, leb→lt j k e) in
      let narrow = pow-le-pow_right {n = 2} (omega arith) less in
      let small : w / 2 ^ j < 1 = (div-lt_iff_lt-mul {y = 1} (pos j)).1 (omega (arith, v.below)) in
      let none_left : w / 2 ^ j ≡ 0 = omega arith in
      let one : k - j ≡ 0 = omega arith in
      let two : k - (j + j) ≡ 0 = omega arith in
      rw (none_left, bit_or-zero w) (record { below = v.below; ones = rw two (rw one at v.ones) })
]

-- Every number has a width, with a one in front.
width : (w b : ℕ) → w < 2 ^ b → (k : ℕ) × (k ≤ b) × Leading k 1 w
width w zero h = (0, omega arith, record { below = h; ones = omega arith })
width w (suc b) h = elim (Bool-cases (leb (2 ^ b) w)) [
  | inl e ↦
      let half : suc b - 1 ≡ b = omega arith in
      (
        suc b,
        omega arith,
        record { below = h; ones = rw half (omega (arith, pow-suc 2 b, leb→le (2 ^ b) w e)) },
      )
  | inr e ↦ let (k, small, v) = width w b (leb→lt (2 ^ b) w e) in (k, omega arith, v)
]

-- the shifts of `next_pow2`
abbrev smear : ℕ → ℕ
smear w = or_shift 32 (or_shift 16 (or_shift 8 (or_shift 4 (or_shift 2 (or_shift 1 w)))))

smear_lem : (k w : ℕ) → k ≤ 63 → Leading k 1 w → smear w + 1 ≡ 2 ^ k
smear_lem k w small v = all_ones (
    or_shift-Leading k 32 _ (
      or_shift-Leading k 16 _ (
        or_shift-Leading k 8 _
          (or_shift-Leading k 4 _ (or_shift-Leading k 2 _ (or_shift-Leading k 1 w v))))))
  where
    all_ones : {n : ℕ} → Leading k 64 n → n + 1 ≡ 2 ^ k
    all_ones u =
        let none_left : k - 64 ≡ 0 = omega arith in omega (arith, u.below, rw none_left at u.ones)

rounded :
    (k v : ℕ)
    → k ≤ 63
    → 1 ≤ v
    → Leading k 1 (v - 1)
    → ((smear (v - 1) + 1) % 2 ^ 64 ≡ 2 ^ k) × (v ≤ 2 ^ k) × (2 ^ k < 2 * v)
rounded zero v small low l = (
  ap (λ (t : ℕ). t % 2 ^ 64) (smear_lem 0 (v - 1) small l),
  omega (arith, l.below),
  omega (arith, l.below),
)
rounded (suc k) v small low l =
    let limit = pow-le-pow_right {n = 2} (omega arith) small in
    let half : suc k - 1 ≡ k = omega arith in
    let ones = rw half at l.ones in
    (
      ap (λ (t : ℕ). t % 2 ^ 64) (smear_lem (suc k) (v - 1) small l) ∙ omega arith,
      omega (arith, l.below),
      omega (arith, pow-suc 2 k),
    )

-- For a number from 1 to 2 ^ 63, `next_pow2` gives the least power of two that is not below it.
pub next_pow2-IsLeast :
    (v : ℕ) → 1 ≤ v → v ≤ 2 ^ 63 → (k : ℕ) × (next_pow2 v ≡ 2 ^ k) × (v ≤ 2 ^ k) × (2 ^ k < 2 * v)
unfolding next_pow2
next_pow2-IsLeast v low high =
    let (k, small, l) = width (v - 1) 63 (omega arith) in
    let wrap : (v + 2 ^ 64 - 1) % 2 ^ 64 ≡ v - 1 = omega arith in
    let (value, above, least) = rounded k v small low l in
    (k, ap (λ (w : ℕ). (smear w + 1) % 2 ^ 64) wrap ∙ value, above, least)
