-- ===== src/Base/Bytes.antt =====
-- Little-endian integers in byte buffers. An integer of `k` bytes is its bit pattern, below
-- `256 ^ k`, whether the C type is signed or not.
use Prim.Native.Nat.{ℕ, zero, suc, ◌+◌, ◌*◌, ◌/◌, ◌%◌, ◌^◌, ◌<◌, ◌≤◌}
use mathlib.Core.Path.{◌≡◌, refl, ap}
use mathlib.Core.List.{List, [], ◌∷◌, ◌++◌}
use native.Mathlib.Nat.{pow-suc}
use native.Mathlib.Omega.{arith}
use libsmp.Base.Lists.{length, take, drop, All}

abbrev pub IsByte : ℕ → Type 0
IsByte b = b < 256

-- The `k` low bytes of `v`, lowest first.
unfoldable pub to_le : ℕ → ℕ → List ℕ
to_le zero v = []
to_le (suc k) v = v % 256 ∷ to_le k (v / 256)

unfoldable pub from_le : List ℕ → ℕ
from_le [] = 0
from_le (b ∷ bs) = b + 256 * from_le bs

pub length-to_le : (k v : ℕ) → length (to_le k v) ≡ k
unfolding to_le
length-to_le zero v = refl
length-to_le (suc k) v = ap suc (length-to_le k (v / 256))

pub to_le_bytes : (k v : ℕ) → All IsByte (to_le k v)
unfolding to_le
to_le_bytes zero v = tt
to_le_bytes (suc k) v = (omega arith, to_le_bytes k (v / 256))

pub from_le-to_le : (k v : ℕ) → v < 256 ^ k → from_le (to_le k v) ≡ v
unfolding to_le from_le
from_le-to_le zero v h = omega arith
from_le-to_le (suc k) v h = omega (arith, from_le-to_le k (v / 256) (omega (arith, pow-suc 256 k)))

pub take-to_le : (k v : ℕ) (rest : List ℕ) → take k (to_le k v ++ rest) ≡ to_le k v
unfolding to_le
take-to_le zero v rest = refl
take-to_le (suc k) v rest = ap (λ t. v % 256 ∷ t) (take-to_le k (v / 256) rest)

pub from_le-lt : (k : ℕ) (bs : List ℕ) → All IsByte bs → from_le (take k bs) < 256 ^ k
unfolding from_le
from_le-lt zero bs h = omega arith
from_le-lt (suc k) [] h = omega (arith, pow-suc 256 k, from_le-lt k [] tt)
from_le-lt (suc k) (b ∷ bs) h = omega (arith, pow-suc 256 k, from_le-lt k bs h.1, h.0)

-- An integer that was read is written back as it was.
pub to_le-from_le :
    (k : ℕ) (bs : List ℕ)
    → All IsByte bs
    → k ≤ length bs
    → to_le k (from_le (take k bs)) ++ drop k bs ≡ bs
unfolding to_le from_le
to_le-from_le zero bs h w = refl
to_le-from_le (suc k) [] h w = absurd (omega arith)
to_le-from_le (suc k) (b ∷ bs) h w =
    let n = from_le (take k bs) in
    let low : (b + 256 * n) % 256 ≡ b = omega (arith, h.0) in
    let high : (b + 256 * n) / 256 ≡ n = omega (arith, h.0) in
    rw (low, high) (ap (λ t. b ∷ t) (to_le-from_le k bs h.1 (omega arith)))
