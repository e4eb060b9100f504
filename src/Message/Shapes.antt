-- ===== src/Message/Shapes.antt =====
-- The shapes of an argument that the decoder of values accepts, and how it reads numbers and finds the
-- end of a string: src/message.c, lines 46 to 73 and 230 to 297.
use libsmp.Base.{
  ℕ, ◌+◌, ◌-◌, ◌≤◌, ◌<◌, ◌≡◌, ◌≢◌, ◌⊎◌, sym, ap, subst, ◌∙◌, arith, Option, none, some, List, [],
  ◌∷◌, ◌++◌, inl, inr, length, get_or, drop, All, Bool-cases, ◌==◌, ==_sound, ==→ne,
}
use libsmp.Base.Bytes.{IsByte, to_le, from_le, from_le-lt, to_le-from_le, length-to_le}
use libsmp.Errors.{Result, ok, err, fault}
use libsmp.Message.Value.{
  SmpType, string, raw, Value, scalar, cstring, untyped, type_size, type_of, to_code,
}
use libsmp.Message.Wire.{c_string, read}
use libsmp.Message.Format.{IsScalar, IsText, IsEncodable, data_of, argument}

-- The first `n` bytes are taken for the value `v`: they are its encoding, or one of three other things.
pub data Accepted (bytes : List ℕ) (n : ℕ) (v : Value) : Type 0 where
  encoded :
      (rest : List ℕ)
      → IsEncodable v
      → n ≡ length (argument v)
      → bytes ≡ argument v ++ rest
      → Accepted bytes n v
  -- a string that ends before the size that it is given
  short_string :
      (size : ℕ) (s rest : List ℕ)
      → size ≢ length s + 1
      → bytes ≡ to_code string ∷ (to_le 2 size ++ (s ++ (0 ∷ rest)))
      → n ≡ 4 + length s
      → v ≡ cstring (some s)
      → Accepted bytes n v
  -- a string of which not all is there, or that does not end in a NUL
  no_string :
      (size : ℕ) (rest : List ℕ)
      → bytes ≡ to_code string ∷ (to_le 2 size ++ rest)
      → (length rest < size) ⊎ (get_or rest (size - 1) 0 ≢ 0)
      → n ≡ 4
      → v ≡ cstring none
      → Accepted bytes n v
  -- raw data of which not all are there
  no_raw :
      (size : ℕ) (rest : List ℕ)
      → bytes ≡ to_code raw ∷ (to_le 2 size ++ rest)
      → length rest < size
      → n ≡ 3
      → v ≡ untyped raw
      → Accepted bytes n v

abbrev pub AcceptedAs : List ℕ → Result ℕ × Value → Type 0
AcceptedAs bytes (ok n, v) = Accepted bytes n v
AcceptedAs bytes (err e, v) = Unit {0}
AcceptedAs bytes (fault, v) = Unit {0}

-- a string that was found, and the NUL behind it
abbrev pub Ends : List ℕ → Option (List ℕ) → Type 0
Ends mem none = Unit {0}
Ends mem (some s) = (rest : List ℕ) × (mem ≡ s ++ (0 ∷ rest)) × All IsText s

pub c_string-Ends : (mem : List ℕ) → Ends mem (c_string mem)
unfolding c_string
c_string-Ends [] = tt
c_string-Ends (b ∷ bs) = elim (Bool-cases (b == 0)) [
  | inl z ↦ rw z (bs, ap (λ x. x ∷ bs) (==_sound b 0 z), tt)
  | inr z ↦ rw z (longer (c_string bs) (==→ne b 0 z) (c_string-Ends bs))
]
  where
    longer :
        (o : Option (List ℕ))
        → IsText b
        → Ends bs o
        → Ends (b ∷ bs) (elim o [ none ↦ none | some s ↦ some (b ∷ s) ])
    longer none t e = tt
    longer (some s) t (rest, split, text) = (rest, ap (λ x. b ∷ x) split, (t, text))

pub scalar-Accepted :
    (t : SmpType) (buffer : List ℕ)
    → IsScalar t
    → All IsByte buffer
    → type_size t ≤ length buffer
    → Accepted (to_code t ∷ buffer) (1 + type_size t) (scalar t (read (type_size t) buffer))
unfolding argument data_of type_of
scalar-Accepted t buffer s h w =
    let k = type_size t in
    encoded (drop k buffer) (s, from_le-lt k buffer h)
      (omega (arith, length-to_le k (read k buffer)))
      (ap (λ b. to_code t ∷ b) (sym (to_le-from_le k buffer h w)))

pub byte-Accepted :
    (t : SmpType) (buffer : List ℕ)
    → IsScalar t
    → type_size t ≡ 1
    → All IsByte buffer
    → type_size t ≤ length buffer
    → Accepted (to_code t ∷ buffer) (1 + type_size t) (scalar t (get_or buffer 0 0))
unfolding from_le
byte-Accepted t [] s e h w = absurd (omega arith)
byte-Accepted t (b ∷ bs) s e h w =
    let one : read 1 (b ∷ bs) ≡ b = omega arith in
    subst (λ n. Accepted (to_code t ∷ (b ∷ bs)) (1 + type_size t) (scalar t n))
      (ap (λ k. read k (b ∷ bs)) e ∙ one) (scalar-Accepted t (b ∷ bs) s h w)
