-- ===== src/Message/Decoding.antt =====
-- One argument: what was encoded is decoded again.
use libsmp.Base.{
  ℕ, suc, ◌+◌, ◌-◌, ◌^◌, ◌≤◌, ◌<◌, ◌≡◌, refl, ap, ◌∙◌, arith, none, some, List, [], ◌∷◌, ◌++◌,
  length, get_or, get_or-append, drop, le→ltb, length-append, append_assoc, take-append,
}
use libsmp.Base.Bytes.{to_le, from_le-to_le, length-to_le, take-to_le}
use libsmp.Errors.{ok}
use libsmp.Message.Value.{
  SmpType, no_type, uint8, int8, uint16, int16, uint32, int32, uint64, int64, string, f32, f64, raw,
  other, Value, scalar, cstring, craw, untyped, to_code, from_code, type_size, type_of,
}
use libsmp.Message.Wire.{
  read_at, byte_at, byte_at-get_or, last_byte_at, scalar_of, decode_string, decode_raw, decode_body,
  decode_value, read, string_at, after_strlen,
}
use libsmp.Message.Format.{IsScalar, IsEncodable, data_of, argument}
use libsmp.Message.Argument.{c_string-text, length-text, length-data}

pub read_lem : (k n : ℕ) (rest : List ℕ) → n < 256 ^ k → read k (to_le k n ++ rest) ≡ n
read_lem k n rest h = rw take-to_le (from_le-to_le k n h)

byte_lem : (n : ℕ) (rest : List ℕ) → n < 256 → get_or (to_le 1 n ++ rest) 0 0 ≡ n
unfolding to_le
byte_lem n rest h = omega arith

byte_in : (n : ℕ) (rest : List ℕ) → n < 256 → byte_at (to_le 1 n ++ rest) 0 ≡ ok n
byte_in n rest h =
    byte_at-get_or (to_le 1 n ++ rest) 0
      (omega (arith, length-append {0} (to_le 1 n) rest, length-to_le 1 n))
    ∙ ap ok (byte_lem n rest h)

read_in : (k n : ℕ) (rest : List ℕ) → n < 256 ^ k → read_at k (to_le k n ++ rest) ≡ ok n
read_in k n rest h =
    rw
      (
        le→ltb (length (to_le k n ++ rest)) k
            (omega (arith, length-append {0} (to_le k n) rest, length-to_le k n)),
        read_lem k n rest h,
      )
      refl

decode_scalar :
    (t : SmpType) (n : ℕ) (rest : List ℕ) (size : ℕ)
    → IsScalar t
    → n < 256 ^ type_size t
    → decode_body t (to_le (type_size t) n ++ rest) size ≡ (ok size, scalar t n)
unfolding decode_body type_size
decode_scalar no_type n rest size s h = absurd s
decode_scalar string n rest size s h = absurd s
decode_scalar raw n rest size s h = absurd s
decode_scalar (other c) n rest size s h = absurd s
decode_scalar uint8 n rest size s h = ap (λ m. scalar_of uint8 size m) (byte_in n rest h)
decode_scalar int8 n rest size s h = ap (λ m. scalar_of int8 size m) (byte_in n rest h)
decode_scalar uint16 n rest size s h = ap (λ m. scalar_of uint16 size m) (read_in 2 n rest h)
decode_scalar int16 n rest size s h = ap (λ m. scalar_of int16 size m) (read_in 2 n rest h)
decode_scalar uint32 n rest size s h = ap (λ m. scalar_of uint32 size m) (read_in 4 n rest h)
decode_scalar int32 n rest size s h = ap (λ m. scalar_of int32 size m) (read_in 4 n rest h)
decode_scalar f32 n rest size s h = ap (λ m. scalar_of f32 size m) (read_in 4 n rest h)
decode_scalar uint64 n rest size s h = ap (λ m. scalar_of uint64 size m) (read_in 8 n rest h)
decode_scalar int64 n rest size s h = ap (λ m. scalar_of int64 size m) (read_in 8 n rest h)
decode_scalar f64 n rest size s h = ap (λ m. scalar_of f64 size m) (read_in 8 n rest h)

-- the two bytes of a size in front of a list
abbrev behind_size : ℕ → List ℕ → List ℕ
behind_size n rest = to_le 2 n ++ rest

behind_size_lem :
    (n : ℕ) (rest : List ℕ)
    → n < 65536
    → (length (behind_size n rest) ≡ 2 + length rest)
      × (read 2 (behind_size n rest) ≡ n)
      × (drop 2 (behind_size n rest) ≡ rest)
      × ((i : ℕ) → get_or (behind_size n rest) (2 + i) 0 ≡ get_or rest i 0)
unfolding to_le
behind_size_lem n rest h = (
  omega arith,
  unfold to_le in read_lem 2 n rest h,
  refl,
  λ i. ap (λ k. get_or (behind_size n rest) k 0) (two_more i),
)
  where
    two_more : (i : ℕ) → 2 + i ≡ suc (suc i)
    two_more i = omega arith

decode_string_lem :
    (s rest : List ℕ)
    → length s ≤ 65534
    → decode_string (behind_size (length s + 1) (s ++ (0 ∷ rest))) ≡ ok (some (s ++ (0 ∷ rest)))
unfolding decode_string
decode_string_lem s rest h =
    let x = s ++ (0 ∷ rest) in
    let (len, size, body, at) = behind_size_lem (length s + 1) x (omega arith) in
    let room : length s + 1 ≤ length x = omega (arith, length-append {0} s (0 ∷ rest)) in
    let last : 2 + (length s + 1) - 1 ≡ 2 + length s = omega arith in
    rw (
      len,
      size,
      le→ltb (2 + length x) 2 (omega arith),
      le→ltb (2 + length x) (2 + (length s + 1)) (omega arith),
      last_byte_at (behind_size (length s + 1) x) (length s + 1) (omega arith),
      last,
      at (length s),
      get_or-append s rest 0 0,
      body,
    )

decode_raw_lem :
    (p rest : List ℕ)
    → length p ≤ 65535
    → decode_raw (behind_size (length p) (p ++ rest)) ≡ ok (p, length p)
unfolding decode_raw
decode_raw_lem p rest h =
    let (len, size, body, at) = behind_size_lem (length p) (p ++ rest) (omega arith) in
    let room : length p ≤ length (p ++ rest) = omega (arith, length-append {0} p rest) in
    rw (
      len,
      size,
      le→ltb (2 + length (p ++ rest)) 2 (omega arith),
      le→ltb (2 + length (p ++ rest)) (2 + length p) (omega arith),
      body,
      take-append p rest,
    )

-- The switch of the decoder reads back the data of any encodable value.
decode_body_lem :
    (v : Value) (rest : List ℕ)
    → IsEncodable v
    → decode_body (type_of v) (data_of v ++ rest) (1 + type_size (type_of v))
      ≡ (ok (length (argument v)), v)
unfolding decode_body data_of argument type_of
decode_body_lem (scalar t n) rest h =
    decode_scalar t n rest (1 + type_size t) h.0 h.1
    ∙ ap (λ k. (ok k, scalar t n)) (omega (arith, length-to_le (type_size t) n))
decode_body_lem (cstring none) rest h = absurd h
decode_body_lem (cstring (some s)) rest h =
    ap (λ b. string_at (decode_string b))
      (append_assoc (to_le 2 (length s + 1)) (s ++ (0 ∷ [])) rest
        ∙ ap (λ t. to_le 2 (length s + 1) ++ t) (append_assoc s (0 ∷ []) rest))
    ∙ ap string_at (decode_string_lem s rest h.1)
    ∙ ap after_strlen (c_string-text s rest h.0)
    ∙ ap (λ k. (ok k, cstring (some s))) (omega (arith, length-text s (length s + 1)))
decode_body_lem (craw none n) rest h = absurd h
decode_body_lem (craw (some p) n) rest h =
    rw (h.0, append_assoc (to_le 2 (length p)) p rest, decode_raw_lem p rest (omega arith))
      (ap (λ k. (ok k, craw (some p) (length p))) (omega (arith, length-data p (length p))))
decode_body_lem (untyped t) rest h = absurd h

from_code-type_of : (v : Value) → IsEncodable v → from_code (to_code (type_of v)) ≡ type_of v
unfolding from_code to_code type_of
from_code-type_of (scalar no_type n) h = absurd h.0
from_code-type_of (scalar (other c) n) h = absurd h.0
from_code-type_of (scalar t n) h = refl
from_code-type_of (untyped t) h = absurd h
from_code-type_of v h = refl

scalar_pos : (t : SmpType) → IsScalar t → 1 ≤ type_size t
unfolding type_size
scalar_pos no_type h = absurd h
scalar_pos string h = absurd h
scalar_pos raw h = absurd h
scalar_pos (other c) h = absurd h
scalar_pos _ h = omega arith

data_size :
    (v : Value)
    → IsEncodable v
    → (1 ≤ length (data_of v)) × (type_size (type_of v) ≤ length (data_of v))
unfolding data_of type_of type_size
data_size (scalar t n) h = omega (arith, scalar_pos t h.0, length-to_le (type_size t) n)
data_size (cstring none) h = absurd h
data_size (cstring (some s)) h = omega (arith, length-text s (length s + 1))
data_size (craw none n) h = absurd h
data_size (craw (some p) n) h = omega (arith, length-data p n)
data_size (untyped t) h = absurd h

-- The decoder takes an encoded argument off the front of the bytes, whatever follows it and
-- whatever the slot held, returns the number of its bytes, and fills the slot with the value.
pub decode_value_lem :
    (v old : Value) (rest : List ℕ)
    → IsEncodable v
    → decode_value old (argument v ++ rest) ≡ (ok (length (argument v)), v)
unfolding decode_value argument
decode_value_lem v old rest h =
    let (one, all) = data_size v h in
    let n = length-append {0} (data_of v) rest in
    rw
      (
        from_code-type_of v h,
        le→ltb (length (argument v ++ rest)) 2 (omega arith),
        le→ltb (length (argument v ++ rest)) (1 + type_size (type_of v)) (omega arith),
      )
      (decode_body_lem v rest h)
