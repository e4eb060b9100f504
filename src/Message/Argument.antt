-- ===== src/Message/Argument.antt =====
-- One argument: what is encoded is the format's bytes.
use libsmp.Base.{
  ℕ, suc, ◌+◌, ◌≡◌, refl, sym, ap, ◌∙◌, arith, none, some, List, [], ◌∷◌, ◌++◌, length, set, All,
  le→ltb, length-append, take_all, ne→==,
}
use libsmp.Base.Memory.{write, write-write}
use libsmp.Base.Bytes.{to_le, length-to_le}
use libsmp.Errors.{Result, ok}
use libsmp.Message.Value.{
  SmpType, no_type, string, raw, other, Value, scalar, cstring, craw, untyped, to_code, type_size,
  type_of, compute_size,
}
use libsmp.Message.Wire.{c_string, encode_scalar, encode_body, encode_value}
use libsmp.Message.Format.{IsScalar, IsText, IsEncodable, data_of, argument}

-- A string that is written behind its size and before a NUL is read back.
pub c_string-text : (s rest : List ℕ) → All IsText s → c_string (s ++ (0 ∷ rest)) ≡ some s
unfolding c_string
c_string-text [] rest h = refl
c_string-text (b ∷ bs) rest h = rw (ne→== b 0 h.0, c_string-text bs rest h.1)

ok_pair :
    {b c : List ℕ} {m n : ℕ} → b ≡ c → m ≡ n → ◌≡◌ {A = Result (List ℕ × ℕ)} (ok (b, m)) (ok (c, n))
ok_pair p q = λ i. ok (p i, q i)

size_scalar :
    (t : SmpType) (n : ℕ)
    → IsScalar t
    → compute_size (scalar t n) ≡ ok (length (to_le (type_size t) n))
unfolding compute_size to_le
size_scalar no_type n h = absurd h
size_scalar string n h = absurd h
size_scalar raw n h = absurd h
size_scalar (other c) n h = absurd h
size_scalar _ n h = refl

pub length-text : (s : List ℕ) (n : ℕ) → length (to_le 2 n ++ (s ++ (0 ∷ []))) ≡ 3 + length s
length-text s n = omega (
  arith,
  length-append {0} (to_le 2 n) (s ++ (0 ∷ [])),
  length-append {0} s (0 ∷ []),
  length-to_le 2 n,
)

pub length-data : (p : List ℕ) (n : ℕ) → length (to_le 2 n ++ p) ≡ 2 + length p
length-data p n = omega (arith, length-append {0} (to_le 2 n) p, length-to_le 2 n)

-- The size that the code computes is the size of the data.
pub compute_size_lem : (v : Value) → IsEncodable v → compute_size v ≡ ok (length (data_of v))
unfolding compute_size data_of
compute_size_lem (scalar t n) h = size_scalar t n h.0
compute_size_lem (cstring none) h = absurd h
compute_size_lem (cstring (some s)) h = ap ok (sym (length-text s (length s + 1)))
compute_size_lem (craw none n) h = absurd h
compute_size_lem (craw (some p) n) h = ap ok (omega (arith, length-data p n, h.0))
compute_size_lem (untyped t) h = absurd h

encode_scalar_lem :
    (t : SmpType) (n : ℕ) (buffer : List ℕ) (o : ℕ)
    → IsScalar t
    → encode_scalar t n buffer o
      ≡ ok (write buffer o (to_le (type_size t) n), suc (length (to_le (type_size t) n)))
unfolding encode_scalar type_size to_le
encode_scalar_lem no_type n buffer o h = absurd h
encode_scalar_lem string n buffer o h = absurd h
encode_scalar_lem raw n buffer o h = absurd h
encode_scalar_lem (other c) n buffer o h = absurd h
encode_scalar_lem _ n buffer o h = refl

-- A value that can be encoded is written whole, its type and its data, and the count returned is
-- the number of these bytes.
pub encode_value_lem :
    (v : Value) (buffer : List ℕ) (o : ℕ)
    → IsEncodable v
    → encode_value v buffer o ≡ ok (write buffer o (argument v), length (argument v))
unfolding encode_value encode_body argument data_of write to_le
encode_value_lem (scalar t n) buffer o h = encode_scalar_lem t n _ (o + 1) h.0
encode_value_lem (cstring none) buffer o h = absurd h
encode_value_lem (cstring (some s)) buffer o h =
    let b = set buffer o (to_code (type_of (cstring (some s)))) in
    let size = to_le 2 (length s + 1) in
    rw (le→ltb 65534 (length s) h.1) (
      ok_pair
        (write-write (write b (o + 1) size) (o + 1 + 2) s (0 ∷ [])
          ∙ write-write b (o + 1) size (s ++ (0 ∷ [])))
        (omega (arith, length-text s (length s + 1))))
encode_value_lem (craw none n) buffer o h = absurd h
encode_value_lem (craw (some p) n) buffer o h =
    let b = set buffer o (to_code (type_of (craw (some p) n))) in
    rw (le→ltb 65535 n h.1, le→ltb (length p) n (omega arith), take_all n p (omega arith))
      (ok_pair (write-write b (o + 1) (to_le 2 n) p) (omega (arith, length-data p n, h.0)))
encode_value_lem (untyped t) buffer o h = absurd h
