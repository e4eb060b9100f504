-- ===== src/Message/TooLong.antt =====
-- Values that are too long for their size field, one by one: src/message.c, lines 331 to 352 and 618 to
-- 645.
use libsmp.Base.{
  ℕ, ◌+◌, ◌^◌, ◌<◌, ◌≡◌, refl, sym, ap, ◌∙◌, arith, Bool, true, false, none, some, List, [], ◌∷◌,
  ◌++◌, if◌then◌else◌, ltb, length, All, set-append,
}
use libsmp.Errors.{ok}
use libsmp.Message.Value.{
  Value, cstring, craw, scalar, untyped, is_none, type_of, to_code, compute_size,
}
use libsmp.Message.Wire.{encode_value, encode_body}
use libsmp.Message.Codec.{sum_sizes}
use libsmp.Message.Format.{IsEncodable, data_of}
use libsmp.Message.Argument.{compute_size_lem, length-text, length-data}
use libsmp.Message.Encoding.{add_size_lem}

-- A string of more than 65534 bytes, or raw data of more than 65535.
abbrev pub too_long : Value → Bool
too_long (cstring (some s)) = ltb 65534 (length s)
too_long (craw (some p) n) = ltb 65535 n
too_long _ = false

-- A slot: empty, a value that can be encoded, or one that is too long.
pub data Slot (v : Value) : Type 0 where
  unused : is_none v ≡ true → Slot v
  fits : is_none v ≡ false → too_long v ≡ false → IsEncodable v → Slot v
  long : is_none v ≡ false → too_long v ≡ true → Slot v

-- the values without those that are too long
unfoldable pub shortened : List Value → List Value
shortened [] = []
shortened (v ∷ vs) = if too_long v then shortened vs else v ∷ shortened vs

abbrev pub size_of : Value → ℕ
size_of (cstring (some s)) = 3 + length s
size_of (craw p n) = 2 + n
size_of v = length (data_of v)

-- the bytes that all the values take, those that are too long as well
unfoldable pub room_for : List Value → ℕ
room_for [] = 0
room_for (v ∷ vs) = if is_none v then room_for vs else 1 + size_of v + room_for vs

pub encode_long :
    (v : Value) (xs : List ℕ) (r : ℕ) (rest : List ℕ)
    → too_long v ≡ true
    → encode_value v (xs ++ (r ∷ rest)) (length xs) ≡ ok (xs ++ (to_code (type_of v) ∷ rest), 0)
unfolding encode_value encode_body
encode_long (cstring (some s)) xs r rest e =
    rw e (ap (λ t. ok (t, 0)) (set-append xs r rest (to_code (type_of (cstring (some s))))))
encode_long (craw (some p) n) xs r rest e =
    rw e (ap (λ t. ok (t, 0)) (set-append xs r rest (to_code (type_of (craw (some p) n)))))
encode_long (cstring none) xs r rest e = cc
encode_long (craw none n) xs r rest e = cc
encode_long (scalar t n) xs r rest e = cc
encode_long (untyped t) xs r rest e = cc

pub size_of_lem : (v : Value) → IsEncodable v → size_of v ≡ length (data_of v)
unfolding data_of
size_of_lem (scalar t n) h = refl
size_of_lem (cstring none) h = refl
size_of_lem (cstring (some s)) h = sym (length-text s (length s + 1))
size_of_lem (craw none n) h = absurd h
size_of_lem (craw (some p) n) h = omega (arith, length-data p n, h.0)
size_of_lem (untyped t) h = refl

size_long : (v : Value) → too_long v ≡ true → compute_size v ≡ ok (size_of v)
unfolding compute_size
size_long (cstring (some s)) h = refl
size_long (craw (some p) n) h = refl
size_long (cstring none) h = cc
size_long (craw none n) h = cc
size_long (scalar t n) h = cc
size_long (untyped t) h = cc

pub none-fits : (v : Value) → is_none v ≡ true → too_long v ≡ false
unfolding is_none type_of
none-fits (cstring s) h = cc
none-fits (craw p n) h = cc
none-fits (scalar t n) h = refl
none-fits (untyped t) h = refl

-- the sum that the code computes before it writes
pub sum_sizes-room :
    (vs : List Value) (ret : ℕ)
    → All Slot vs
    → ret + room_for vs < 2 ^ 64
    → sum_sizes ret vs ≡ ok (ret + room_for vs)
unfolding sum_sizes room_for
sum_sizes-room [] ret h w = ap ok (omega arith)
sum_sizes-room (v ∷ vs) ret (unused e, h) w = rw e (sum_sizes-room vs ret h (rw e at w))
sum_sizes-room (v ∷ vs) ret (fits e t c, h) w =
    let size = size_of_lem v c in
    let small : ret + (1 + size_of v + room_for vs) < 2 ^ 64 = rw e at w in
    rw (e, compute_size_lem v c, sym size, add_size_lem ret (1 + size_of v) (omega arith))
      (sum_sizes-room vs (ret + (1 + size_of v)) h (omega arith) ∙ ap ok (omega arith))
sum_sizes-room (v ∷ vs) ret (long e t, h) w =
    let small : ret + (1 + size_of v + room_for vs) < 2 ^ 64 = rw e at w in
    rw (e, size_long v t, add_size_lem ret (1 + size_of v) (omega arith))
      (sum_sizes-room vs (ret + (1 + size_of v)) h (omega arith) ∙ ap ok (omega arith))
