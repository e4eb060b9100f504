-- ===== src/Message/Bounds.antt =====
-- The decoder of values stays in the bytes it is given, and the loop over them ends.
use libsmp.Base.{
  false, ℕ, zero, suc, ◌+◌, ◌-◌, ◌≤◌, ◌≡◌, refl, arith, Option, none, some, List, [], ◌∷◌, inl, inr,
  ltb, length, get_or, set, drop, ltb→le, length-drop, Bool-cases, ◌==◌, Option-cases,
}
use libsmp.Errors.{Result, ok, err, fault}
use libsmp.Heap.{Heap}
use libsmp.Message.Value.{
  SmpType, Value, empty, type_size, compute_size, from_code, no_type, string, raw, other, uint8,
  int8, uint16, int16, uint32, int32, uint64, int64, f32, f64,
}
use libsmp.Message.Wire.{
  decode_value, decode_body, decode_string, decode_raw, c_string, string_at, after_strlen, raw_of,
  read, byte_at, last_byte_at, byte_at-get_or, read_at-read,
}
use libsmp.Message.Store.{Message}
use libsmp.Message.Codec.{make_room, after_room, after_value, build_values}

length-c_string : (mem : List ℕ) {s : List ℕ} → c_string mem ≡ some s → length s + 1 ≤ length mem
unfolding c_string
length-c_string [] e = ground arith
length-c_string (b ∷ bs) e = elim (Option-cases (c_string bs)) [
  | inl n ↦ ground arith
  | inr (s, w) ↦ ground (arith, length-c_string bs w)
]

-- `taken`, where it is a count, is at least 1 and at most `limit`.
abbrev pub Within : ℕ → Result ℕ → Type 0
Within limit (ok n) = (1 ≤ n) × (n ≤ limit)
Within limit (err e) = Unit {0}
Within limit fault = Unit {0}

string-Within :
    (bytes : List ℕ)
    → 3 ≤ length bytes
    → Within (suc (length bytes)) (string_at (decode_string bytes)).0
unfolding decode_string compute_size
string-Within bytes h = elim (Bool-cases (ltb (length bytes) 2)) [
  | inl e ↦ rw e (omega arith)
  | inr e ↦ elim (Bool-cases (ltb (length bytes) (2 + read 2 bytes))) [
    | inl k ↦ rw (e, k) (omega arith)
    | inr k ↦ elim (Bool-cases (get_or bytes (2 + read 2 bytes - 1) 0 == 0)) [
      | inl z ↦ rw (e, k, last k, z) (walked (c_string (drop 2 bytes)) refl)
      | inr z ↦ rw (e, k, last k, z) (omega arith)
    ]
  ]
]
  where
    last :
        ltb (length bytes) (2 + read 2 bytes) ≡ false
        → byte_at bytes (2 + read 2 bytes - 1) ≡ ok (get_or bytes (2 + read 2 bytes - 1) 0)
    last k = last_byte_at bytes (read 2 bytes) (ltb→le (length bytes) (2 + read 2 bytes) k)

    walked :
        (s : Option (List ℕ))
        → c_string (drop 2 bytes) ≡ s
        → Within (suc (length bytes)) (after_strlen s).0
    walked none e = tt
    walked (some s) e = omega (arith, length-c_string (drop 2 bytes) e, length-drop {0} 2 bytes)

raw-Within :
    (bytes : List ℕ)
    → 2 ≤ length bytes
    → Within (suc (length bytes)) (raw_of (decode_raw bytes) 3).0
unfolding decode_raw compute_size
raw-Within bytes h = elim (Bool-cases (ltb (length bytes) 2)) [
  | inl e ↦ rw e (omega arith)
  | inr e ↦ elim (Bool-cases (ltb (length bytes) (2 + read 2 bytes))) [
    | inl k ↦ rw (e, k) (omega arith)
    | inr k ↦ rw (e, k) (omega (arith, ltb→le (length bytes) (2 + read 2 bytes) k))
  ]
]

decode_body-Within :
    (t : SmpType) (bytes : List ℕ)
    → type_size t ≤ length bytes
    → Within (suc (length bytes)) (decode_body t bytes (1 + type_size t)).0
unfolding decode_body type_size
decode_body-Within string bytes h = string-Within bytes h
decode_body-Within raw bytes h = raw-Within bytes h
decode_body-Within no_type bytes h = tt
decode_body-Within (other n) bytes h = tt
decode_body-Within uint8 bytes h = rw (byte_at-get_or bytes 0 h) (omega arith)
decode_body-Within int8 bytes h = rw (byte_at-get_or bytes 0 h) (omega arith)
decode_body-Within uint16 bytes h = rw (read_at-read 2 bytes h) (omega arith)
decode_body-Within int16 bytes h = rw (read_at-read 2 bytes h) (omega arith)
decode_body-Within uint32 bytes h = rw (read_at-read 4 bytes h) (omega arith)
decode_body-Within int32 bytes h = rw (read_at-read 4 bytes h) (omega arith)
decode_body-Within uint64 bytes h = rw (read_at-read 8 bytes h) (omega arith)
decode_body-Within int64 bytes h = rw (read_at-read 8 bytes h) (omega arith)
decode_body-Within f32 bytes h = rw (read_at-read 4 bytes h) (omega arith)
decode_body-Within f64 bytes h = rw (read_at-read 8 bytes h) (omega arith)

-- Whatever the bytes, where the decoder of a value returns a count, the count is at least 1 and at
-- most the number of bytes.
pub decode_value-Within :
    (old : Value) (bytes : List ℕ) → Within (length bytes) (decode_value old bytes).0
unfolding decode_value
decode_value-Within old [] = tt
decode_value-Within old (b ∷ bs) = elim (Bool-cases (ltb (length (b ∷ bs)) 2)) [
  | inl e ↦ rw e tt
  | inr e ↦ elim (Bool-cases (ltb (length (b ∷ bs)) (1 + type_size (from_code b)))) [
    | inl k ↦ rw (e, k) tt
    | inr k ↦
        rw (e, k)
          (decode_body-Within (from_code b) bs
            (omega (arith, ltb→le (length (b ∷ bs)) (1 + type_size (from_code b)) k)))
  ]
]

after_room-ap :
    (r : Result (Unit {0}) × Heap × Message)
    {f g : Heap → Message → Result (Unit {0}) × Heap × Message}
    → ((h : Heap) (m : Message) → f h m ≡ g h m)
    → after_room r f ≡ after_room r g
unfolding after_room
after_room-ap (ok u, h, m) e = e h m
after_room-ap (err x, h, m) e = refl
after_room-ap (fault, h, m) e = refl

after_value-ap :
    (r : Result ℕ × Value) (limit i : ℕ) (h : Heap) (m : Message)
    {f g : ℕ → Message → Result (Unit {0}) × Heap × Message}
    → Within limit r.0
    → ((n : ℕ) (m' : Message) → 1 ≤ n → n ≤ limit → f n m' ≡ g n m')
    → after_value r i h m f ≡ after_value r i h m g
unfolding after_value
after_value-ap (ok n, v) limit i h m w e = e n (record m { values = set m.values i v }) w.0 w.1
after_value-ap (err x, v) limit i h m w e = refl
after_value-ap (fault, v) limit i h m w e = refl

-- Fuel for each byte is enough: with any two amounts of fuel that are at least the number of bytes,
-- the loop over a payload gives the same result.
pub build_values-fuel :
    (fuel fuel' : ℕ) (h : Heap) (m : Message) (i : ℕ) (bytes : List ℕ)
    → length bytes ≤ fuel
    → length bytes ≤ fuel'
    → build_values fuel h m i bytes ≡ build_values fuel' h m i bytes
unfolding build_values
build_values-fuel fuel fuel' h m i [] a b = refl
build_values-fuel zero fuel' h m i (x ∷ xs) a b = absurd (omega arith)
build_values-fuel (suc fuel) zero h m i (x ∷ xs) a b = absurd (omega arith)
build_values-fuel (suc fuel) (suc fuel') h m i (x ∷ xs) a b =
    after_room-ap (make_room h m i) (λ h1 m1.
      after_value-ap (decode_value (get_or m1.values i empty) (x ∷ xs)) (length (x ∷ xs)) i h1 m1
        (decode_value-Within (get_or m1.values i empty) (x ∷ xs))
        (λ n m2 one le.
          build_values-fuel fuel fuel' h1 m2 (i + 1) (drop n (x ∷ xs))
            (omega (arith, length-drop {0} n (x ∷ xs)))
            (omega (arith, length-drop {0} n (x ∷ xs)))))
