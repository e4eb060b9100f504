-- ===== src/Message/OverRead.antt =====
-- Where the decoder of values reads past the bytes that it is given: src/message.c, lines 172 to 177,
-- 205 and 273 to 276.
use libsmp.Base.{
  ℕ, zero, suc, ◌+◌, ◌-◌, ◌≤◌, ◌<◌, ◌≡◌, ◌≢◌, ◌↔◌, refl, sym, ap, ◌∙◌, arith, none, List, [], ◌∷◌,
  inl, inr, ltb, length, get_or, drop, ltb→le, length-drop, Bool-cases, Option-cases, ◌==◌,
  ==_sound, le→ltb,
}
use libsmp.Errors.{Error, Result, ok, err, fault, bad_message}
use libsmp.Message.Value.{
  SmpType, no_type, uint8, int8, uint16, int16, uint32, int32, uint64, int64, string, f32, f64, raw,
  other, Value, type_size, compute_size, from_code,
}
use libsmp.Message.Wire.{
  decode_value, decode_body, decode_string, decode_raw, c_string, string_at, raw_of, read, read_at,
  byte_at, scalar_of, byte_at-get_or, last_byte_at,
}
use libsmp.Base.Bytes.{from_le}

c_string_found : (mem : List ℕ) (i : ℕ) → i < length mem → get_or mem i 0 ≡ 0 → c_string mem ≢ none
unfolding c_string
c_string_found [] i h z e = absurd (omega arith)
c_string_found (b ∷ bs) zero h z e = ground arith
c_string_found (b ∷ bs) (suc i) h z e = elim (Option-cases (c_string bs)) [
  | inl n ↦ c_string_found bs i (omega arith) z n
  | inr (s, w) ↦ ground arith
]

pub get_or-drop : (bytes : List ℕ) (k : ℕ) → get_or bytes (2 + k) 0 ≡ get_or (drop 2 bytes) k 0
get_or-drop [] k = refl
get_or-drop (x ∷ []) k = ap (λ i. get_or (x ∷ []) i 0) two
  where
    two : 2 + k ≡ suc (suc k)
    two = omega arith
get_or-drop (x ∷ y ∷ zs) k = ap (λ i. get_or (x ∷ y ∷ zs) i 0) two
  where
    two : 2 + k ≡ suc (suc k)
    two = omega arith

-- no NUL is behind a size of 0
abbrev IsOpen : List ℕ → Type 0
IsOpen bytes = (read 2 bytes ≡ 0) × (c_string (drop 2 bytes) ≡ none)

size_zero :
    (bytes : List ℕ)
    → 2 + read 2 bytes ≤ length bytes
    → get_or bytes (2 + read 2 bytes - 1) 0 ≡ 0
    → c_string (drop 2 bytes) ≡ none
    → read 2 bytes ≡ 0
size_zero bytes room nul open_end = by_size (read 2 bytes) refl
  where
    by_size : (n : ℕ) → read 2 bytes ≡ n → read 2 bytes ≡ 0
    by_size zero e = e
    by_size (suc k) e =
        let index : 2 + read 2 bytes - 1 ≡ 2 + k = omega arith in
        absurd (
          c_string_found (drop 2 bytes) k (omega (arith, length-drop {0} 2 bytes))
            (sym (get_or-drop bytes k) ∙ sym (ap (λ i. get_or bytes i 0) index) ∙ nul) open_end)

ok_ne_fault : (n : ℕ) → ◌≢◌ {A = Result ℕ} (ok n) fault
ok_ne_fault n e = cc e

err_ne_fault : (x : Error) → ◌≢◌ {A = Result ℕ} (err x) fault
err_ne_fault x e = cc e

string_fault : (bytes : List ℕ) → (string_at (decode_string bytes)).0 ≡ fault → IsOpen bytes
unfolding decode_string compute_size
string_fault bytes f = elim (Bool-cases (ltb (length bytes) 2)) [
  | inl e ↦ absurd (ok_ne_fault 4 (rw e at f))
  | inr e ↦ elim (Bool-cases (ltb (length bytes) (2 + read 2 bytes))) [
    | inl k ↦ absurd (ok_ne_fault 4 (rw (e, k) at f))
    | inr k ↦
        let last = last_byte_at bytes (read 2 bytes) (ltb→le (length bytes) (2 + read 2 bytes) k) in
        elim (Bool-cases (get_or bytes (2 + read 2 bytes - 1) 0 == 0)) [
          | inr z ↦ absurd (ok_ne_fault 4 (rw (e, k, last, z) at f))
          | inl z ↦ elim (Option-cases (c_string (drop 2 bytes))) [
            | inl n ↦ (
              size_zero bytes (ltb→le (length bytes) (2 + read 2 bytes) k)
                  (==_sound (get_or bytes (2 + read 2 bytes - 1) 0) 0 z) n,
              n,
            )
            | inr (s, w) ↦ absurd (ok_ne_fault (1 + (3 + length s)) (rw (e, k, last, z, w) at f))
          ]
        ]
  ]
]

raw_no_fault : (bytes : List ℕ) (n : ℕ) → (raw_of (decode_raw bytes) n).0 ≢ fault
unfolding decode_raw compute_size
raw_no_fault bytes n f = elim (Bool-cases (ltb (length bytes) 2)) [
  | inl e ↦ ok_ne_fault n (rw e at f)
  | inr e ↦ elim (Bool-cases (ltb (length bytes) (2 + read 2 bytes))) [
    | inl k ↦ ok_ne_fault n (rw (e, k) at f)
    | inr k ↦ ok_ne_fault (1 + (2 + read 2 bytes)) (rw (e, k) at f)
  ]
]

byte_no_fault :
    (t : SmpType) (bytes : List ℕ) (n : ℕ)
    → 1 ≤ length bytes
    → (scalar_of t n (byte_at bytes 0)).0 ≢ fault
byte_no_fault t bytes n h f = ok_ne_fault n (rw (byte_at-get_or bytes 0 h) at f)

scalar_no_fault :
    (t : SmpType) (k : ℕ) (bytes : List ℕ) (n : ℕ)
    → k ≤ length bytes
    → (scalar_of t n (read_at k bytes)).0 ≢ fault
scalar_no_fault t k bytes n h f = ok_ne_fault n (rw (le→ltb (length bytes) k h) at f)

body_fault :
    (t : SmpType) (bytes : List ℕ) (n : ℕ)
    → type_size t ≤ length bytes
    → (decode_body t bytes n).0 ≡ fault
    → (t ≡ string) × IsOpen bytes
unfolding decode_body type_size
body_fault string bytes n h f = (refl, string_fault bytes f)
body_fault raw bytes n h f = absurd (raw_no_fault bytes n f)
body_fault no_type bytes n h f = absurd (err_ne_fault bad_message f)
body_fault (other c) bytes n h f = absurd (err_ne_fault bad_message f)
body_fault uint8 bytes n h f = absurd (byte_no_fault uint8 bytes n h f)
body_fault int8 bytes n h f = absurd (byte_no_fault int8 bytes n h f)
body_fault uint16 bytes n h f = absurd (scalar_no_fault uint16 2 bytes n h f)
body_fault int16 bytes n h f = absurd (scalar_no_fault int16 2 bytes n h f)
body_fault uint32 bytes n h f = absurd (scalar_no_fault uint32 4 bytes n h f)
body_fault int32 bytes n h f = absurd (scalar_no_fault int32 4 bytes n h f)
body_fault uint64 bytes n h f = absurd (scalar_no_fault uint64 8 bytes n h f)
body_fault int64 bytes n h f = absurd (scalar_no_fault int64 8 bytes n h f)
body_fault f32 bytes n h f = absurd (scalar_no_fault f32 4 bytes n h f)
body_fault f64 bytes n h f = absurd (scalar_no_fault f64 8 bytes n h f)

string_opens :
    (bytes : List ℕ)
    → 2 ≤ length bytes
    → get_or bytes 1 0 ≡ 0
    → IsOpen bytes
    → (string_at (decode_string bytes)).0 ≡ fault
unfolding decode_string
string_opens bytes room high (size, open_end) =
    rw
      (
        le→ltb (length bytes) 2 room,
        size,
        le→ltb (length bytes) 2 room,
        byte_at-get_or bytes 1 (omega arith),
        high,
        open_end,
      )
      refl

-- The bytes are a string argument, at least two bytes behind its type, of size 0 with no NUL behind
-- the size.
abbrev pub OverReads : List ℕ → Type 0
OverReads bytes =
    (3 < length bytes) × (from_code (get_or bytes 0 0) ≡ string) × IsOpen (drop 1 bytes)

pub high_zero : (bytes : List ℕ) → read 2 bytes ≡ 0 → get_or bytes 1 0 ≡ 0
unfolding from_le
high_zero [] e = refl
high_zero (x ∷ []) e = refl
high_zero (x ∷ y ∷ zs) e = omega (arith, e)

only_open : (old : Value) (bytes : List ℕ) → (decode_value old bytes).0 ≡ fault → OverReads bytes
unfolding decode_value type_size
only_open old bytes f = elim (Bool-cases (ltb (length bytes) 2)) [
  | inl e ↦ absurd (err_ne_fault bad_message (rw e at f))
  | inr e ↦
      let first = byte_at-get_or bytes 0 (omega (arith, ltb→le (length bytes) 2 e)) in
      elim (Bool-cases (ltb (length bytes) (1 + type_size (from_code (get_or bytes 0 0))))) [
        | inl k ↦ absurd (err_ne_fault bad_message (rw (e, first, k) at f))
        | inr k ↦
            let t = from_code (get_or bytes 0 0) in
            let room : 1 + type_size t ≤ length bytes = ltb→le (length bytes) (1 + type_size t) k in
            let (is_string, open_end) =
              body_fault t (drop 1 bytes) (1 + type_size t) (omega (arith, length-drop {0} 1 bytes))
                (rw (e, first, k) at f) in
            (
              omega (arith, ltb→le (length bytes) (1 + type_size t) k, ap type_size is_string),
              is_string,
              open_end,
            )
      ]
]

fault_of : (old : Value) (bytes : List ℕ) → OverReads bytes → (decode_value old bytes).0 ≡ fault
unfolding decode_value decode_body type_size
fault_of old bytes (room, is_string, open_end) =
    rw
      (
        le→ltb (length bytes) 2 (omega arith),
        byte_at-get_or bytes 0 (omega arith),
        is_string,
        le→ltb (length bytes) 4 (omega arith),
      )
      (string_opens (drop 1 bytes) (omega (arith, length-drop {0} 1 bytes))
        (high_zero (drop 1 bytes) open_end.0) open_end)

-- Of the reads of the decoder of a value, of the type, of an integer, a float, a size or the last
-- byte of a string, and of `strlen`, one goes past the bytes given exactly for a string argument of
-- size 0 that is followed by a byte at least and by no NUL.
pub decode_value-OverReads :
    (old : Value) (bytes : List ℕ) → (decode_value old bytes).0 ≡ fault ↔ OverReads bytes
decode_value-OverReads old bytes = (only_open old bytes, fault_of old bytes)
