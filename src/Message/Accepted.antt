-- ===== src/Message/Accepted.antt =====
-- What the decoder of values accepts: src/message.c, lines 191 to 297.
use libsmp.Base.{
  false, ℕ, zero, suc, ◌+◌, ◌-◌, ◌≤◌, ◌≡◌, ◌≢◌, refl, sym, ap, subst, ◌∙◌, arith, Option, none,
  some, List, [], ◌∷◌, ◌++◌, inl, inr, ltb, length, get_or, take, drop, All, ltb→le, ltb→lt,
  length-drop, length-take, Bool-cases, ◌==◌, ==_sound, ==→ne, le→ltb, append_assoc,
  take-append-drop,
}
use libsmp.Base.Bytes.{IsByte, to_le, from_le-lt, to_le-from_le}
use libsmp.Errors.{ok}
use libsmp.Message.Value.{
  SmpType, no_type, uint8, int8, uint16, int16, uint32, int32, uint64, int64, string, f32, f64, raw,
  other, Value, cstring, craw, type_size, type_of, compute_size, from_code, to_code,
}
use libsmp.Message.Wire.{
  decode_value, decode_body, decode_string, decode_raw, c_string, string_at, after_strlen, raw_of,
  read, byte_at, last_byte_at, byte_at-get_or, read_at-read,
}
use libsmp.Message.Format.{IsText, data_of, argument}
use libsmp.Message.Argument.{length-text, length-data}
use libsmp.Message.OverRead.{get_or-drop, high_zero}
use libsmp.Message.Shapes.{
  Accepted, AcceptedAs, encoded, short_string, no_string, no_raw, Ends, c_string-Ends,
  scalar-Accepted, byte-Accepted,
}

-- the size and what is behind it
split_size :
    (buffer : List ℕ)
    → All IsByte buffer
    → 2 ≤ length buffer
    → buffer ≡ to_le 2 (read 2 buffer) ++ drop 2 buffer
split_size buffer h w = sym (to_le-from_le 2 buffer h w)

-- The byte in front of the end of the string that the size gives is behind the size.
last_byte :
    (buffer : List ℕ) (n : ℕ)
    → read 2 buffer ≡ n
    → get_or buffer (2 + n - 1) 0 ≢ 0
    → get_or (drop 2 buffer) (n - 1) 0 ≢ 0
last_byte buffer zero e z = absurd (z (high_zero buffer e))
last_byte buffer (suc k) e z =
    let index : 2 + suc k - 1 ≡ 2 + k = omega arith in
    let before : suc k - 1 ≡ k = omega arith in
    rw before (λ y. z (ap (λ i. get_or buffer i 0) index ∙ get_or-drop buffer k ∙ y))

whole_string :
    (buffer s rest : List ℕ)
    → All IsByte buffer
    → 2 ≤ length buffer
    → read 2 buffer ≡ length s + 1
    → drop 2 buffer ≡ s ++ (0 ∷ rest)
    → All IsText s
    → Accepted (to_code string ∷ buffer) (1 + (3 + length s)) (cstring (some s))
unfolding argument data_of type_of
whole_string buffer s rest h w size split text =
    encoded rest (text, omega (arith, from_le-lt 2 buffer h))
      (omega (arith, length-text s (length s + 1)))
      (ap (λ b. to_code string ∷ b)
        (split_size buffer h w
          ∙ (λ i. to_le 2 (size i) ++ split i)
          ∙ ap (λ t. to_le 2 (length s + 1) ++ t) (sym (append_assoc s (0 ∷ []) rest))
          ∙ sym (append_assoc (to_le 2 (length s + 1)) (s ++ (0 ∷ [])) rest)))

found_string :
    (buffer : List ℕ) (o : Option (List ℕ))
    → All IsByte buffer
    → 2 ≤ length buffer
    → Ends (drop 2 buffer) o
    → AcceptedAs (to_code string ∷ buffer) (after_strlen o)
unfolding compute_size
found_string buffer none h w e = tt
found_string buffer (some s) h w (rest, split, text) =
    elim (Bool-cases (read 2 buffer == length s + 1)) [
      | inl z ↦
          whole_string buffer s rest h w (==_sound (read 2 buffer) (length s + 1) z) split text
      | inr z ↦
          short_string (read 2 buffer) s rest (==→ne (read 2 buffer) (length s + 1) z)
            (ap (λ b. to_code string ∷ b)
              (split_size buffer h w ∙ ap (λ b. to_le 2 (read 2 buffer) ++ b) split))
            (omega arith) refl
    ]

string-Accepted :
    (buffer : List ℕ)
    → All IsByte buffer
    → 3 ≤ length buffer
    → AcceptedAs (to_code string ∷ buffer) (string_at (decode_string buffer))
unfolding decode_string compute_size
string-Accepted buffer h w =
    let size = read 2 buffer in
    let whole = ap (λ b. to_code string ∷ b) (split_size buffer h (omega arith)) in
    let last : ltb (length buffer) (2 + size) ≡ false
        → byte_at buffer (2 + size - 1) ≡ ok (get_or buffer (2 + size - 1) 0) =
      λ k. last_byte_at buffer size (ltb→le (length buffer) (2 + size) k) in
    rw (le→ltb (length buffer) 2 (omega arith))
      (elim (Bool-cases (ltb (length buffer) (2 + size))) [
        | inl k ↦ rw k (
            no_string size (drop 2 buffer) whole
              (inl (omega (arith, length-drop {0} 2 buffer, ltb→lt (length buffer) (2 + size) k)))
              refl refl)
        | inr k ↦ elim (Bool-cases (get_or buffer (2 + size - 1) 0 == 0)) [
          | inr z ↦
              rw (k, last k, z)
                (no_string size (drop 2 buffer) whole
                  (inr (last_byte buffer size refl (==→ne (get_or buffer (2 + size - 1) 0) 0 z)))
                  refl refl)
          | inl z ↦
              rw (k, last k, z)
                (found_string buffer (c_string (drop 2 buffer)) h (omega arith)
                  (c_string-Ends (drop 2 buffer)))
        ]
      ])

whole_raw :
    (buffer : List ℕ)
    → All IsByte buffer
    → 2 + read 2 buffer ≤ length buffer
    → let size = read 2 buffer in
      Accepted
        (to_code raw ∷ buffer)
        (1 + (2 + size))
        (craw (some (take size (drop 2 buffer))) size)
unfolding argument data_of type_of
whole_raw buffer h w =
    let size = read 2 buffer in
    let body = drop 2 buffer in
    let long : length (take size body) ≡ size =
      omega (arith, length-take {0} size body, length-drop {0} 2 buffer) in
    encoded (drop size body) (sym long, omega (arith, from_le-lt 2 buffer h))
      (omega (arith, length-data (take size body) size))
      (ap (λ b. to_code raw ∷ b)
        (split_size buffer h (omega arith)
          ∙ ap (λ b. to_le 2 size ++ b) (sym (take-append-drop size body))
          ∙ sym (append_assoc (to_le 2 size) (take size body) (drop size body))))

raw-Accepted :
    (buffer : List ℕ)
    → All IsByte buffer
    → 2 ≤ length buffer
    → AcceptedAs (to_code raw ∷ buffer) (raw_of (decode_raw buffer) 3)
unfolding decode_raw compute_size
raw-Accepted buffer h w =
    let size = read 2 buffer in
    rw (le→ltb (length buffer) 2 w) (elim (Bool-cases (ltb (length buffer) (2 + size))) [
      | inl k ↦ rw k (
          no_raw size (drop 2 buffer) (ap (λ b. to_code raw ∷ b) (split_size buffer h w))
            (omega (arith, length-drop {0} 2 buffer, ltb→lt (length buffer) (2 + size) k)) refl
            refl)
      | inr k ↦ rw k (whole_raw buffer h (ltb→le (length buffer) (2 + size) k))
    ])

body-Accepted :
    (t : SmpType) (buffer : List ℕ)
    → All IsByte buffer
    → type_size t ≤ length buffer
    → AcceptedAs (to_code t ∷ buffer) (decode_body t buffer (1 + type_size t))
unfolding decode_body type_size
body-Accepted no_type buffer h w = tt
body-Accepted (other n) buffer h w = tt
body-Accepted string buffer h w = string-Accepted buffer h w
body-Accepted raw buffer h w = raw-Accepted buffer h w
body-Accepted uint8 buffer h w =
    rw (byte_at-get_or buffer 0 w) (byte-Accepted uint8 buffer tt refl h w)
body-Accepted int8 buffer h w =
    rw (byte_at-get_or buffer 0 w) (byte-Accepted int8 buffer tt refl h w)
body-Accepted uint16 buffer h w =
    rw (read_at-read 2 buffer w) (scalar-Accepted uint16 buffer tt h w)
body-Accepted int16 buffer h w = rw (read_at-read 2 buffer w) (scalar-Accepted int16 buffer tt h w)
body-Accepted uint32 buffer h w =
    rw (read_at-read 4 buffer w) (scalar-Accepted uint32 buffer tt h w)
body-Accepted int32 buffer h w = rw (read_at-read 4 buffer w) (scalar-Accepted int32 buffer tt h w)
body-Accepted uint64 buffer h w =
    rw (read_at-read 8 buffer w) (scalar-Accepted uint64 buffer tt h w)
body-Accepted int64 buffer h w = rw (read_at-read 8 buffer w) (scalar-Accepted int64 buffer tt h w)
body-Accepted f32 buffer h w = rw (read_at-read 4 buffer w) (scalar-Accepted f32 buffer tt h w)
body-Accepted f64 buffer h w = rw (read_at-read 8 buffer w) (scalar-Accepted f64 buffer tt h w)

to_code-from_code : (n : ℕ) → to_code (from_code n) ≡ n
unfolding to_code from_code
to_code-from_code n = ground arith

-- Whatever the bytes and the slot, where the decoder of a value accepts them and takes `n` bytes for
-- the value `v`, these bytes are the encoding of `v`; or a string whose first NUL is not where its size
-- says; or a string whose size is more than what is there or that does not end in a NUL, for which only
-- the type and three bytes are taken and the pointer is NULL; or raw data whose size is more than what
-- is there, for which only the type and the size are taken and the value is not set.
pub decode_value-Accepted :
    (old : Value) (bytes : List ℕ) → All IsByte bytes → AcceptedAs bytes (decode_value old bytes)
unfolding decode_value
decode_value-Accepted old [] h = tt
decode_value-Accepted old (b ∷ bs) h =
    let t = from_code b in
    elim (Bool-cases (ltb (length (b ∷ bs)) 2)) [
      | inl e ↦ rw e tt
      | inr e ↦ elim (Bool-cases (ltb (length (b ∷ bs)) (1 + type_size t))) [
        | inl k ↦ rw (e, k) tt
        | inr k ↦
            rw (e, k)
              (subst (λ c. AcceptedAs (c ∷ bs) (decode_body t bs (1 + type_size t)))
                (to_code-from_code b)
                (body-Accepted t bs h.1
                  (omega (arith, ltb→le (length (b ∷ bs)) (1 + type_size t) k))))
      ]
    ]
