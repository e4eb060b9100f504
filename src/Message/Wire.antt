-- ===== src/Message/Wire.antt =====
-- One value on the wire: src/message.c, lines 191 to 363. Integers are copied in the byte order of
-- the host; this is a little-endian host, as all the supported targets are.
use libsmp.Base.{
  ℕ, zero, suc, ◌+◌, ◌-◌, Option, none, some, List, [], ◌∷◌, ◌==◌, if◌then◌else◌, ltb, le→ltb,
  length, ◌≡◌, ◌<◌, ◌≤◌, refl, arith, get_or, set, take, drop,
}
use libsmp.Base.Memory.{write}
use libsmp.Base.Bytes.{to_le, from_le}
use libsmp.Errors.{◌>>=◌, Result, ok, err, fault, bad_message}
use libsmp.Message.Value.{
  SmpType, no_type, uint8, int8, uint16, int16, uint32, int32, uint64, int64, string, f32, f64, raw,
  other, Value, scalar, cstring, craw, untyped, to_code, from_code, type_size, type_of,
  compute_size,
}

-- `smp_read_uint16` and so on: `memcpy` of `k` bytes.
abbrev pub read : ℕ → List ℕ → ℕ
read k data' = from_le (take k data')

-- The same at a pointer that shows `data'`: a read past the end is a fault.
abbrev pub read_at : ℕ → List ℕ → Result ℕ
read_at k data' = if ltb (length data') k then fault else ok (read k data')

-- one byte of `data'`
abbrev pub byte_at : List ℕ → ℕ → Result ℕ
byte_at [] i = fault
byte_at (b ∷ bs) zero = ok b
byte_at (b ∷ bs) (suc i) = byte_at bs i

-- The bytes of the C string at a pointer into `mem`; `none` if no NUL is found.
unfoldable pub c_string : List ℕ → Option (List ℕ)
c_string [] = none
c_string (b ∷ bs) =
    if b == 0 then some [] else elim (c_string bs) [ none ↦ none | some s ↦ some (b ∷ s) ]

-- `smp_message_decode_string`: the memory at the returned pointer, `none` for NULL.
unfoldable pub decode_string : List ℕ → Result (Option (List ℕ))
decode_string buffer =
    let size = length buffer in
    if ltb size 2 then ok none else (do
      strsize ← read_at 2 buffer
      if ltb size (2 + strsize) then ok none else (do
        last ← byte_at buffer (2 + strsize - 1)
        if last == 0 then ok (some (drop 2 buffer)) else ok none))

-- `smp_message_decode_raw`: the data and `craw_size`.
unfoldable pub decode_raw : List ℕ → Result (List ℕ × ℕ)
decode_raw buffer =
    let size = length buffer in
    if ltb size 2 then err bad_message else (do
      rawsize ← read_at 2 buffer
      if ltb size (2 + rawsize)
          then err bad_message
          else ok (take rawsize (drop 2 buffer), rawsize))

-- the size of a decoded value, behind its type
abbrev pub sized : Value → Result ℕ × Value
sized v = elim (compute_size v) [ ok n ↦ (ok (1 + n), v) | err e ↦ (err e, v) | fault ↦ (fault, v) ]

-- `strlen` has walked the memory up to a NUL, or past its end
abbrev pub after_strlen : Option (List ℕ) → Result ℕ × Value
after_strlen none = (fault, untyped string)
after_strlen (some s) = sized (cstring (some s))

abbrev pub string_at : Result (Option (List ℕ)) → Result ℕ × Value
string_at (ok none) = sized (cstring none)
string_at (ok (some mem)) = after_strlen (c_string mem)
string_at (err e) = (err e, untyped string)
string_at fault = (fault, untyped string)

-- Raw data that do not fit give no error: the size by type stays, and the union is not set.
abbrev pub raw_of : Result (List ℕ × ℕ) → ℕ → Result ℕ × Value
raw_of (ok (p, n)) argsize = sized (craw (some p) n)
raw_of (err e) argsize = (ok argsize, untyped raw)
raw_of fault argsize = (fault, untyped raw)

abbrev pub scalar_of : SmpType → ℕ → Result ℕ → Result ℕ × Value
scalar_of t argsize (ok n) = (ok argsize, scalar t n)
scalar_of t argsize (err e) = (err e, untyped t)
scalar_of t argsize fault = (fault, untyped t)

-- the `switch`, at the bytes behind the type
unfoldable pub decode_body : SmpType → List ℕ → ℕ → Result ℕ × Value
unfolding compute_size
decode_body uint8 buffer argsize = scalar_of uint8 argsize (byte_at buffer 0)
decode_body int8 buffer argsize = scalar_of int8 argsize (byte_at buffer 0)
decode_body uint16 buffer argsize = scalar_of uint16 argsize (read_at 2 buffer)
decode_body int16 buffer argsize = scalar_of int16 argsize (read_at 2 buffer)
decode_body uint32 buffer argsize = scalar_of uint32 argsize (read_at 4 buffer)
decode_body int32 buffer argsize = scalar_of int32 argsize (read_at 4 buffer)
decode_body uint64 buffer argsize = scalar_of uint64 argsize (read_at 8 buffer)
decode_body int64 buffer argsize = scalar_of int64 argsize (read_at 8 buffer)
decode_body string buffer argsize = string_at (decode_string buffer)
decode_body raw buffer argsize = raw_of (decode_raw buffer) argsize
decode_body f32 buffer argsize = scalar_of f32 argsize (read_at 4 buffer)
decode_body f64 buffer argsize = scalar_of f64 argsize (read_at 8 buffer)
decode_body no_type buffer argsize = (err bad_message, untyped no_type)
decode_body (other n) buffer argsize = (err bad_message, untyped (other n))

-- with the type, where it can be read
abbrev pub decode_typed : Value → List ℕ → Result ℕ → Result ℕ × Value
decode_typed old buffer (ok code) =
    let t = from_code code in
    let argsize = 1 + type_size t in
    if ltb (length buffer) argsize
    then (err bad_message, untyped t)
    else decode_body t (drop 1 buffer) argsize
decode_typed old buffer (err e) = (err e, old)
decode_typed old buffer fault = (fault, old)

-- `smp_message_decode_value` on the slot `old`: the number of bytes taken, and the slot afterwards.
unfoldable pub decode_value : Value → List ℕ → Result ℕ × Value
decode_value old buffer =
    if ltb (length buffer) 2
    then (err bad_message, old)
    else decode_typed old buffer (byte_at buffer 0)

-- The bytes of an integer or float at `o`, and its size with the type.
abbrev stored : List ℕ → ℕ → ℕ → ℕ → Result (List ℕ × ℕ)
stored buffer o k n = ok (write buffer o (to_le k n), k + 1)

unfoldable pub encode_scalar : SmpType → ℕ → List ℕ → ℕ → Result (List ℕ × ℕ)
encode_scalar uint8 n buffer o = stored buffer o 1 n
encode_scalar int8 n buffer o = stored buffer o 1 n
encode_scalar uint16 n buffer o = stored buffer o 2 n
encode_scalar int16 n buffer o = stored buffer o 2 n
encode_scalar uint32 n buffer o = stored buffer o 4 n
encode_scalar int32 n buffer o = stored buffer o 4 n
encode_scalar uint64 n buffer o = stored buffer o 8 n
encode_scalar int64 n buffer o = stored buffer o 8 n
encode_scalar f32 n buffer o = stored buffer o 4 n
encode_scalar f64 n buffer o = stored buffer o 8 n
encode_scalar string n buffer o = fault
encode_scalar raw n buffer o = fault
encode_scalar no_type n buffer o = ok (buffer, 0)
encode_scalar (other c) n buffer o = ok (buffer, 0)

-- A value without its contents: the model does not know what the union holds.
abbrev encode_untyped : SmpType → List ℕ → Result (List ℕ × ℕ)
encode_untyped no_type buffer = ok (buffer, 0)
encode_untyped (other c) buffer = ok (buffer, 0)
encode_untyped t buffer = fault

-- the `switch`, behind the type; `o` is the index of the first byte of the data
unfoldable pub encode_body : Value → List ℕ → ℕ → Result (List ℕ × ℕ)
encode_body (scalar t n) buffer o = encode_scalar t n buffer o
encode_body (cstring none) buffer o = fault
encode_body (cstring (some s)) buffer o =
    let len = length s in
    if ltb 65534 len
    then ok (buffer, 0)
    else (let b1 = write buffer o (to_le 2 (len + 1)) in
        let b2 = write b1 (o + 2) s in ok (set b2 (o + 2 + len) 0, 3 + len + 1))
encode_body (craw none n) buffer o =
    if ltb 65535 n
    then ok (buffer, 0)
    else if n == 0
    then ok (write buffer o (to_le 2 n), 2 + 1)
    else fault
encode_body (craw (some p) n) buffer o =
    if ltb 65535 n
    then ok (buffer, 0)
    else if ltb (length p) n
    then fault
    else ok (write (write buffer o (to_le 2 n)) (o + 2) (take n p), 2 + n + 1)
encode_body (untyped t) buffer o = encode_untyped t buffer

-- `smp_message_encode_value (value, buffer + o)`: the memory afterwards, and the count returned.
unfoldable pub encode_value : Value → List ℕ → ℕ → Result (List ℕ × ℕ)
encode_value v buffer o = encode_body v (set buffer o (to_code (type_of v))) (o + 1)

-- A byte inside is read.
pub byte_at-get_or :
    (bytes : List ℕ) (i : ℕ) → i < length bytes → byte_at bytes i ≡ ok (get_or bytes i 0)
byte_at-get_or [] i h = absurd (omega arith)
byte_at-get_or (b ∷ bs) zero h = refl
byte_at-get_or (b ∷ bs) (suc i) h = byte_at-get_or bs i (omega arith)

-- The last byte of a string that fits is inside.
pub last_byte_at :
    (bytes : List ℕ) (n : ℕ)
    → 2 + n ≤ length bytes
    → byte_at bytes (2 + n - 1) ≡ ok (get_or bytes (2 + n - 1) 0)
last_byte_at bytes n h = byte_at-get_or bytes (2 + n - 1) (omega arith)

pub read_at-read : (k : ℕ) (bytes : List ℕ) → k ≤ length bytes → read_at k bytes ≡ ok (read k bytes)
read_at-read k bytes h = rw (le→ltb (length bytes) k h) refl
