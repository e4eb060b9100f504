-- ===== src/Message/Value.antt =====
-- `SmpType` and `SmpValue` of include/libsmp.h, and the sizes of src/message.c (lines 132 to 189).
use libsmp.Base.{ℕ, ◌+◌, Bool, true, false, Option, none, some, List, ◌==◌, if◌then◌else◌, length}
use libsmp.Errors.{Result, ok, fault}

-- `SmpType`; `other` is any number that is no enumerator of a value's type, `SMP_TYPE_MAX` too.
pub data SmpType : Type 0 where
  no_type uint8 int8 uint16 int16 uint32 int32 uint64 int64 string f32 f64 raw : SmpType
  other : ℕ → SmpType

unfoldable pub to_code : SmpType → ℕ
to_code no_type = 0x00
to_code uint8 = 0x01
to_code int8 = 0x02
to_code uint16 = 0x03
to_code int16 = 0x04
to_code uint32 = 0x05
to_code int32 = 0x06
to_code uint64 = 0x07
to_code int64 = 0x08
to_code string = 0x09
to_code f32 = 0x0a
to_code f64 = 0x0b
to_code raw = 0x10
to_code (other n) = n

unfoldable pub from_code : ℕ → SmpType
from_code n =
    if n == 0x00
    then no_type
    else if n == 0x01
    then uint8
    else if n == 0x02
    then int8
    else if n == 0x03
    then uint16
    else if n == 0x04
    then int16
    else if n == 0x05
    then uint32
    else if n == 0x06
    then int32
    else if n == 0x07
    then uint64
    else if n == 0x08
    then int64
    else if n == 0x09
    then string
    else if n == 0x0a
    then f32
    else if n == 0x0b
    then f64
    else if n == 0x10
    then raw
    else other n

-- `SmpValue`. Integers and floats are bit patterns, of `type_size` bytes. A C string is its bytes
-- before the NUL; NULL is `none`. `craw` has the memory at the pointer, and the field `craw_size`.
-- `untyped t` is a value whose field `type` is `t` while the union holds nothing of that type: the
-- zeroed value is `untyped no_type`.
pub data Value : Type 0 where
  scalar : SmpType → ℕ → Value
  cstring : Option (List ℕ) → Value
  craw : Option (List ℕ) → ℕ → Value
  untyped : SmpType → Value

abbrev pub empty : Value
empty = untyped no_type

unfoldable pub type_of : Value → SmpType
type_of (scalar t n) = t
type_of (cstring s) = string
type_of (craw p n) = raw
type_of (untyped t) = t

unfoldable pub is_none : Value → Bool
is_none v = elim (type_of v) [ no_type ↦ true | _ ↦ false ]

-- `smp_type_size`
unfoldable pub type_size : SmpType → ℕ
type_size uint8 = 1
type_size int8 = 1
type_size uint16 = 2
type_size int16 = 2
type_size uint32 = 4
type_size int32 = 4
type_size f32 = 4
type_size uint64 = 8
type_size int64 = 8
type_size f64 = 8
type_size string = 3
type_size raw = 2
type_size no_type = 0
type_size (other n) = 0

-- The size of a value by its type alone; for a string or raw data the pointer is followed.
abbrev scalar_size : SmpType → Result ℕ
scalar_size string = fault
scalar_size raw = fault
scalar_size t = ok (type_size t)

-- `smp_value_compute_size`
unfoldable pub compute_size : Value → Result ℕ
unfolding type_size
compute_size (cstring none) = ok 3
compute_size (cstring (some s)) = ok (3 + length s)
compute_size (craw none n) = ok 2
compute_size (craw (some p) n) = ok (2 + n)
compute_size (scalar t n) = scalar_size t
compute_size (untyped t) = scalar_size t
