-- ===== src/Message/Access.antt =====
-- The typed accessors of messages: src/message.c, lines 739 to 901, 918 to 1230 and 1253 to 1435.
-- The variable arguments are a list, without the negative index that ends it: for the getters the
-- index and the type, where the pointers are those of the results, for the setters the index and
-- the argument. An `index` that is negative is `none`.
use libsmp.Base.{ℕ, ◌%◌, ◌^◌, ◌==◌, Option, none, some, List, [], ◌∷◌, if◌then◌else◌}
use libsmp.Errors.{Result, ok, err, fault, bad_type, invalid_param}
use libsmp.Message.Value.{
  SmpType, no_type, uint8, int8, uint16, int16, uint32, int32, uint64, int64, string, f32, f64, raw,
  other, Value, scalar, cstring, craw, untyped, to_code, type_of,
}
use libsmp.Message.Store.{Message, get_value, set_value}

-- The result of a getter, and what it stored through the pointers, in order.
abbrev pub Got : Type 0
Got = Result (Unit {0}) × List Value

-- the `switch` of `smp_message_get_valist`: what is stored
unfoldable pub fetch : SmpType → Value → Result Value
fetch no_type v = err bad_type
fetch (other n) v = err bad_type
fetch t v = ok v

unfoldable pub after_fetch : Result Value → Got → Got
after_fetch (ok v) (r, vs) = (r, v ∷ vs)
after_fetch (err e) next = (err e, [])
after_fetch fault next = (fault, [])

unfoldable pub after_get : Result Value → SmpType → Got → Got
after_get (ok v) t next =
    let r = after_fetch (fetch t v) next in
    if to_code t == to_code (type_of v) then r else (err bad_type, [])
after_get (err e) t next = (err e, [])
after_get fault t next = (fault, [])

-- the loop of `smp_message_get_valist`
unfoldable pub get_loop : Message → List (ℕ × SmpType) → Got
get_loop m [] = (ok tt, [])
get_loop m ((i, t) ∷ rs) = after_get (get_value m (some i)) t (get_loop m rs)

-- `smp_message_get_valist`
unfoldable pub get_valist : Message → List (ℕ × SmpType) → Got
unfolding get_loop
get_valist m [] = (err invalid_param, [])
get_valist m (r ∷ rs) = get_loop m (r ∷ rs)

-- `smp_message_get`, for one value
unfoldable pub get : Message → Option ℕ → SmpType → Got
unfolding get_valist
get m none t = get_valist m []
get m (some i) t = get_valist m ((i, t) ∷ [])

-- `smp_message_get_uint8`
unfoldable pub get_uint8 : Message → Option ℕ → Got
unfolding get
get_uint8 m index = get m index uint8

-- `smp_message_get_int8`
unfoldable pub get_int8 : Message → Option ℕ → Got
unfolding get
get_int8 m index = get m index int8

-- `smp_message_get_uint16`
unfoldable pub get_uint16 : Message → Option ℕ → Got
unfolding get
get_uint16 m index = get m index uint16

-- `smp_message_get_int16`
unfoldable pub get_int16 : Message → Option ℕ → Got
unfolding get
get_int16 m index = get m index int16

-- `smp_message_get_uint32`
unfoldable pub get_uint32 : Message → Option ℕ → Got
unfolding get
get_uint32 m index = get m index uint32

-- `smp_message_get_int32`
unfoldable pub get_int32 : Message → Option ℕ → Got
unfolding get
get_int32 m index = get m index int32

-- `smp_message_get_uint64`
unfoldable pub get_uint64 : Message → Option ℕ → Got
unfolding get
get_uint64 m index = get m index uint64

-- `smp_message_get_int64`
unfoldable pub get_int64 : Message → Option ℕ → Got
unfolding get
get_int64 m index = get m index int64

-- `smp_message_get_float`
unfoldable pub get_float : Message → Option ℕ → Got
unfolding get
get_float m index = get m index f32

-- `smp_message_get_double`
unfoldable pub get_double : Message → Option ℕ → Got
unfolding get
get_double m index = get m index f64

-- `smp_message_get_cstring`
unfoldable pub get_cstring : Message → Option ℕ → Got
unfolding get
get_cstring m index = get m index string

-- `smp_message_get_craw`
unfoldable pub get_craw : Message → Option ℕ → Got
unfolding get
get_craw m index = get m index raw

-- The variable arguments of a setter, by the type that is named before them. A number is the bit
-- pattern that is passed. `type_only` is a type that is not in the `switch`, or no type.
pub data Arg : Type 0 where
  uint8_arg int8_arg uint16_arg int16_arg uint32_arg int32_arg uint64_arg int64_arg : ℕ → Arg
  f32_arg f64_arg : ℕ → Arg
  string_arg : Option (List ℕ) → Arg
  raw_arg : Option (List ℕ) → ℕ → Arg
  type_only : SmpType → Arg

-- What follows a value that was set.
unfoldable pub after_set :
    Result (Unit {0}) × Message
    → (Message → Result (Unit {0}) × Message)
    → Result (Unit {0}) × Message
after_set (ok _, m) next = next m
after_set (err e, m) next = (err e, m)
after_set (fault, m) next = (fault, m)

-- `to_float` is the conversion of a `double` to a `float`, on bit patterns.
module _ (to_float : ℕ → ℕ) where
  -- the `switch` of `smp_message_set_valist`
  unfoldable pub value_of : Arg → Value
  value_of (uint8_arg n) = scalar uint8 (n % 2 ^ 8)
  value_of (int8_arg n) = scalar int8 (n % 2 ^ 8)
  value_of (uint16_arg n) = scalar uint16 (n % 2 ^ 16)
  value_of (int16_arg n) = scalar int16 (n % 2 ^ 16)
  value_of (uint32_arg n) = scalar uint32 (n % 2 ^ 32)
  value_of (int32_arg n) = scalar int32 (n % 2 ^ 32)
  value_of (uint64_arg n) = scalar uint64 (n % 2 ^ 64)
  value_of (int64_arg n) = scalar int64 (n % 2 ^ 64)
  value_of (f32_arg n) = scalar f32 (to_float n)
  value_of (f64_arg n) = scalar f64 n
  value_of (string_arg s) = cstring s
  value_of (raw_arg p n) = craw p n
  value_of (type_only t) = untyped t

  -- the loop of `smp_message_set_valist`
  unfoldable pub set_loop : Message → List (ℕ × Arg) → Result (Unit {0}) × Message
  set_loop m [] = (ok tt, m)
  set_loop m ((i, a) ∷ rest) =
      after_set (set_value m (some i) (value_of a)) (λ m'. set_loop m' rest)

  -- `smp_message_set_valist`
  unfoldable pub set_valist : Message → List (ℕ × Arg) → Result (Unit {0}) × Message
  unfolding set_loop
  set_valist m [] = (err invalid_param, m)
  set_valist m (a ∷ rest) = set_loop m (a ∷ rest)

  -- `smp_message_set`, for one value
  unfoldable pub set : Message → Option ℕ → Arg → Result (Unit {0}) × Message
  unfolding set_valist
  set m none a = set_valist m []
  set m (some i) a = set_valist m ((i, a) ∷ [])

  -- `smp_message_set_uint8`
  unfoldable pub set_uint8 : Message → Option ℕ → ℕ → Result (Unit {0}) × Message
  unfolding set
  set_uint8 m index value = set m index (uint8_arg value)

  -- `smp_message_set_int8`
  unfoldable pub set_int8 : Message → Option ℕ → ℕ → Result (Unit {0}) × Message
  unfolding set
  set_int8 m index value = set m index (int8_arg value)

  -- `smp_message_set_uint16`
  unfoldable pub set_uint16 : Message → Option ℕ → ℕ → Result (Unit {0}) × Message
  unfolding set
  set_uint16 m index value = set m index (uint16_arg value)

  -- `smp_message_set_int16`
  unfoldable pub set_int16 : Message → Option ℕ → ℕ → Result (Unit {0}) × Message
  unfolding set
  set_int16 m index value = set m index (int16_arg value)

  -- `smp_message_set_uint32`
  unfoldable pub set_uint32 : Message → Option ℕ → ℕ → Result (Unit {0}) × Message
  unfolding set
  set_uint32 m index value = set m index (uint32_arg value)

  -- `smp_message_set_int32`
  unfoldable pub set_int32 : Message → Option ℕ → ℕ → Result (Unit {0}) × Message
  unfolding set
  set_int32 m index value = set m index (int32_arg value)

  -- `smp_message_set_uint64`
  unfoldable pub set_uint64 : Message → Option ℕ → ℕ → Result (Unit {0}) × Message
  unfolding set
  set_uint64 m index value = set m index (uint64_arg value)

  -- `smp_message_set_int64`
  unfoldable pub set_int64 : Message → Option ℕ → ℕ → Result (Unit {0}) × Message
  unfolding set
  set_int64 m index value = set m index (int64_arg value)

  -- `smp_message_set_float`
  unfoldable pub set_float : Message → Option ℕ → ℕ → Result (Unit {0}) × Message
  unfolding set
  set_float m index value = set m index (f32_arg value)

  -- `smp_message_set_double`
  unfoldable pub set_double : Message → Option ℕ → ℕ → Result (Unit {0}) × Message
  unfolding set
  set_double m index value = set m index (f64_arg value)

  -- `smp_message_set_cstring`
  unfoldable pub set_cstring : Message → Option ℕ → Option (List ℕ) → Result (Unit {0}) × Message
  unfolding set
  set_cstring m index value = set m index (string_arg value)

  -- `smp_message_set_craw`
  unfoldable pub set_craw : Message → Option ℕ → Option (List ℕ) → ℕ → Result (Unit {0}) × Message
  unfolding set
  set_craw m index value size = set m index (raw_arg value size)
