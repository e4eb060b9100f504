-- ===== src/Message/Format.antt =====
-- The format of docs/protocols/message-protocol.rst as a function from values to bytes, and the
-- values that it can carry.
use libsmp.Base.{
  ℕ, ◌+◌, ◌^◌, ◌≤◌, ◌<◌, ◌≡◌, ◌≢◌, none, some, List, [], ◌∷◌, ◌++◌, length, if◌then◌else◌, All,
}
use libsmp.Base.Bytes.{to_le}
use libsmp.Message.Value.{
  SmpType, no_type, string, raw, other, Value, scalar, cstring, craw, untyped, to_code, type_size,
  type_of, is_none,
}

-- the integers and floats
abbrev pub IsScalar : SmpType → Type 0
IsScalar no_type = ⊥
IsScalar string = ⊥
IsScalar raw = ⊥
IsScalar (other n) = ⊥
IsScalar t = Unit {0}

-- a byte of a C string
abbrev pub IsText : ℕ → Type 0
IsText b = b ≢ 0

-- A value that has an encoding: a number in the range of its type, a C string of at most 65534
-- bytes, raw data of at most 65535 bytes, all of them there.
abbrev pub IsEncodable : Value → Type 0
IsEncodable (scalar t n) = IsScalar t × (n < 256 ^ type_size t)
IsEncodable (cstring none) = ⊥
IsEncodable (cstring (some s)) = All IsText s × (length s ≤ 65534)
IsEncodable (craw none n) = ⊥
IsEncodable (craw (some p) n) = (n ≡ length p) × (n ≤ 65535)
IsEncodable (untyped t) = ⊥

-- the data of an argument
unfoldable pub data_of : Value → List ℕ
data_of (scalar t n) = to_le (type_size t) n
data_of (cstring none) = []
data_of (cstring (some s)) = to_le 2 (length s + 1) ++ (s ++ (0 ∷ []))
data_of (craw none n) = []
data_of (craw (some p) n) = to_le 2 n ++ p
data_of (untyped t) = []

-- an argument: its type and its data
unfoldable pub argument : Value → List ℕ
argument v = to_code (type_of v) ∷ data_of v

-- the payload: the arguments without padding; values of no type are not sent
unfoldable pub payload_of : List Value → List ℕ
payload_of [] = []
payload_of (v ∷ vs) = if is_none v then payload_of vs else argument v ++ payload_of vs

unfoldable pub message_bytes : ℕ → List Value → List ℕ
message_bytes id vs = to_le 4 id ++ (to_le 4 (length (payload_of vs)) ++ payload_of vs)
