-- ===== src/Message/DecodeTests.antt =====
-- Any bytes as a message, on concrete values, values that are too long to be sent, and rounding up to a
-- power of two.
use libsmp.Base.{
  ℕ, ◌*◌, ◌^◌, ◌≤◌, ◌<◌, ◌≡◌, refl, arith, List, [], ◌∷◌, some, length, replicate, length-replicate,
  true,
}
use libsmp.Base.Bytes.{from_le, to_le}
use libsmp.Errors.{ok}
use libsmp.Message.Value.{
  empty, cstring, craw, scalar, uint8, is_none, type_of, from_code, type_size, compute_size,
}
use libsmp.Message.Store.{Message, next_pow2}
use libsmp.Message.Wire.{decode_value, decode_body, decode_string, c_string}
use libsmp.Message.Codec.{build_from_buffer, encode}
use libsmp.Message.Format.{payload_of, argument, data_of}
use libsmp.Message.Rounding.{next_pow2-IsLeast}
use libsmp.Message.Shapes.{AcceptedAs}
use libsmp.Message.Accepted.{decode_value-Accepted}
use libsmp.Message.Parsed.{Parsed, build_from_buffer-Parsed}
use libsmp.Message.TooLong.{unused, fits, long, shortened, room_for}
use libsmp.Message.Omitted.{Encodes, encode-shortened}
use libsmp.Message.Tests.{heap, received, wire}

-- A string of five bytes, with a NUL as its second one: the three bytes behind it are left to be taken
-- for the next arguments.
abbrev cut : List ℕ
cut = 9 ∷ 5 ∷ 0 ∷ 104 ∷ 0 ∷ 1 ∷ 7 ∷ 0 ∷ []

decode-cut : decode_value empty cut ≡ (ok 5, cstring (some (104 ∷ [])))
unfolding decode_value decode_body decode_string c_string from_le from_code type_size compute_size
decode-cut = refl

decode_value-Accepted_example : AcceptedAs cut (decode_value empty cut)
decode_value-Accepted_example = decode_value-Accepted empty cut (omega arith)

build_from_buffer-Parsed_example : Parsed wire (build_from_buffer heap received wire)
build_from_buffer-Parsed_example =
    build_from_buffer-Parsed heap received wire refl (omega arith) (omega arith)

next_pow2_nine : next_pow2 9 ≡ 16
unfolding next_pow2
next_pow2_nine = refl

next_pow2-IsLeast_example : (k : ℕ) × (next_pow2 9 ≡ 2 ^ k) × (9 ≤ 2 ^ k) × (2 ^ k < 2 * 9)
next_pow2-IsLeast_example = next_pow2-IsLeast 9 (omega arith) (omega arith)

abbrev memory : List ℕ
memory = replicate 70000 0

-- Raw data of 65536 bytes between two small arguments.
abbrev large : Message
large = record {
  msgid = 5;
  values = scalar uint8 1 ∷ craw (some (replicate 65536 7)) 65536 ∷ empty ∷ scalar uint8 2 ∷ [];
  capacity = 4;
  statically_allocated = true;
}

large-shortened : shortened large.values ≡ scalar uint8 1 ∷ empty ∷ scalar uint8 2 ∷ []
unfolding shortened
large-shortened = refl

encode-shortened_example :
    Encodes 5 (shortened large.values) (length memory) (encode large memory (length memory))
unfolding is_none type_of type_size shortened room_for payload_of argument data_of to_le
encode-shortened_example =
    encode-shortened large memory
      (
        fits refl refl (tt, omega arith),
        (long refl refl, (unused refl, (fits refl refl (tt, omega arith), tt))),
      )
      (omega (arith, length-replicate {A = ℕ} 70000 0))
      (omega (arith, length-replicate {A = ℕ} 70000 0)) (omega arith)
