-- ===== src/Message/Encoding.antt =====
-- The encoder of messages writes the format of docs/protocols/message-protocol.rst.
use libsmp.Base.{
  ℕ, ◌+◌, ◌-◌, ◌^◌, ◌<◌, ◌≡◌, refl, ap, ◌∙◌, arith, true, false, List, [], ◌∷◌, ◌++◌, inl, inr, ◌⊎◌,
  if◌then◌else◌, ltb, length, drop, All, le→ltb, length-append, Bool-cases, ltb→le,
}
use libsmp.Base.Memory.{write, write-write, write_header}
use libsmp.Base.Bytes.{to_le, length-to_le}
use libsmp.Errors.{ok, err, no_mem}
use libsmp.Message.Value.{Value, is_none}
use libsmp.Message.Store.{Message}
use libsmp.Message.Codec.{
  sum_sizes, get_encoded_size, encode_values, encode_fitting, encode, add_size,
}
use libsmp.Message.Format.{IsEncodable, data_of, argument, payload_of, message_bytes}
use libsmp.Message.Argument.{compute_size_lem, encode_value_lem}

-- A slot of a message to send: empty, or a value that can be encoded.
abbrev pub IsSendable : Value → Type 0
IsSendable v = (is_none v ≡ true) ⊎ ((is_none v ≡ false) × IsEncodable v)

pub length-argument : (v : Value) → length (argument v) ≡ 1 + length (data_of v)
unfolding argument
length-argument v = omega arith

pub payload_none :
    (v : Value) (vs : List Value) → is_none v ≡ true → payload_of (v ∷ vs) ≡ payload_of vs
unfolding payload_of
payload_none v vs e = rw e

pub payload_some :
    (v : Value) (vs : List Value)
    → is_none v ≡ false
    → payload_of (v ∷ vs) ≡ argument v ++ payload_of vs
unfolding payload_of
payload_some v vs e = rw e

pub add_size_lem : (a b : ℕ) → a + b < 2 ^ 64 → add_size a b ≡ a + b
add_size_lem a b h = omega arith

pub length-payload :
    (v : Value) (vs : List Value)
    → is_none v ≡ false
    → length (payload_of (v ∷ vs)) ≡ 1 + length (data_of v) + length (payload_of vs)
length-payload v vs e =
    rw (payload_some v vs e, length-append (argument v) (payload_of vs), length-argument v) refl

sum_sizes_lem :
    (vs : List Value) (ret : ℕ)
    → All IsSendable vs
    → ret + length (payload_of vs) < 2 ^ 64
    → sum_sizes ret vs ≡ ok (ret + length (payload_of vs))
unfolding sum_sizes
sum_sizes_lem [] ret h w = ap ok (unfold payload_of in omega arith)
sum_sizes_lem (v ∷ vs) ret (inl e, h) w =
    rw (payload_none v vs e, e) (sum_sizes_lem vs ret h (rw (payload_none v vs e) at w))
sum_sizes_lem (v ∷ vs) ret (inr (e, c), h) w =
    let n = length-payload v vs e in
    rw (e, compute_size_lem v c, add_size_lem ret (1 + length (data_of v)) (omega arith))
      (sum_sizes_lem vs (ret + (1 + length (data_of v))) h (omega arith) ∙ ap ok (omega arith))

encode_values_lem :
    (vs : List Value) (buffer : List ℕ) (o : ℕ)
    → All IsSendable vs
    → o + length (payload_of vs) < 2 ^ 64
    → encode_values buffer o vs ≡ ok (write buffer o (payload_of vs), o + length (payload_of vs))
unfolding encode_values
encode_values_lem [] buffer o h w =
    unfold write payload_of in ap (λ k. ok (buffer, k)) (omega arith)
encode_values_lem (v ∷ vs) buffer o (inl e, h) w =
    rw (payload_none v vs e, e, add_size_lem o 0 (omega arith), add_zero o)
      (encode_values_lem vs buffer o h (rw (payload_none v vs e) at w))
  where
    add_zero : (n : ℕ) → n + 0 ≡ n
    add_zero n = omega arith
encode_values_lem (v ∷ vs) buffer o (inr (e, c), h) w =
    let n = length-payload v vs e in
    let a = length-argument v in
    rw (e, encode_value_lem v buffer o c, add_size_lem o (length (argument v)) (omega arith))
      (encode_values_lem vs (write buffer o (argument v)) (o + length (argument v)) h (omega arith)
        ∙ rw (write-write buffer o (argument v) (payload_of vs), payload_some v vs e)
            (ap (λ k. ok (write buffer o (argument v ++ payload_of vs), k))
              (omega (arith, length-append {0} (argument v) (payload_of vs)))))

-- The size that `smp_message_get_encoded_size` returns for values that can be sent is the size of
-- the header and of the payload.
pub get_encoded_size_lem :
    (m : Message)
    → All IsSendable m.values
    → 8 + length (payload_of m.values) < 2 ^ 64
    → get_encoded_size m ≡ ok (8 + length (payload_of m.values))
unfolding get_encoded_size
get_encoded_size_lem m h w =
    rw (sum_sizes_lem m.values 0 h (omega arith))
      (ap ok (add_size_lem (0 + length (payload_of m.values)) 8 (omega arith) ∙ omega arith))

-- Encoding values that can be sent, with a payload below 2 ^ 32, into a buffer whose whole size is
-- given, answers `no_mem` where the buffer is smaller than the header and the payload, and writes
-- exactly the format's bytes where it is not, leaves the rest of the buffer as it was, and returns
-- their count.
pub encode_lem :
    (m : Message) (buffer : List ℕ)
    → All IsSendable m.values
    → length (payload_of m.values) < 2 ^ 32
    → encode m buffer (length buffer) ≡ (
        if ltb (length buffer) (8 + length (payload_of m.values))
        then err no_mem
        else ok (
          message_bytes m.msgid m.values ++ drop (8 + length (payload_of m.values)) buffer,
          8 + length (payload_of m.values),
        ))
unfolding encode encode_fitting message_bytes
encode_lem m buffer h w =
    rw (get_encoded_size_lem m h (omega arith))
      (elim (Bool-cases (ltb (length buffer) (8 + length (payload_of m.values)))) [
        | inl e ↦ rw e refl
        | inr e ↦
            let p = payload_of m.values in
            let room = ltb→le (length buffer) (8 + length p) e in
            let n : 8 + length p - 8 ≡ length p = omega arith in
            rw
              (
                e,
                encode_values_lem m.values (write buffer 0 (to_le 4 m.msgid)) 8 h (omega arith),
                n,
                le→ltb (2 ^ 32 - 1) (length p) (omega arith),
                write_header buffer (to_le 4 m.msgid) (to_le 4 (length p)) p
                    (length-to_le 4 m.msgid) (length-to_le 4 (length p)) (omega arith),
              )
              refl
      ])
