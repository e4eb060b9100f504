-- ===== src/Message/Tests.antt =====
-- Messages on concrete values, with an instance of each of their properties.
use libsmp.Base.{
  ◌↔◌, ℕ, ◌+◌, ◌≡◌, refl, arith, true, inl, inr, List, [], ◌∷◌, ◌++◌, none, some, length, replicate,
  take, drop, ltb, if◌then◌else◌, ◌==◌, ◌≤◌, ◌<◌, All, get_or,
}
use libsmp.Base.Memory.{write}
use libsmp.Base.Bytes.{to_le}
use libsmp.Errors.{ok, err, no_mem, not_found, fault}
use libsmp.Heap.{Heap}
use libsmp.Message.Value.{
  Value, empty, scalar, cstring, craw, uint16, uint8, string, is_none, type_of, type_size,
  compute_size, to_code,
}
use libsmp.Message.Wire.{decode_value, encode_value, encode_body, encode_scalar}
use libsmp.Message.Store.{Message, set_value, get_value, n_args, count_args}
use libsmp.Message.Codec.{
  encode, encode_fitting, encode_values, get_encoded_size, sum_sizes, build_values,
  build_from_buffer,
}
use libsmp.Message.Format.{IsEncodable, argument, data_of, payload_of, message_bytes}
use libsmp.Message.Encoding.{IsSendable, encode_lem}
use libsmp.Message.RoundTrip.{packed, build_from_buffer-encode}
use libsmp.Message.Bounds.{Within, decode_value-Within, build_values-fuel}
use libsmp.Message.Invariant.{IsValid, build_from_buffer-IsValid}
use libsmp.Message.OverRead.{OverReads, decode_value-OverReads}
use libsmp.Message.Slots.{get_value-set_value, n_args-get_value}
use libsmp.Message.Access.{uint8_arg, string_arg, set_valist, get_valist}
use libsmp.Message.Typed.{requests, values_of, get_valist-set_valist}

abbrev pub heap : Heap
heap = record { grant = λ i n. true; junk = λ i. 170; calls = 0; live = 0 }

abbrev number : Value
number = scalar uint16 513

abbrev text : Value
text = cstring (some (104 ∷ 105 ∷ []))

-- a message with an empty slot in the middle
abbrev sent : Message
sent = record {
  msgid = 42;
  values = number ∷ empty ∷ text ∷ empty ∷ [];
  capacity = 4;
  statically_allocated = true;
}

abbrev pub received : Message
received = record {
  msgid = 7;
  values = empty ∷ empty ∷ craw (some (1 ∷ [])) 1 ∷ [];
  capacity = 3;
  statically_allocated = true;
}

text-IsEncodable : IsEncodable text
text-IsEncodable =
    (((λ e. absurd (omega (arith, e))), ((λ e. absurd (omega (arith, e))), tt)), omega arith)

sent-IsSendable : All IsSendable sent.values
unfolding is_none type_of type_size
sent-IsSendable =
    (inr (refl, (tt, omega arith)), (inl refl, (inr (refl, text-IsEncodable), (inl refl, tt))))

abbrev pub wire : List ℕ
wire = 42 ∷ 0 ∷ 0 ∷ 0 ∷ 9 ∷ 0 ∷ 0 ∷ 0 ∷ 3 ∷ 1 ∷ 2 ∷ 9 ∷ 3 ∷ 0 ∷ 104 ∷ 105 ∷ 0 ∷ []

payload-sent : message_bytes 42 sent.values ≡ wire
unfolding message_bytes payload_of argument data_of is_none type_of type_size to_code to_le
payload-sent = refl

encode-sent : encode sent (replicate 20 0) 20 ≡ ok (wire ++ (0 ∷ 0 ∷ 0 ∷ []), 17)
unfolding encode encode_fitting encode_values get_encoded_size sum_sizes encode_value encode_body
    encode_scalar compute_size is_none type_of type_size to_code to_le write
encode-sent = refl

encode_lem_example : encode sent (replicate 20 0) 20 ≡ (
    if ltb 20 (8 + length (payload_of sent.values))
    then err no_mem
    else ok (
      message_bytes 42 sent.values ++ drop (8 + length (payload_of sent.values)) (replicate 20 0),
      8 + length (payload_of sent.values),
    ))
unfolding payload_of argument data_of is_none type_of type_size to_code to_le
encode_lem_example = encode_lem sent (replicate 20 0) sent-IsSendable (omega arith)

build_from_buffer-encode_example :
    build_from_buffer heap received (take 17 (wire ++ (0 ∷ 0 ∷ 0 ∷ []))) ≡ (
      ok tt,
      heap,
      record received {
        msgid = 42;
        values = packed sent.values ++ drop (length (packed sent.values)) received.values;
      },
    )
unfolding payload_of argument data_of is_none type_of type_size to_code to_le packed
build_from_buffer-encode_example =
    build_from_buffer-encode sent received heap (replicate 20 0) sent-IsSendable (omega arith)
      (omega arith) refl (omega arith) encode-sent

-- a string that is said to be longer than what is there
decode_value-Within_case : Within 5 (decode_value empty (9 ∷ 200 ∷ 0 ∷ 104 ∷ 0 ∷ [])).0
decode_value-Within_case = decode_value-Within empty (9 ∷ 200 ∷ 0 ∷ 104 ∷ 0 ∷ [])

build_values-fuel_case :
    build_values 3 heap received 0 (1 ∷ 5 ∷ 9 ∷ [])
    ≡ build_values 8 heap received 0 (1 ∷ 5 ∷ 9 ∷ [])
build_values-fuel_case =
    build_values-fuel 3 8 heap received 0 (1 ∷ 5 ∷ 9 ∷ []) (omega arith) (omega arith)

build_from_buffer-IsValid_case : IsValid (build_from_buffer heap received wire).2
build_from_buffer-IsValid_case = build_from_buffer-IsValid heap received wire refl

get_value-set_value_case :
    ((set_value received (some 1) number).0 ≡ ok tt)
    × (get_value (set_value received (some 1) number).1 (some 1) ≡ (
        if 1 == 1
        then (if is_none number then err not_found else ok number)
        else get_value received (some 1)))
get_value-set_value_case = get_value-set_value received 1 1 number refl (omega arith)

n_args-get_value_case :
    (1 ≤ 4)
    × ((i : ℕ) → i < 1 → get_value sent (some i) ≡ ok (get_or sent.values i empty))
    × (get_value sent (some 1) ≡ err not_found)
unfolding n_args count_args is_none type_of
n_args-get_value_case = n_args-get_value sent refl refl

-- the byte 300 is cut to 44
get_valist-set_valist_example :
    ((set_valist (λ n. n) received ((2, uint8_arg 300) ∷ (0, string_arg none) ∷ [])).0 ≡ ok tt)
    × (get_valist
          (set_valist (λ n. n) received ((2, uint8_arg 300) ∷ (0, string_arg none) ∷ [])).1
          ((2, uint8) ∷ (0, string) ∷ [])
        ≡ (ok tt, scalar uint8 44 ∷ cstring none ∷ []))
unfolding requests values_of type_size
get_valist-set_valist_example =
    get_valist-set_valist (λ n. n) (2, uint8_arg 300) ((0, string_arg none) ∷ []) received refl
      (tt, omega arith, ((λ e. absurd (omega (arith, e))), tt), (tt, omega arith, tt, tt))

decode_value-OverReads_example :
    (decode_value empty (9 ∷ 0 ∷ 0 ∷ 65 ∷ [])).0 ≡ fault ↔ OverReads (9 ∷ 0 ∷ 0 ∷ 65 ∷ [])
decode_value-OverReads_example = decode_value-OverReads empty (9 ∷ 0 ∷ 0 ∷ 65 ∷ [])
