-- ===== src/Message/RoundTrip.antt =====
-- The decoder of messages reads back what the encoder writes.
use libsmp.Base.{
  ℕ, zero, suc, ◌+◌, ◌^◌, ◌≤◌, ◌<◌, ◌≡◌, refl, sym, ap, ◌∙◌, arith, List, [], ◌∷◌, ◌++◌, inl, inr,
  if◌then◌else◌, length, get_or, set, take, drop, All, le→ltb, lt→leb, length-append, append_assoc,
  drop-append, set-append, take-append,
}
use libsmp.Base.Bytes.{to_le, length-to_le}
use libsmp.Errors.{ok}
use libsmp.Heap.{Heap}
use libsmp.Message.Value.{Value, empty, is_none, type_of, to_code}
use libsmp.Message.Wire.{decode_value, read}
use libsmp.Message.Store.{Message}
use libsmp.Message.Codec.{
  encode, make_room, after_room, after_value, build_values, build_from_buffer,
}
use libsmp.Message.Format.{IsEncodable, data_of, argument, payload_of, message_bytes}
use libsmp.Message.Decoding.{decode_value_lem, read_lem}
use libsmp.Message.Encoding.{
  encode_lem, IsSendable, payload_none, payload_some, length-payload, add_size_lem,
}

-- The values that are sent, in order: the slots that are empty are not.
unfoldable pub packed : List Value → List Value
packed [] = []
packed (v ∷ vs) = if is_none v then packed vs else v ∷ packed vs

make_room_enough :
    (h : Heap) (m : Message) (i : ℕ) → i < m.capacity → make_room h m i ≡ (ok tt, h, m)
unfolding make_room
make_room_enough h m i e = rw (lt→leb m.capacity i e) refl

-- One round of the loop, where room was made and a value can be read.
build_round :
    (b : ℕ) (bs : List ℕ) (v : Value) (fuel n i : ℕ) (h : Heap) (m : Message) {h1 : Heap}
    {m1 : Message}
    → make_room h m i ≡ (ok tt, h1, m1)
    → decode_value (get_or m1.values i empty) (b ∷ bs) ≡ (ok n, v)
    → build_values (suc fuel) h m i (b ∷ bs)
      ≡ build_values fuel h1 (record m1 { values = set m1.values i v }) (i + 1) (drop n (b ∷ bs))
unfolding build_values after_room after_value
build_round b bs v fuel n i h m {h1} {m1} e d =
    ap
      (λ r. after_room r (λ h2 m2.
        after_value (decode_value (get_or m2.values i empty) (b ∷ bs)) i h2 m2
          (λ k m3. build_values fuel h2 m3 (i + 1) (drop k (b ∷ bs)))))
      e
    ∙ ap (λ r. after_value r i h1 m1 (λ k m3. build_values fuel h1 m3 (i + 1) (drop k (b ∷ bs)))) d

pub build_step :
    (v : Value) (rest : List ℕ) (fuel i : ℕ) (h : Heap) (m : Message) {h1 : Heap} {m1 : Message}
    → IsEncodable v
    → make_room h m i ≡ (ok tt, h1, m1)
    → build_values (suc fuel) h m i (argument v ++ rest)
      ≡ build_values fuel h1 (record m1 { values = set m1.values i v }) (i + 1) rest
unfolding argument
build_step v rest fuel i h m {h1} {m1} c e =
    build_round (to_code (type_of v)) (data_of v ++ rest) v fuel (length (argument v)) i h m e
      (decode_value_lem v (get_or m1.values i empty) rest c)
    ∙ ap (λ t. build_values fuel h1 (record m1 { values = set m1.values i v }) (i + 1) t)
        (drop-append (argument v) rest)

-- The loop on a payload fills the free slots with its values, where there are enough slots.
build_values_lem :
    (vs : List Value) (fuel : ℕ) (h : Heap) (m : Message) (filled slots : List Value)
    → All IsSendable vs
    → m.values ≡ filled ++ slots
    → m.capacity ≡ length (filled ++ slots)
    → length (packed vs) ≤ length slots
    → length (payload_of vs) ≤ fuel
    → build_values fuel h m (length filled) (payload_of vs)
      ≡ (ok tt, h, record m { values = filled ++ (packed vs ++ drop (length (packed vs)) slots) })
unfolding packed
build_values_lem [] fuel h m filled slots s e k r f =
    unfold build_values payload_of in ap (λ t. (ok tt, h, record m { values = t })) e
build_values_lem (v ∷ vs) fuel h m filled slots (inl n, s) e k r f =
    rw (payload_none v vs n, n)
      (build_values_lem vs fuel h m filled slots s e k (rw n at r) (rw (payload_none v vs n) at f))
build_values_lem (v ∷ vs) zero h m filled slots (inr (n, c), s) e k r f =
    absurd (omega (arith, length-payload v vs n))
build_values_lem (v ∷ vs) (suc fuel) h m filled [] (inr (n, c), s) e k r f =
    absurd (omega (arith, rw n at r))
build_values_lem (v ∷ vs) (suc fuel) h m filled (old ∷ slots) (inr (n, c), s) e k r f =
    let m' = record m { values = set m.values (length filled) v } in
    let snoc = length-append {0} filled (v ∷ []) in
    let count = length-append {0} filled (old ∷ slots) in
    let one : length filled + 1 ≡ length (filled ++ (v ∷ [])) = omega arith in
    let e' : m'.values ≡ (filled ++ (v ∷ [])) ++ slots =
      ap (λ t. set t (length filled) v) e
      ∙ set-append filled old slots v
      ∙ sym (append_assoc filled (v ∷ []) slots) in
    rw (payload_some v vs n, n)
      (build_step v (payload_of vs) fuel (length filled) h m c
          (make_room_enough h m (length filled) (omega arith))
        ∙ rw one (
            build_values_lem vs fuel h m' (filled ++ (v ∷ [])) slots s e'
              (omega (arith, length-append {0} (filled ++ (v ∷ [])) slots))
              (omega (arith, rw n at r)) (omega (arith, length-payload v vs n)))
        ∙ ap (λ t. (ok tt, h, record m { values = t }))
            (append_assoc filled (v ∷ []) (packed vs ++ drop (length (packed vs)) slots)))

header_lem :
    (id n : ℕ) (payload : List ℕ)
    → id < 2 ^ 32
    → n < 2 ^ 32
    → let buffer = to_le 4 id ++ (to_le 4 n ++ payload) in
      (read 4 buffer ≡ id)
      × (read 4 (drop 4 buffer) ≡ n)
      × (drop 8 buffer ≡ payload)
      × (length buffer ≡ 8 + length payload)
unfolding to_le
header_lem id n payload a b =
    let all = length-append {0} (to_le 4 id) (to_le 4 n ++ payload) in
    (
      read_lem 4 id (to_le 4 n ++ payload) a,
      unfold to_le in read_lem 4 n payload b,
      refl,
      omega
          (arith, all, length-append {0} (to_le 4 n) payload, length-to_le 4 id, length-to_le 4 n),
    )

-- Behind the header of an encoded message, the loop runs on its payload.
pub build_from_buffer-payload :
    (id : ℕ) (vs : List Value) (h : Heap) (m : Message)
    → id < 2 ^ 32
    → length (payload_of vs) < 2 ^ 32
    → build_from_buffer h m (message_bytes id vs)
      ≡ build_values (8 + length (payload_of vs)) h (record m { msgid = id }) 0 (payload_of vs)
unfolding build_from_buffer message_bytes
build_from_buffer-payload id vs h m i w =
    let (hid, hn, hp, hl) = header_lem id (length (payload_of vs)) (payload_of vs) i w in
    let n = length (payload_of vs) in
    rw
      (
        hl,
        hid,
        hn,
        le→ltb (8 + n) 8 (omega arith),
        add_size_lem 8 n (omega arith),
        le→ltb (8 + n) (8 + n) (omega arith),
        hp,
      )
      refl

-- A message that was encoded from values that can be sent, with an id and a payload below 2 ^ 32, is
-- built again in any message with enough slots: its id, and the values that are not empty, in order,
-- in the first slots. The other slots are left as they were.
pub build_from_buffer-message_bytes :
    (id : ℕ) (vs : List Value) (h : Heap) (m : Message)
    → All IsSendable vs
    → id < 2 ^ 32
    → length (payload_of vs) < 2 ^ 32
    → m.capacity ≡ length m.values
    → length (packed vs) ≤ m.capacity
    → build_from_buffer h m (message_bytes id vs) ≡ (
      ok tt,
      h,
      record m { msgid = id; values = packed vs ++ drop (length (packed vs)) m.values },
    )
build_from_buffer-message_bytes id vs h m s i w k r =
    build_from_buffer-payload id vs h m i w
    ∙ build_values_lem vs (8 + length (payload_of vs)) h (record m { msgid = id }) [] m.values s
        refl k (omega arith) (omega arith)

pub length-message_bytes :
    (id : ℕ) (vs : List Value) → length (message_bytes id vs) ≡ 8 + length (payload_of vs)
unfolding message_bytes
length-message_bytes id vs = omega (
  arith,
  length-append {0} (to_le 4 id) (to_le 4 (length (payload_of vs)) ++ payload_of vs),
  length-append {0} (to_le 4 (length (payload_of vs))) (payload_of vs),
  length-to_le 4 id,
  length-to_le 4 (length (payload_of vs)),
)

-- The bytes that an encoder with room writes for a message with values that can be sent, an id
-- and a payload below 2 ^ 32, build in another message with enough slots the same id and the
-- same values, in the first slots, without the empty ones. The other slots are left as they were.
pub build_from_buffer-encode :
    (m m' : Message) (h : Heap) (buffer : List ℕ) {buf : List ℕ} {n : ℕ}
    → All IsSendable m.values
    → m.msgid < 2 ^ 32
    → length (payload_of m.values) < 2 ^ 32
    → m'.capacity ≡ length m'.values
    → length (packed m.values) ≤ m'.capacity
    → encode m buffer (length buffer) ≡ ok (buf, n)
    → build_from_buffer h m' (take n buf) ≡ (
      ok tt,
      h,
      record m' {
        msgid = m.msgid;
        values = packed m.values ++ drop (length (packed m.values)) m'.values;
      },
    )
build_from_buffer-encode m m' h buffer {buf} {n} s i w k r e =
    rw sent (build_from_buffer-message_bytes m.msgid m.values h m' s i w k r)
  where
    sent : take n buf ≡ message_bytes m.msgid m.values
    sent = ground (
      arith,
      encode_lem m buffer s w,
      length-message_bytes m.msgid m.values,
      take-append {0} (message_bytes m.msgid m.values)
          (drop (8 + length (payload_of m.values)) buffer),
    )
