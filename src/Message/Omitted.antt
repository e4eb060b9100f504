-- ===== src/Message/Omitted.antt =====
-- The encoder of messages on values that are too long for their size field: src/message.c, lines 331 to
-- 352 and 647 to 678.
use libsmp.Base.{
  ℕ, suc, ◌+◌, ◌-◌, ◌^◌, ◌≤◌, ◌<◌, ◌≡◌, refl, sym, ap, ◌∙◌, arith, true, false, List, [], ◌∷◌, ◌++◌,
  length, take, drop, All, le→ltb, length-append, length-drop, length-take, append_assoc,
  append-nil, take-append-drop, drop-append,
}
use libsmp.Base.Memory.{write, write-append}
use libsmp.Base.Bytes.{to_le, length-to_le}
use libsmp.Errors.{Result, ok}
use libsmp.Message.Value.{Value, is_none, type_of, to_code}
use libsmp.Message.Store.{Message}
use libsmp.Message.Codec.{get_encoded_size, encode_values, encode_fitting, encode, add_size}
use libsmp.Message.Format.{IsEncodable, argument, payload_of, message_bytes}
use libsmp.Message.Argument.{encode_value_lem}
use libsmp.Message.Encoding.{length-argument, payload_none, payload_some}
use libsmp.Message.TooLong.{
  too_long, Slot, unused, fits, long, shortened, size_of, room_for, encode_long, size_of_lem,
  none-fits, sum_sizes-room,
}

-- The loop over the values, behind the bytes `xs`: it writes the payload of the values that are not too
-- long, and the bytes behind it are as many as they were.
Writes : List ℕ → List ℕ → List Value → Type 0
Writes xs rest vs =
    let p = payload_of (shortened vs) in
    (rest' : List ℕ) × (length p + length rest' ≡ length rest)
    × (encode_values (xs ++ rest) (length xs) vs ≡ ok ((xs ++ p) ++ rest', length xs + length p))

ok_pair :
    {b c : List ℕ} {m n : ℕ} → b ≡ c → m ≡ n → ◌≡◌ {A = Result (List ℕ × ℕ)} (ok (b, m)) (ok (c, n))
ok_pair p q = λ i. ok (p i, q i)

Writes-fits :
    (v : Value) (vs : List Value) (xs rest : List ℕ)
    → is_none v ≡ false
    → too_long v ≡ false
    → IsEncodable v
    → length (argument v) ≤ length rest
    → length xs + length rest < 2 ^ 64
    → Writes (xs ++ argument v) (drop (length (argument v)) rest) vs
    → Writes xs rest (v ∷ vs)
unfolding Writes encode_values shortened
Writes-fits v vs xs rest e t c room b (rest', count, done) =
    let arg = argument v in
    let n = length-append {0} xs arg in
    let next : add_size (length xs) (length arg) ≡ length (xs ++ arg) = omega arith in
    let p = payload_of (shortened vs) in
    let whole = length-append {0} arg p in
    rw
      (
        t,
        payload_some v (shortened vs) e,
        e,
        encode_value_lem v (xs ++ rest) (length xs) c,
        write-append xs arg rest room,
        next,
      )
      (
        rest',
        omega (arith, length-drop {0} (length arg) rest),
        done ∙ ok_pair (ap (λ x. x ++ rest') (append_assoc xs arg p)) (omega arith),
      )

Writes-long :
    (v : Value) (vs : List Value) (xs : List ℕ) (r : ℕ) (rest : List ℕ)
    → is_none v ≡ false
    → too_long v ≡ true
    → length xs + suc (length rest) < 2 ^ 64
    → Writes xs (to_code (type_of v) ∷ rest) vs
    → Writes xs (r ∷ rest) (v ∷ vs)
unfolding Writes encode_values shortened
Writes-long v vs xs r rest e t b w =
    let same : add_size (length xs) 0 ≡ length xs = omega arith in
    rw (t, e, encode_long v xs r rest t, same) w

encode_values-Writes :
    (vs : List Value) (xs rest : List ℕ)
    → All Slot vs
    → room_for vs ≤ length rest
    → length xs + length rest < 2 ^ 64
    → Writes xs rest vs
unfolding Writes encode_values shortened room_for
encode_values-Writes [] xs rest h w b =
    unfold payload_of in
    (rest, omega arith, ok_pair (ap (λ x. x ++ rest) (sym (append-nil xs))) (omega arith))
encode_values-Writes (v ∷ vs) xs rest (unused e, h) w b =
    let same : add_size (length xs) 0 ≡ length xs = omega arith in
    rw (none-fits v e, payload_none v (shortened vs) e, e, same)
      (encode_values-Writes vs xs rest h (rw e at w) b)
encode_values-Writes (v ∷ vs) xs rest (fits e t c, h) w b =
    let size = size_of_lem v c in
    let arg = length-argument v in
    let room : 1 + size_of v + room_for vs ≤ length rest = rw e at w in
    let fewer = length-drop {0} (length (argument v)) rest in
    Writes-fits v vs xs rest e t c (omega arith) b (
      encode_values-Writes vs (xs ++ argument v) (drop (length (argument v)) rest) h (omega arith)
        (omega (arith, length-append {0} xs (argument v))))
encode_values-Writes (v ∷ vs) xs [] (long e t, h) w b =
    let room : 1 + size_of v + room_for vs ≤ 0 = rw e at w in absurd (omega arith)
encode_values-Writes (v ∷ vs) xs (r ∷ rest) (long e t, h) w b =
    let room : 1 + size_of v + room_for vs ≤ suc (length rest) = rw e at w in
    Writes-long v vs xs r rest e t b
      (encode_values-Writes vs xs (to_code (type_of v) ∷ rest) h (omega arith) b)

-- The size of the payload, written between the identifier and the payload.
write_size :
    (a x p rest b : List ℕ)
    → length a ≡ 4
    → length x ≡ 4
    → length b ≡ 4
    → write (((a ++ x) ++ p) ++ rest) 4 b ≡ (a ++ (b ++ p)) ++ rest
write_size a x p rest b ea ex eb =
    ap (λ t. write t 4 b) (ap (λ t. t ++ rest) (append_assoc a x p) ∙ append_assoc a (x ++ p) rest)
    ∙ ap (λ k. write (a ++ ((x ++ p) ++ rest)) k b) (sym ea)
    ∙ write-append a b ((x ++ p) ++ rest)
        (omega (arith, length-append {0} (x ++ p) rest, length-append {0} x p))
    ∙ ap (λ t. (a ++ b) ++ t)
        (ap (drop (length b)) (append_assoc x p rest)
          ∙ ap (λ k. drop k (x ++ (p ++ rest))) (eb ∙ sym ex)
          ∙ drop-append x (p ++ rest))
    ∙ sym (append_assoc (a ++ b) p rest)
    ∙ ap (λ t. t ++ rest) (append_assoc a b p)

write_id :
    (a buffer : List ℕ)
    → length a ≡ 4
    → 8 ≤ length buffer
    → write buffer 0 a ≡ (a ++ take 4 (drop 4 buffer)) ++ drop 4 (drop 4 buffer)
write_id a buffer ea room =
    write-append [] a buffer (omega arith)
    ∙ ap (λ k. a ++ drop k buffer) ea
    ∙ ap (λ t. a ++ t) (sym (take-append-drop 4 (drop 4 buffer)))
    ∙ sym (append_assoc a (take 4 (drop 4 buffer)) (drop 4 (drop 4 buffer)))

-- `encode` writes the message of the values `vs` into a memory of `n` bytes, and counts them.
pub Encodes : ℕ → List Value → ℕ → Result (List ℕ × ℕ) → Type 0
Encodes id vs n r =
    let p = payload_of vs in
    (rest : List ℕ) × (8 + length p + length rest ≡ n)
    × (r ≡ ok (message_bytes id vs ++ rest, 8 + length p))

encode_fitting-Encodes :
    (m : Message) (x r : List ℕ) (n : ℕ)
    → length x ≡ 4
    → 8 + length r ≡ n
    → Writes (to_le 4 m.msgid ++ x) r m.values
    → length (payload_of (shortened m.values)) < 2 ^ 32
    → (buffer : List ℕ) → write buffer 0 (to_le 4 m.msgid) ≡ (to_le 4 m.msgid ++ x) ++ r
    → Encodes m.msgid (shortened m.values) n (encode_fitting m buffer)
unfolding Writes Encodes encode_fitting message_bytes
encode_fitting-Encodes m x r n ex er (rest, count, done) w buffer first =
    let id = to_le 4 m.msgid in
    let p = payload_of (shortened m.values) in
    let four : length id ≡ 4 = length-to_le 4 m.msgid in
    let eight : length (id ++ x) ≡ 8 = omega (arith, length-append {0} id x) in
    let start : encode_values ((id ++ x) ++ r) 8 m.values
        ≡ ok (((id ++ x) ++ p) ++ rest, 8 + length p) =
      rw eight at done in
    let size : 8 + length p - 8 ≡ length p = omega arith in
    rw (first, start, size, le→ltb (2 ^ 32 - 1) (length p) (omega arith))
      (
        rest,
        omega arith,
        ok_pair (write_size id x p rest (to_le 4 (length p)) four ex (length-to_le 4 (length p)))
            refl,
      )

-- Encoding a message whose values can be encoded or are too long for their size field (strings of more
-- than 65534 bytes, raw data of more than 65535), into a buffer, whose whole size is given, with room for
-- all of them, where the size is below 2 ^ 64 and the payload of the others below 2 ^ 32: it succeeds, and
-- writes exactly the message without the values that are too long.
pub encode-shortened :
    (m : Message) (buffer : List ℕ)
    → All Slot m.values
    → 8 + room_for m.values ≤ length buffer
    → length buffer < 2 ^ 64
    → length (payload_of (shortened m.values)) < 2 ^ 32
    → Encodes m.msgid (shortened m.values) (length buffer) (encode m buffer (length buffer))
unfolding encode get_encoded_size Encodes
encode-shortened m buffer h room b w =
    let sum = sum_sizes-room m.values 0 h (omega arith) in
    let header : add_size (0 + room_for m.values) 8 ≡ 8 + room_for m.values = omega arith in
    let id = to_le 4 m.msgid in
    let four : length id ≡ 4 = length-to_le 4 m.msgid in
    let x = take 4 (drop 4 buffer) in
    let r = drop 4 (drop 4 buffer) in
    let behind = length-drop {0} 4 buffer in
    let count = length-drop {0} 4 (drop 4 buffer) in
    let width : length x ≡ 4 = omega (arith, length-take {0} 4 (drop 4 buffer)) in
    let values =
      encode_values-Writes m.values (id ++ x) r h (omega arith)
        (omega (arith, length-append {0} id x)) in
    rw (sum, header, le→ltb (length buffer) (8 + room_for m.values) room)
      (encode_fitting-Encodes m x r (length buffer) width (omega arith) values w buffer
        (write_id id buffer four (omega arith)))
