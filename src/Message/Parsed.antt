-- ===== src/Message/Parsed.antt =====
-- What `smp_message_build_from_buffer` makes of any bytes: src/message.c, lines 398 to 449.
use libsmp.Base.{
  ℕ, zero, suc, ◌+◌, ◌^◌, ◌≤◌, ◌<◌, ◌≡◌, refl, sym, ap, ◌∙◌, arith, List, [], ◌∷◌, ◌++◌, inl, inr,
  ltb, length, get_or, set, take, drop, All, ltb→le, Bool-cases, append_assoc, append-nil,
  length-set, length-drop, take-set, take-append_le,
}
use libsmp.Base.Bytes.{IsByte, from_le-lt}
use libsmp.Errors.{Result, ok, err, fault}
use libsmp.Heap.{Heap}
use libsmp.Message.Value.{Value, empty}
use libsmp.Message.Wire.{decode_value, read}
use libsmp.Message.Store.{Message}
use libsmp.Message.Codec.{
  Build, make_room, after_room, after_value, build_values, build_from_buffer, add_size,
}
use libsmp.Message.Invariant.{IsValid}
use libsmp.Message.Shapes.{Accepted, AcceptedAs}
use libsmp.Message.Accepted.{decode_value-Accepted}
use libsmp.Message.Room.{Room, make_room-Room}
use libsmp.Message.Bounds.{Within, decode_value-Within}

-- The bytes are accepted arguments one after the other, with these values.
pub data Arguments : List ℕ → List Value → Type 0 where
  no_more : Arguments [] []
  one_more :
      (bytes : List ℕ) (n : ℕ) (v : Value) (vs : List Value)
      → Accepted bytes n v
      → Arguments (drop n bytes) vs
      → Arguments bytes (v ∷ vs)

-- What is known of a result: a sequence of arguments was accepted, and their values are in the slots
-- behind the first `i`, which are as they were.
abbrev Read : Message → ℕ → List ℕ → Build → Type 0
Read m i bytes (ok _, h, m') =
    (vs : List Value) × Arguments bytes vs
    × (take (i + length vs) m'.values ≡ take i m.values ++ vs)
    × (m'.msgid ≡ m.msgid)
Read m i bytes (err e, h, m') = Unit {0}
Read m i bytes (fault, h, m') = Unit {0}

-- The slots that were read so far, with a value that is stored behind them.
slots_step :
    (m m1 : Message) (i : ℕ) (v : Value) (extra : List Value)
    → IsValid m
    → i ≤ m.capacity
    → i < length m1.values
    → m1.values ≡ m.values ++ extra
    → take (i + 1) (set m1.values i v) ≡ take i m.values ++ (v ∷ [])
slots_step m m1 i v extra w le inside kept =
    let next : i + 1 ≡ suc i = omega arith in
    ap (λ k. take k (set m1.values i v)) next
    ∙ take-set m1.values i v inside
    ∙ ap (λ t. t ++ (v ∷ [])) (ap (take i) kept ∙ take-append_le i m.values extra (omega arith))

-- A value was stored, and the rest was read behind it.
Read-one_more :
    (m m1 : Message) (h1 : Heap) (i n : ℕ) (v : Value) (bytes : List ℕ) (r : Build)
    → Room m i (ok tt, h1, m1)
    → IsValid m
    → i ≤ m.capacity
    → Accepted bytes n v
    → Read (record m1 { values = set m1.values i v }) (i + 1) (drop n bytes) r
    → Read m i bytes r
Read-one_more m m1 h1 i n v bytes (err e, h, m') room w le a rd = tt
Read-one_more m m1 h1 i n v bytes (fault, h, m') room w le a rd = tt
Read-one_more m m1 h1 i n v bytes (ok _, h, m') (w1, inside, same, more) w le a
      (vs, args, slots, same') =
    let (extra, kept) = more in
    let count : i + suc (length vs) ≡ i + 1 + length vs = omega arith in
    (
      v ∷ vs,
      one_more bytes n v vs a args,
      ap (λ k. take k m'.values) count
          ∙ slots
          ∙ ap (λ t. t ++ vs) (slots_step m m1 i v extra w le (omega arith) kept)
          ∙ append_assoc (take i m.values) (v ∷ []) vs,
      same' ∙ same,
    )

after_value-Read :
    (m m1 : Message) (h1 : Heap) (i : ℕ) (bytes : List ℕ) (d : Result ℕ × Value)
    (next : ℕ → Message → Build)
    → Room m i (ok tt, h1, m1)
    → IsValid m
    → i ≤ m.capacity
    → AcceptedAs bytes d
    → Within (length bytes) d.0
    → ((n : ℕ)
        → 1 ≤ n
        → n ≤ length bytes
        → let m2 = record m1 { values = set m1.values i d.1 } in
          Read m2 (i + 1) (drop n bytes) (next n m2))
    → Read m i bytes (after_value d i h1 m1 next)
unfolding after_value
after_value-Read m m1 h1 i bytes (ok n, v) next room w le a within rd =
    Read-one_more m m1 h1 i n v bytes _ room w le a (rd n within.0 within.1)
after_value-Read m m1 h1 i bytes (err e, v) next room w le a within rd = tt
after_value-Read m m1 h1 i bytes (fault, v) next room w le a within rd = tt

after_room-Read :
    (m : Message) (i : ℕ) (bytes : List ℕ) (r : Build) (next : Heap → Message → Build)
    → Room m i r
    → ((h1 : Heap) (m1 : Message) → Room m i (ok tt, h1, m1) → Read m i bytes (next h1 m1))
    → Read m i bytes (after_room r next)
unfolding after_room
after_room-Read m i bytes (ok u, h1, m1) next room rd = rd h1 m1 room
after_room-Read m i bytes (err e, h1, m1) next room rd = tt
after_room-Read m i bytes (fault, h1, m1) next room rd = tt

All-drop : (n : ℕ) (bytes : List ℕ) → All IsByte bytes → All IsByte (drop n bytes)
All-drop zero bytes h = h
All-drop (suc n) [] h = h
All-drop (suc n) (b ∷ bs) h = All-drop n bs h.1

build_values-Read :
    (fuel : ℕ) (h : Heap) (m : Message) (i : ℕ) (bytes : List ℕ)
    → IsValid m
    → i ≤ m.capacity
    → All IsByte bytes
    → i + length bytes < 2 ^ 62
    → Read m i bytes (build_values fuel h m i bytes)
unfolding build_values
build_values-Read fuel h m i [] w le b small =
    let none_more : i + 0 ≡ i = omega arith in
    ([], no_more, ap (λ k. take k m.values) none_more ∙ sym (append-nil (take i m.values)), refl)
build_values-Read zero h m i (x ∷ xs) w le b small = tt
build_values-Read (suc fuel) h m i (x ∷ xs) w le b small =
    after_room-Read m i (x ∷ xs) (make_room h m i) _ (make_room-Room h m i w le (omega arith))
      (λ h1 m1 room.
        after_value-Read m m1 h1 i (x ∷ xs) (decode_value (get_or m1.values i empty) (x ∷ xs)) _
          room w le (decode_value-Accepted (get_or m1.values i empty) (x ∷ xs) b)
          (decode_value-Within (get_or m1.values i empty) (x ∷ xs))
          (λ n one most.
            build_values-Read fuel h1
              (record m1 {
                values = set m1.values i (decode_value (get_or m1.values i empty) (x ∷ xs)).1;
              })
              (i + 1) (drop n (x ∷ xs))
              (length-set m1.values i (decode_value (get_or m1.values i empty) (x ∷ xs)).1 ∙ room.0)
              (omega (arith, room.1)) (All-drop n (x ∷ xs) b)
              (omega (arith, length-drop {0} n (x ∷ xs)))))

-- The header fits the buffer, the id is that of the header, and the bytes behind the header are accepted
-- arguments whose values are in the first slots, in order.
abbrev pub Parsed : List ℕ → Build → Type 0
Parsed buffer (ok _, h, m') =
    (8 + read 4 (drop 4 buffer) ≤ length buffer)
    × (m'.msgid ≡ read 4 buffer)
    × ((vs : List Value) × Arguments (drop 8 buffer) vs × (take (length vs) m'.values ≡ vs))
Parsed buffer (err e, h, m') = Unit {0}
Parsed buffer (fault, h, m') = Unit {0}

from_header :
    (m : Message) (buffer : List ℕ) (r : Build)
    → 8 + read 4 (drop 4 buffer) ≤ length buffer
    → m.msgid ≡ read 4 buffer
    → Read m 0 (drop 8 buffer) r
    → Parsed buffer r
from_header m buffer (ok _, h, m') room e (vs, args, slots, same) =
    let count : length vs ≡ 0 + length vs = omega arith in
    (room, same ∙ e, (vs, args, ap (λ k. take k m'.values) count ∙ slots))
from_header m buffer (err x, h, m') room e rd = tt
from_header m buffer (fault, h, m') room e rd = tt

-- Whatever the bytes, where a valid message is built from them, below 2 ^ 62 of them, with success, the
-- buffer has the header and as many bytes behind it as the header says at least, the id is that of the
-- header, and all that is behind the header, with nothing left over, is a sequence of accepted
-- arguments: the message has their values, in order, in its first slots.
pub build_from_buffer-Parsed :
    (h : Heap) (m : Message) (buffer : List ℕ)
    → IsValid m
    → All IsByte buffer
    → length buffer < 2 ^ 62
    → Parsed buffer (build_from_buffer h m buffer)
unfolding build_from_buffer
build_from_buffer-Parsed h m buffer w b small =
    let argsize = read 4 (drop 4 buffer) in
    let m1 = record m { msgid = read 4 buffer } in
    let word : argsize < 2 ^ 32 = from_le-lt 4 (drop 4 buffer) (All-drop 4 buffer b) in
    let sum : add_size 8 argsize ≡ 8 + argsize = omega arith in
    elim (Bool-cases (ltb (length buffer) 8)) [
      | inl e ↦ rw e tt
      | inr e ↦ elim (Bool-cases (ltb (length buffer) (add_size 8 argsize))) [
        | inl k ↦ rw (e, k) tt
        | inr k ↦
            rw (e, k)
              (from_header m1 buffer _
                (omega (arith, sum, ltb→le (length buffer) (add_size 8 argsize) k)) refl
                (build_values-Read (length buffer) h m1 0 (drop 8 buffer) w (omega arith)
                  (All-drop 8 buffer b) (omega (arith, length-drop {0} 8 buffer))))
      ]
    ]
