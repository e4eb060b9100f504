-- ===== src/Message/Codec.antt =====
-- Whole messages on the wire: src/message.c, lines 366 to 377, 398 to 449 and 647 to 683.
use libsmp.Base.{
  ℕ, zero, suc, ◌+◌, ◌-◌, ◌%◌, ◌^◌, List, [], ◌∷◌, if◌then◌else◌, ltb, leb, length, get_or, set,
  drop,
}
use libsmp.Base.Memory.{write}
use libsmp.Base.Bytes.{to_le}
use libsmp.Errors.{◌>>=◌, Result, ok, err, fault, no_mem, overflow, bad_message, too_big}
use libsmp.Heap.{Heap}
use libsmp.Message.Value.{Value, empty, is_none, compute_size}
use libsmp.Message.Wire.{read, decode_value, encode_value}
use libsmp.Message.Store.{Message, next_pow2, set_capacity}

-- `MSG_HEADER_SIZE`
abbrev pub msg_header_size : ℕ
msg_header_size = 8

abbrev pub add_size : ℕ → ℕ → ℕ
add_size a b = (a + b) % 2 ^ 64

abbrev add_value : Result ℕ → ℕ → Result ℕ
add_value (ok n) ret = ok (add_size ret (1 + n))
add_value (err e) ret = err e
add_value fault ret = fault

-- the loop of `smp_message_compute_max_encoded_size`
unfoldable pub sum_sizes : ℕ → List Value → Result ℕ
sum_sizes ret [] = ok ret
sum_sizes ret (v ∷ vs) = do
  ret' ← if is_none v then ok ret else add_value (compute_size v) ret
  sum_sizes ret' vs

-- `smp_message_get_encoded_size`
unfoldable pub get_encoded_size : Message → Result ℕ
unfolding sum_sizes
get_encoded_size m = do n ← sum_sizes 0 m.values; ok (add_size n msg_header_size)

-- the loop of `smp_message_encode` over the values: the memory and the offset
unfoldable pub encode_values : List ℕ → ℕ → List Value → Result (List ℕ × ℕ)
encode_values buffer offset [] = ok (buffer, offset)
encode_values buffer offset (v ∷ vs) = do
  (b, n) ← if is_none v then ok (buffer, 0) else encode_value v buffer offset
  encode_values b (add_size offset n) vs

-- `smp_message_encode`, behind the test of the size
unfoldable pub encode_fitting : Message → List ℕ → Result (List ℕ × ℕ)
encode_fitting m buffer = do
  (b, offset) ← encode_values (write buffer 0 (to_le 4 m.msgid)) msg_header_size m.values
  if ltb (2 ^ 32 - 1) (offset - msg_header_size)
      then err overflow
      else ok (write b 4 (to_le 4 (offset - msg_header_size)), offset)

-- `smp_message_encode` into `buffer`, of `size` bytes: the memory afterwards and the count.
unfoldable pub encode : Message → List ℕ → ℕ → Result (List ℕ × ℕ)
encode m buffer size = do
  needed ← get_encoded_size m
  if ltb size needed then err no_mem else encode_fitting m buffer

-- Room for the value number `i`: the capacity is raised to the next power of two.
unfoldable pub make_room : Heap → Message → ℕ → Result (Unit {0}) × Heap × Message
make_room h m i =
    if leb m.capacity i
    then (if m.statically_allocated
        then (err too_big, h, m)
        else set_capacity h m (next_pow2 (add_size m.capacity 1)))
    else (ok tt, h, m)

abbrev pub Build : Type 0
Build = Result (Unit {0}) × Heap × Message

-- what follows an attempt to make room
unfoldable pub after_room : Build → (Heap → Message → Build) → Build
after_room (ok _, h, m) next = next h m
after_room (err e, h, m) next = (err e, h, m)
after_room (fault, h, m) next = (fault, h, m)

-- The value that was read is in its slot, complete or not; `next` goes on behind it.
unfoldable pub after_value : Result ℕ × Value → ℕ → Heap → Message → (ℕ → Message → Build) → Build
after_value (ok n, v) i h m next = next n (record m { values = set m.values i v })
after_value (err e, v) i h m next = (err e, h, record m { values = set m.values i v })
after_value (fault, v) i h m next = (fault, h, record m { values = set m.values i v })

-- The loop of `smp_message_build_from_buffer`, with the bytes that are left. A value takes at most
-- what is left, so the offset does not pass the size. Where the values of a static message are all
-- used and bytes are left, the code leaves the loop and answers `too_big`.
-- Each round takes a byte at least: as much fuel as there are bytes is enough, and `fault` for no
-- fuel does not occur.
unfoldable pub build_values : ℕ → Heap → Message → ℕ → List ℕ → Build
build_values fuel h m i [] = (ok tt, h, m)
build_values zero h m i (b ∷ bs) = (fault, h, m)
build_values (suc fuel) h m i (b ∷ bs) = after_room (make_room h m i) (λ h1 m1.
    after_value (decode_value (get_or m1.values i empty) (b ∷ bs)) i h1 m1
      (λ n m2. build_values fuel h1 m2 (i + 1) (drop n (b ∷ bs))))

-- `smp_message_build_from_buffer`
unfoldable pub build_from_buffer : Heap → Message → List ℕ → Build
build_from_buffer h m buffer =
    let size = length buffer in
    let argsize = read 4 (drop 4 buffer) in
    let m1 = record m { msgid = read 4 buffer } in
    if ltb size msg_header_size
    then (err bad_message, h, m)
    else if ltb size (add_size msg_header_size argsize)
    then (err bad_message, h, m1)
    else build_values size h m1 0 (drop msg_header_size buffer)
