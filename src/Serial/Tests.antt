-- ===== src/Serial/Tests.antt =====
-- The framing on concrete bytes, with an instance of each of its properties.
use libsmp.Base.{
  ℕ, ◌+◌, ◌≡◌, refl, arith, true, inl, List, [], ◌∷◌, ◌++◌, none, some, length, replicate, take,
  drop, ltb, ◌==◌, if◌then◌else◌, ◌≤◌,
}
use libsmp.Errors.{ok, err, too_big, bad_message, invalid_param, overflow, no_mem}
use libsmp.Heap.{Heap}
use libsmp.Serial.Frame.{
  is_magic_byte, count_magic, compute_payload_size, checksum_from, compute_checksum, escape_byte,
  frame_of,
}
use libsmp.Serial.Decoder.{
  wait_header, in_frame, in_frame_esc, Decoder, process_byte, process_state, process_byte_inframe,
  put_byte, store, end_frame, set_capacity, run,
}
use libsmp.Serial.Encoder.{write_byte, write_payload, write_frame, encode}
use libsmp.Serial.Storage.{IsValid}
use libsmp.Serial.Invariant.{run-IsValid}
use libsmp.Serial.Reading.{Runs}
use libsmp.Serial.RoundTrip.{IsIdle, outputs_of}
use libsmp.Serial.Encoding.{
  encode_into, encode_alloc, compute_payload_size_lem, length-frame_of_le, fresh_block,
}
use libsmp.Serial.Link.{decode-encode, run-stream, Yields, stream}
use libsmp.Serial.Safety.{Genuine, delivery-Genuine, corrupted_byte}
use libsmp.Serial.Resync.{run-resync}
use libsmp.Serial.Failures.{ErrorCase, error-ErrorCase}

abbrev heap : Heap
heap = record { grant = λ i n. true; junk = λ i. 170; calls = 0; live = 0 }

abbrev idle : Decoder
idle = record {
  state = wait_header;
  buf = replicate 8 0;
  bufsize = 8;
  offset = 0;
  maxsize = 8;
  statically_allocated = true;
}

idle-IsValid : IsValid idle
idle-IsValid = record { storage = refl; within = tt; word = omega arith }

-- the start byte itself, and 7
abbrev payload : List ℕ
payload = 16 ∷ 7 ∷ []

abbrev encoded : List ℕ
encoded = 16 ∷ 27 ∷ 16 ∷ 7 ∷ 23 ∷ 255 ∷ 0 ∷ 0 ∷ []

encode-payload : (encode heap payload (some (replicate 8 0)) 8).0 ≡ ok (encoded, 6)
unfolding encode write_frame write_payload write_byte compute_payload_size count_magic is_magic_byte
    compute_checksum checksum_from
encode-payload = refl

decode-encode_example : Runs heap idle (take 6 encoded) (outputs_of wait_header payload) IsIdle
decode-encode_example =
    decode-encode payload (some (replicate 8 0)) 8 heap heap idle (omega arith) refl encode-payload
      idle-IsValid (λ e. cc e) (inl (omega arith))

run-stream_example :
    Yields heap idle (stream (payload ∷ (255 ∷ []) ∷ [])) (payload ∷ (255 ∷ []) ∷ [])
run-stream_example =
    run-stream (payload ∷ (255 ∷ []) ∷ []) heap idle (record { valid = idle-IsValid; state = refl })
      (inl (omega arith), (inl (omega arith), tt))

-- before the end of a frame
abbrev reading : ℕ → Decoder
reading b = record idle { state = in_frame; buf = 16 ∷ b ∷ 23 ∷ replicate 5 0; offset = 3 }

reading-IsValid : (b : ℕ) → IsValid (reading b)
reading-IsValid b = record { storage = refl; within = omega arith; word = omega arith }

-- noise, and an unfinished frame, and then a frame with an escaped byte
abbrev line : List ℕ
line = 3 ∷ 16 ∷ 9 ∷ 16 ∷ 27 ∷ 16 ∷ 7 ∷ 23 ∷ []

delivery-Genuine_example :
    Genuine line 255
      (process_byte (run heap idle line).1 (run heap idle line).2 255).0
      (process_byte (run heap idle line).1 (run heap idle line).2 255).2
      payload
unfolding run process_byte process_state process_byte_inframe put_byte store end_frame
    compute_checksum checksum_from
delivery-Genuine_example = delivery-Genuine line heap idle 255 idle-IsValid refl refl

corrupted_byte_example : process_byte heap (reading 5) 255 ≡ (
  record { ret = err bad_message; frame = none; framesize = 2 },
  heap,
  record (reading 5) { state = wait_header },
)
unfolding compute_checksum checksum_from
corrupted_byte_example =
    corrupted_byte heap (reading 5) (16 ∷ []) [] 7 5 (λ e. absurd (omega (arith, e)))
      (record { valid = reading-IsValid 5; state = refl; bytes = refl; count = refl })

-- no room for the byte behind the escape
abbrev full : Decoder
full = record idle { state = in_frame_esc; offset = 8 }

error-ErrorCase_example : ErrorCase heap full 16
unfolding process_byte process_state put_byte set_capacity
error-ErrorCase_example =
    error-ErrorCase heap full 16 {e = too_big}
      (record { storage = refl; within = omega arith; word = omega arith }) refl

-- A stuck decoder, a frame that it cannot take, and two frames behind.
run-resync_example :
    let (outs, h', d') = run heap full (16 ∷ 255 ∷ 16 ∷ 3 ∷ [] ++ frame_of (replicate 9 27)) in
    IsIdle d' × Yields h' d' (stream (payload ∷ (255 ∷ []) ∷ [])) (payload ∷ (255 ∷ []) ∷ [])
run-resync_example =
    run-resync (16 ∷ 255 ∷ 16 ∷ 3 ∷ []) (replicate 9 27) (payload ∷ (255 ∷ []) ∷ []) heap full
      (record { storage = refl; within = omega arith; word = omega arith }) refl
      (omega arith, (omega arith, tt))

run-IsValid_example : IsValid (run heap idle (16 ∷ 1 ∷ 16 ∷ 27 ∷ 2 ∷ 255 ∷ [])).2
run-IsValid_example = run-IsValid (16 ∷ 1 ∷ 16 ∷ 27 ∷ 2 ∷ 255 ∷ []) heap idle idle-IsValid

encode_into_case : encode heap payload (some (replicate 4 0)) 4 ≡ (
  (if 4 == 0
      then err invalid_param
      else if ltb 4 (compute_payload_size payload)
      then err overflow
      else ok (
        frame_of payload ++ drop (length (frame_of payload)) (replicate 4 0),
        length (frame_of payload),
      )),
  heap,
)
encode_into_case = encode_into heap payload (replicate 4 0) (omega arith)

encode_alloc_case : (encode heap payload none 0).0 ≡ (
    if true
    then ok (frame_of payload ++ fresh_block heap payload, length (frame_of payload))
    else err no_mem)
encode_alloc_case = encode_alloc heap payload 0 (omega arith)

compute_payload_size_lem_case :
    compute_payload_size payload + length (escape_byte (compute_checksum payload))
    ≡ length (frame_of payload) + 2
compute_payload_size_lem_case = compute_payload_size_lem payload (omega arith)

length-frame_of_le_case : length (frame_of payload) ≤ 8
length-frame_of_le_case = length-frame_of_le payload
