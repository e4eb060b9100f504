-- ===== src/Context/Send.antt =====
-- `smp_context_send_message`: src/context.c, lines 269 to 343. `write` is the device: from the bytes
-- handed to it, the count that it took or its error.
use libsmp.Base.{ℕ, ◌==◌, Option, none, some, List, take, if◌then◌else◌, ltb, length}
use libsmp.Errors.{Error, Result, ok, err, fault, bad_fd, no_mem, overflow, io}
use libsmp.Heap.{Heap, free}
use libsmp.Serial.Encoder
use libsmp.Message.Store.{Message}
use libsmp.Message.Codec.{get_encoded_size}
use libsmp.Message.Codec
use libsmp.Buffer.{Buffer, new_allocate, free_buffer}
use libsmp.Context.State.{Context}

-- What a call returns, the bytes that the device was given, and the heap.
pub record Sent : Type 0 where
  pub ret : Result (Unit {0})
  pub written : Option (List ℕ)
  pub heap : Heap

abbrev pub failed : Error → Heap → Sent
failed e h = record { ret = err e; written = none; heap = h }

abbrev lost : Heap → Sent
lost h = record { ret = fault; written = none; heap = h }

-- step 3: all the bytes are to be taken.
unfoldable pub written_out : Result ℕ → List ℕ → Heap → Sent
written_out (ok n) bytes h = record {
  ret = if n == length bytes then ok tt else err io;
  written = some bytes;
  heap = h;
}
written_out (err e) bytes h = record { ret = err e; written = some bytes; heap = h }
written_out fault bytes h = record { ret = fault; written = some bytes; heap = h }

-- the buffer for the serial frame, where the context has one
unfoldable pub serial_buffer : Context → Option (List ℕ) × ℕ
serial_buffer ctx = elim ctx.serial_tx [ none ↦ (none, 0) | some b ↦ (some b.data', b.maxsize) ]

-- step 3, with the encoded frame
unfoldable pub send_frame : (List ℕ → Result ℕ) → Result (List ℕ × ℕ) × Heap → Sent
send_frame write (ok (buf, n), h) = written_out (write (take n buf)) (take n buf) h
send_frame write (err e, h) = failed e h
send_frame write (fault, h) = lost h

-- The frame is freed where the encoder allocated it: after any outcome of step 3.
unfoldable pub release_frame : Context → Result (List ℕ × ℕ) → Heap → Heap
release_frame ctx (ok (buf, n)) h = elim ctx.serial_tx [ none ↦ free h | some b ↦ h ]
release_frame ctx (err e) h = h
release_frame ctx fault h = h

-- step 2 and step 3, with the encoded message
unfoldable pub send_payload : Context → (List ℕ → Result ℕ) → Result (List ℕ × ℕ) → Heap → Sent
send_payload ctx write (ok (buf, n)) h =
    let (outbuf, outsize) = serial_buffer ctx in
    let (r, h1) = Encoder.encode h (take n buf) outbuf outsize in
    let s = send_frame write (r, h1) in record s { heap = release_frame ctx r s.heap }
send_payload ctx write (err e) h = failed e h
send_payload ctx write fault h = lost h

-- step 1, in an allocated buffer, which is freed at the end
unfoldable pub send_allocated :
    Context → Message → (List ℕ → Result ℕ) → Option Buffer × Heap → Sent
send_allocated ctx msg write (none, h) = failed no_mem h
send_allocated ctx msg write (some b, h) =
    let s = send_payload ctx write (Codec.encode msg b.data' b.maxsize) h in
    record s { heap = free_buffer s.heap b }

-- step 1, in a buffer of the caller
unfoldable pub send_static : Context → Message → (List ℕ → Result ℕ) → Buffer → ℕ → Heap → Sent
send_static ctx msg write b msgsize h =
    let s = send_payload ctx write (Codec.encode msg b.data' b.maxsize) h in
    if ltb b.maxsize msgsize then failed overflow h else s

unfoldable pub send_in : Context → Message → (List ℕ → Result ℕ) → ℕ → Option Buffer → Heap → Sent
send_in ctx msg write msgsize none h = send_allocated ctx msg write (new_allocate h msgsize)
send_in ctx msg write msgsize (some b) h = send_static ctx msg write b msgsize h

unfoldable pub send_sized : Context → Message → (List ℕ → Result ℕ) → Result ℕ → Heap → Sent
send_sized ctx msg write (ok msgsize) h = send_in ctx msg write msgsize ctx.msg_tx h
send_sized ctx msg write (err e) h = failed e h
send_sized ctx msg write fault h = lost h

-- `smp_context_send_message`
unfoldable pub send_message : Heap → Context → Message → (List ℕ → Result ℕ) → Sent
send_message h ctx msg write =
    let s = send_sized ctx msg write (get_encoded_size msg) h in
    if ctx.opened then s else failed bad_fd h
