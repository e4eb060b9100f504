-- ===== src/Serial/Encoder.antt =====
-- The encoder of src/serial-protocol.c: `smp_serial_protocol_encode` and what it calls.
use libsmp.Base.{ℕ, ◌+◌, List, [], ◌∷◌, Option, none, some, set}
use libsmp.Base.{ltb, ◌==◌, if◌then◌else◌}
use libsmp.Errors.{Result, ok, err, invalid_param, no_mem, overflow}
use libsmp.Heap.{Heap, alloc, block_from}
use libsmp.Serial.Frame.{
  start_byte, end_byte, esc_byte, is_magic_byte, compute_payload_size, compute_checksum,
}

-- `smp_serial_protocol_write_byte (dest + o, byte)`: the memory afterwards, and the count written.
unfoldable pub write_byte : List ℕ → ℕ → ℕ → List ℕ × ℕ
write_byte dest o byte =
    if is_magic_byte byte then (set (set dest o esc_byte) (o + 1) byte, 2) else (set dest o byte, 1)

-- the loop over the payload
unfoldable pub write_payload : List ℕ → ℕ → List ℕ → List ℕ × ℕ
write_payload txbuf offset [] = (txbuf, offset)
write_payload txbuf offset (b ∷ bs) =
    let (txbuf', n) = write_byte txbuf offset b in write_payload txbuf' (offset + n) bs

-- The stores of the encoder into `txbuf`, and the final offset. The offset stays below the size of
-- `txbuf`, so it cannot wrap.
unfoldable pub write_frame : List ℕ → List ℕ → List ℕ × ℕ
write_frame txbuf inbuf =
    let (t1, o1) = write_payload (set txbuf 0 start_byte) 1 inbuf in
    let (t2, n) = write_byte t1 o1 (compute_checksum inbuf) in
    (set t2 (o1 + n) end_byte, o1 + n + 1)

-- `smp_serial_protocol_encode`. `outbuf` is what `*outbuf` points to, of `outsize` bytes, or `none`
-- for NULL; the result is `*outbuf` and the returned count.
unfoldable pub encode : Heap → List ℕ → Option (List ℕ) → ℕ → Result (List ℕ × ℕ) × Heap
encode h inbuf none outsize =
    let payload_size = compute_payload_size inbuf in
    let (granted, h') = alloc h payload_size in
    if granted
    then (ok (write_frame (block_from h.junk 0 payload_size) inbuf), h')
    else (err no_mem, h')
encode h inbuf (some outbuf) outsize =
    if outsize == 0
    then (err invalid_param, h)
    else if ltb outsize (compute_payload_size inbuf)
    then (err overflow, h)
    else (ok (write_frame outbuf inbuf), h)
