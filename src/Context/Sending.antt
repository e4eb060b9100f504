-- ===== src/Context/Sending.antt =====
-- What `smp_context_send_message` hands to the device, and what it leaves allocated.
use libsmp.Base.{
  ℕ, ◌+◌, ◌*◌, ◌^◌, ◌≤◌, ◌<◌, ◌≡◌, refl, sym, ap, ◌∙◌, arith, Bool, true, false, Option, none, some,
  List, ◌++◌, length, replicate, inl, inr, if◌then◌else◌, All, drop, take, take-append, le→ltb,
  ne→==, ltb, Bool-cases, Option-cases, ◌==◌, subst,
}
use libsmp.Errors.{Result, ok, err, fault, bad_fd, overflow}
use libsmp.Heap.{Heap, alloc, free}
use libsmp.Serial.Frame.{frame_of, compute_payload_size}
use libsmp.Serial.Encoder
use libsmp.Serial.Encoding.{encode_into}
use libsmp.Message.Store.{Message}
use libsmp.Message.Format.{payload_of, message_bytes}
use libsmp.Message.Encoding.{IsSendable, get_encoded_size_lem, encode_lem}
use libsmp.Message.Codec
use libsmp.Message.Codec.{get_encoded_size}
use libsmp.Message.RoundTrip.{length-message_bytes}
use libsmp.Buffer.{Buffer, new_allocate, free_buffer, free_default, sizeof_buffer}
use libsmp.Context.State.{Context}
use libsmp.Context.Send.{
  Sent, failed, send_message, send_sized, send_in, send_static, send_allocated, send_payload,
  send_frame, serial_buffer, release_frame, written_out,
}
use libsmp.Context.Answer.{Returns, written_out-Returns, written_out-written}

-- A buffer has the memory that it says.
abbrev pub IsSized : Buffer → Type 0
IsSized b = length b.data' ≡ b.maxsize

encode_sized :
    (m : Message) (b : Buffer)
    → IsSized b
    → All IsSendable m.values
    → length (payload_of m.values) < 2 ^ 32
    → 8 + length (payload_of m.values) ≤ b.maxsize
    → Codec.encode m b.data' b.maxsize
      ≡ ok (
        message_bytes m.msgid m.values ++ drop (8 + length (payload_of m.values)) b.data',
        length (message_bytes m.msgid m.values),
      )
encode_sized m b s a w r =
    ap (Codec.encode m b.data') (sym s)
    ∙ encode_lem m b.data' a w
    ∙ rw
        (
          le→ltb (length b.data') (8 + length (payload_of m.values)) (omega arith),
          length-message_bytes,
        )
        refl

serial_sized :
    (h : Heap) (b : Buffer) (payload : List ℕ)
    → IsSized b
    → 2 * length payload + 4 < 2 ^ 64
    → 0 < b.maxsize
    → compute_payload_size payload ≤ b.maxsize
    → Encoder.encode h payload (some b.data') b.maxsize ≡ (
      ok (frame_of payload ++ drop (length (frame_of payload)) b.data', length (frame_of payload)),
      h,
    )
serial_sized h b payload s w pos r =
    ap (Encoder.encode h payload (some b.data')) (sym s)
    ∙ encode_into h payload b.data' w
    ∙ rw
        (
          ne→== (length b.data') 0 (λ z. absurd (omega arith)),
          le→ltb (length b.data') (compute_payload_size payload) (omega arith),
        )
        refl

send_message-eq-written_out :
    (h : Heap) (ctx : Context) (msg : Message) (write : List ℕ → Result ℕ)
    (msg_tx serial_tx : Buffer)
    → ctx.opened ≡ true
    → ctx.msg_tx ≡ some msg_tx
    → ctx.serial_tx ≡ some serial_tx
    → IsSized msg_tx
    → IsSized serial_tx
    → All IsSendable msg.values
    → length (payload_of msg.values) < 2 ^ 32
    → 8 + length (payload_of msg.values) ≤ msg_tx.maxsize
    → 0 < serial_tx.maxsize
    → compute_payload_size (message_bytes msg.msgid msg.values) ≤ serial_tx.maxsize
    → send_message h ctx msg write
      ≡ written_out
          (write (frame_of (message_bytes msg.msgid msg.values)))
          (frame_of (message_bytes msg.msgid msg.values))
          h
unfolding send_message send_sized send_in send_static send_payload serial_buffer send_frame
    release_frame
send_message-eq-written_out h ctx msg write b sb o eb es s ss a w r pos rs =
    let n = length-message_bytes msg.msgid msg.values in
    let payload = message_bytes msg.msgid msg.values in
    let frame = frame_of payload in
    rw
      (
        o,
        get_encoded_size_lem msg a (omega arith),
        eb,
        le→ltb b.maxsize (8 + length (payload_of msg.values)) r,
        encode_sized msg b s a w r,
        take-append payload (drop (8 + length (payload_of msg.values)) b.data'),
        es,
        serial_sized h sb payload ss (omega arith) pos rs,
        take-append frame (drop (length frame) sb.data'),
      )
      refl

-- An open context with buffers of its own that are large enough hands exactly the frame of the
-- encoded message to the device, once, for a message with values that can be sent and a payload
-- below 2 ^ 32. It returns 0 if the device took all of it, `io` if it took another number of bytes,
-- or else the device's error, and allocates and frees nothing.
pub send_message_lem :
    (h : Heap) (ctx : Context) (msg : Message) (write : List ℕ → Result ℕ)
    (msg_tx serial_tx : Buffer)
    → ctx.opened ≡ true
    → ctx.msg_tx ≡ some msg_tx
    → ctx.serial_tx ≡ some serial_tx
    → IsSized msg_tx
    → IsSized serial_tx
    → All IsSendable msg.values
    → length (payload_of msg.values) < 2 ^ 32
    → 8 + length (payload_of msg.values) ≤ msg_tx.maxsize
    → 0 < serial_tx.maxsize
    → compute_payload_size (message_bytes msg.msgid msg.values) ≤ serial_tx.maxsize
    → let sent = send_message h ctx msg write in
      let frame = frame_of (message_bytes msg.msgid msg.values) in
      (sent.written ≡ some frame) × (sent.heap ≡ h) × Returns (length frame) (write frame) sent.ret
send_message_lem h ctx msg write b sb o eb es s ss a w r pos rs =
    let frame = frame_of (message_bytes msg.msgid msg.values) in
    let (written, same) = written_out-written (write frame) frame h in
    let whole = send_message-eq-written_out h ctx msg write b sb o eb es s ss a w r pos rs in
    (
      ap (λ t. t.written) whole ∙ written,
      ap (λ t. t.heap) whole ∙ same,
      subst (λ t. Returns (length frame) (write frame) t.ret) (sym whole)
          (written_out-Returns (write frame) frame h),
    )

send_frame-heap :
    (write : List ℕ → Result ℕ) (r : Result (List ℕ × ℕ)) (h : Heap)
    → (send_frame write (r, h)).heap ≡ h
unfolding send_frame written_out
send_frame-heap write (ok (buf, n)) h = of_device (write (take n buf))
  where
    of_device : (w : Result ℕ) → (written_out w (take n buf) h).heap ≡ h
    of_device (ok k) = refl
    of_device (err e) = refl
    of_device fault = refl
send_frame-heap write (err e) h = refl
send_frame-heap write fault h = refl

-- A frame that the encoder allocated is one more block, and it is freed.
encoded-live :
    (h : Heap) (ctx : Context) (payload : List ℕ)
    → (let (r, h1) = Encoder.encode h payload (serial_buffer ctx).0 (serial_buffer ctx).1 in
        (release_frame ctx r h1).live ≡ h.live)
unfolding Encoder.encode alloc free release_frame serial_buffer
encoded-live h ctx payload = elim (Option-cases ctx.serial_tx) [
  | inl e ↦ elim (Bool-cases (h.grant h.calls (compute_payload_size payload))) [
    | inl g ↦ rw (e, g) (omega arith)
    | inr g ↦ rw (e, g) refl
  ]
  | inr (b, e) ↦ elim (Bool-cases (b.maxsize == 0)) [
    | inl z ↦ rw (e, z) refl
    | inr z ↦ elim (Bool-cases (ltb b.maxsize (compute_payload_size payload))) [
      | inl k ↦ rw (e, z, k) refl
      | inr k ↦ rw (e, z, k) refl
    ]
  ]
]

send_payload-live :
    (ctx : Context) (write : List ℕ → Result ℕ) (r : Result (List ℕ × ℕ)) (h : Heap)
    → (send_payload ctx write r h).heap.live ≡ h.live
unfolding send_payload
send_payload-live ctx write (ok (buf, n)) h =
    let (r, h1) = Encoder.encode h (take n buf) (serial_buffer ctx).0 (serial_buffer ctx).1 in
    ap (λ t. (release_frame ctx r t).live) (send_frame-heap write r h1)
    ∙ encoded-live h ctx (take n buf)
send_payload-live ctx write (err e) h = refl
send_payload-live ctx write fault h = refl

send_allocated-live :
    (ctx : Context) (msg : Message) (write : List ℕ → Result ℕ) (h : Heap) (size : ℕ)
    → (send_allocated ctx msg write (new_allocate h size)).heap.live ≡ h.live
unfolding send_allocated new_allocate free_buffer free_default alloc free
send_allocated-live ctx msg write h size = elim (Bool-cases (h.grant h.calls sizeof_buffer)) [
  | inr e ↦ rw e refl
  | inl e ↦ elim (Bool-cases (h.grant (h.calls + 1) size)) [
    | inr k ↦ rw (e, k) (omega arith)
    | inl k ↦
        rw (e, k)
          (omega (
            arith,
            send_payload-live ctx write (Codec.encode msg (replicate size 0) size)
                (record h { calls = h.calls + 1 + 1; live = h.live + 1 + 1 }),
          ))
  ]
]

if-live :
    (b : Bool) (s s' : Sent) (n : ℕ)
    → s.heap.live ≡ n
    → s'.heap.live ≡ n
    → (if b then s else s').heap.live ≡ n
if-live true s s' n e f = e
if-live false s s' n e f = f

send_in-live :
    (ctx : Context) (msg : Message) (write : List ℕ → Result ℕ) (size : ℕ) (o : Option Buffer)
    (h : Heap)
    → (send_in ctx msg write size o h).heap.live ≡ h.live
unfolding send_in send_static
send_in-live ctx msg write size none h = send_allocated-live ctx msg write h size
send_in-live ctx msg write size (some b) h =
    if-live (ltb b.maxsize size) (failed overflow h)
      (send_payload ctx write (Codec.encode msg b.data' b.maxsize) h) h.live refl
      (send_payload-live ctx write (Codec.encode msg b.data' b.maxsize) h)

send_sized-live :
    (ctx : Context) (msg : Message) (write : List ℕ → Result ℕ) (r : Result ℕ) (h : Heap)
    → (send_sized ctx msg write r h).heap.live ≡ h.live
unfolding send_sized
send_sized-live ctx msg write (err e) h = refl
send_sized-live ctx msg write fault h = refl
send_sized-live ctx msg write (ok size) h = send_in-live ctx msg write size ctx.msg_tx h

-- Whatever the message, the buffers, the allocator and the device, a call of
-- `smp_context_send_message` leaves as many blocks allocated as it found.
pub send_message-live :
    (h : Heap) (ctx : Context) (msg : Message) (write : List ℕ → Result ℕ)
    → (send_message h ctx msg write).heap.live ≡ h.live
unfolding send_message
send_message-live h ctx msg write =
    if-live ctx.opened (send_sized ctx msg write (get_encoded_size msg) h) (failed bad_fd h) h.live
      (send_sized-live ctx msg write (get_encoded_size msg) h) refl
