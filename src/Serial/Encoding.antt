-- ===== src/Serial/Encoding.antt =====
-- What `smp_serial_protocol_encode` writes, and how much room it needs.
use libsmp.Base.{
  ℕ, ◌+◌, ◌*◌, ◌^◌, ◌≤◌, ◌<◌, ◌≡◌, refl, ap, ◌∙◌, arith, inl, inr, List, [], ◌∷◌, ◌++◌, length,
  drop, ◌==◌, ltb, Bool-cases, if◌then◌else◌, none, some, length-append, append_assoc, ltb→le,
}
use libsmp.Base.Memory.{write, write-write, write-append}
use libsmp.Errors.{ok, err, invalid_param, overflow, no_mem}
use libsmp.Heap.{Heap, alloc, block_from, length-block_from}
use libsmp.Serial.Frame.{
  start_byte, end_byte, add_size, is_magic_byte, count_magic, compute_payload_size,
  compute_checksum, escape_byte, escape, frame_of,
}
use libsmp.Serial.Encoder.{write_byte, write_payload, write_frame, encode}

-- The stores of the C code are a write of the escaped bytes.
write_byte-eq-write :
    (dest : List ℕ) (o b : ℕ)
    → write_byte dest o b ≡ (write dest o (escape_byte b), length (escape_byte b))
unfolding write_byte escape_byte write
write_byte-eq-write dest o b = ground arith

pair_path : {b c : List ℕ} {m n : ℕ} → b ≡ c → m ≡ n → ◌≡◌ {A = List ℕ × ℕ} (b, m) (c, n)
pair_path p q = λ i. (p i, q i)

-- Bytes written at the offset, which moves on.
abbrev extend : List ℕ × ℕ → List ℕ → List ℕ × ℕ
extend (buf, o) bs = (write buf o bs, o + length bs)

extend-extend :
    (buf : List ℕ) (o : ℕ) (bs cs : List ℕ)
    → extend (extend (buf, o) bs) cs ≡ extend (buf, o) (bs ++ cs)
extend-extend buf o bs cs =
    pair_path (write-write buf o bs cs) (omega (arith, length-append {0} bs cs))

write_payload-eq-write :
    (buf : List ℕ) (o : ℕ) (bs : List ℕ) → write_payload buf o bs ≡ extend (buf, o) (escape bs)
unfolding write_payload escape write
write_payload-eq-write buf o [] = pair_path refl (omega arith)
write_payload-eq-write buf o (b ∷ bs) =
    ap (λ (w : List ℕ × ℕ). write_payload w.0 (o + w.1) bs) (write_byte-eq-write buf o b)
    ∙ write_payload-eq-write (write buf o (escape_byte b)) (o + length (escape_byte b)) bs
    ∙ extend-extend buf o (escape_byte b) (escape bs)

-- All the stores of the encoder together are one write of the frame.
write_frame-eq-write :
    (txbuf inbuf : List ℕ)
    → write_frame txbuf inbuf ≡ (write txbuf 0 (frame_of inbuf), length (frame_of inbuf))
unfolding write_frame frame_of write
write_frame-eq-write txbuf inbuf =
    rw (write_payload-eq-write, write_byte-eq-write)
      (ap (λ (s : List ℕ × ℕ). extend (extend s sum) last) (extend-extend txbuf 0 first body)
        ∙ ap (λ (s : List ℕ × ℕ). extend s last) (extend-extend txbuf 0 (first ++ body) sum)
        ∙ extend-extend txbuf 0 ((first ++ body) ++ sum) last
        ∙ ap (extend (txbuf, 0)) (append_assoc (first ++ body) sum last)
        ∙ pair_path refl (omega arith))
  where
    first : List ℕ
    first = start_byte ∷ []

    body : List ℕ
    body = escape inbuf

    sum : List ℕ
    sum = escape_byte (compute_checksum inbuf)

    last : List ℕ
    last = end_byte ∷ []

-- How many bytes of a payload are reserved.
unfoldable pub reserved : List ℕ → ℕ
reserved [] = 0
reserved (b ∷ bs) = (if is_magic_byte b then 1 else 0) + reserved bs

reserved-le : (bs : List ℕ) → reserved bs ≤ length bs
unfolding reserved
reserved-le [] = omega arith
reserved-le (b ∷ bs) = ground (arith, reserved-le bs)

length-escape_byte : (b : ℕ) → length (escape_byte b) ≡ (if is_magic_byte b then 2 else 1)
unfolding escape_byte
length-escape_byte b = ground arith

length-escape : (bs : List ℕ) → length (escape bs) ≡ length bs + reserved bs
unfolding escape reserved
length-escape [] = omega arith
length-escape (b ∷ bs) =
    ground
      (arith, length-append {0} (escape_byte b) (escape bs), length-escape_byte b, length-escape bs)

count_magic-eq-reserved :
    (bs : List ℕ) (ret : ℕ) → ret + length bs < 2 ^ 64 → count_magic ret bs ≡ ret + reserved bs
unfolding count_magic reserved
count_magic-eq-reserved [] ret h = omega arith
count_magic-eq-reserved (b ∷ bs) ret h = elim (Bool-cases (is_magic_byte b)) [
  | inl m ↦ rw m (omega (arith, count_magic-eq-reserved bs (add_size ret 1) (omega arith)))
  | inr m ↦ rw m (omega (arith, count_magic-eq-reserved bs ret (omega arith)))
]

-- The size that the encoder asks for is the exact size of the frame, or one byte more: the byte in
-- reserve is for a checksum that has to be escaped. No payload in memory is so long that it wraps.
pub compute_payload_size_lem :
    (inbuf : List ℕ)
    → 2 * length inbuf + 4 < 2 ^ 64
    → compute_payload_size inbuf + length (escape_byte (compute_checksum inbuf))
      ≡ length (frame_of inbuf) + 2
unfolding compute_payload_size frame_of
compute_payload_size_lem inbuf h = ground (
  arith,
  count_magic-eq-reserved inbuf (add_size (length inbuf) 4) (omega arith),
  length-escape inbuf,
  length-append {0} (escape inbuf) (escape_byte (compute_checksum inbuf) ++ (end_byte ∷ [])),
  length-append {0} (escape_byte (compute_checksum inbuf)) (end_byte ∷ []),
)

pub frame-le-payload_size :
    (inbuf : List ℕ)
    → 2 * length inbuf + 4 < 2 ^ 64
    → length (frame_of inbuf) ≤ compute_payload_size inbuf
frame-le-payload_size inbuf h =
    ground (arith, compute_payload_size_lem inbuf h, length-escape_byte (compute_checksum inbuf))

-- The frame is at most twice the payload and four bytes.
pub length-frame_of_le : (inbuf : List ℕ) → length (frame_of inbuf) ≤ 2 * length inbuf + 4
unfolding frame_of
length-frame_of_le inbuf = ground (
  arith,
  length-escape inbuf,
  reserved-le inbuf,
  length-escape_byte (compute_checksum inbuf),
  length-append {0} (escape inbuf) (escape_byte (compute_checksum inbuf) ++ (end_byte ∷ [])),
  length-append {0} (escape_byte (compute_checksum inbuf)) (end_byte ∷ []),
)

-- In a buffer that is large enough the encoder leaves the frame and then what was there before.
write_frame_lem :
    (txbuf inbuf : List ℕ)
    → length (frame_of inbuf) ≤ length txbuf
    → write_frame txbuf inbuf
      ≡ (frame_of inbuf ++ drop (length (frame_of inbuf)) txbuf, length (frame_of inbuf))
write_frame_lem txbuf inbuf h =
    write_frame-eq-write txbuf inbuf ∙ pair_path (write-append [] (frame_of inbuf) txbuf h) refl

-- Into a buffer of the caller, of `outsize` bytes as it says, for a payload whose frame cannot
-- exceed the address space: the encoder refuses an empty buffer, and one that is smaller than the
-- computed size; otherwise it writes the frame at the front, changes nothing behind it, and returns
-- the length of the frame.
pub encode_into :
    (h : Heap) (inbuf outbuf : List ℕ)
    → 2 * length inbuf + 4 < 2 ^ 64
    → encode h inbuf (some outbuf) (length outbuf) ≡ (
      if length outbuf == 0
          then err invalid_param
          else if ltb (length outbuf) (compute_payload_size inbuf)
          then err overflow
          else ok
              (frame_of inbuf ++ drop (length (frame_of inbuf)) outbuf, length (frame_of inbuf)),
      h,
    )
unfolding encode
encode_into h inbuf outbuf w = elim (Bool-cases (length outbuf == 0)) [
  | inl e ↦ rw e
  | inr e ↦ elim (Bool-cases (ltb (length outbuf) (compute_payload_size inbuf))) [
    | inl s ↦ rw (e, s)
    | inr s ↦
        rw (e, s)
          (ap (λ r. (ok r, h))
            (write_frame_lem outbuf inbuf
              (omega (arith, frame-le-payload_size inbuf w, ltb→le _ _ s))))
  ]
]

-- The block that the encoder allocates holds the frame.
pub fresh_block : (h : Heap) (inbuf : List ℕ) → List ℕ
fresh_block h inbuf =
    drop (length (frame_of inbuf)) (block_from h.junk 0 (compute_payload_size inbuf))

-- With no buffer, and a payload whose frame cannot exceed the address space, the encoder asks for a
-- block of the computed size: it answers `no_mem` if that is refused, and otherwise the block
-- begins with the frame, whose length is returned.
pub encode_alloc :
    (h : Heap) (inbuf : List ℕ) (outsize : ℕ)
    → 2 * length inbuf + 4 < 2 ^ 64
    → (encode h inbuf none outsize).0 ≡ (
        if h.grant h.calls (compute_payload_size inbuf)
        then ok (frame_of inbuf ++ fresh_block h inbuf, length (frame_of inbuf))
        else err no_mem)
unfolding encode alloc fresh_block
encode_alloc h inbuf outsize w = elim (Bool-cases (h.grant h.calls (compute_payload_size inbuf))) [
  | inl g ↦ rw g (
      ap ok (
        write_frame_lem _ inbuf (
          omega (
            arith,
            frame-le-payload_size inbuf w,
            length-block_from h.junk 0 (compute_payload_size inbuf),
          ))))
  | inr g ↦ rw g
]
