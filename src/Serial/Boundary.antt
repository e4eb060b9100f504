-- ===== src/Serial/Boundary.antt =====
-- A decoder in the caller's storage on single bytes, whatever its state.
use libsmp.Base.{
  ℕ, ◌≤◌, ◌<◌, ◌≡◌, ◌≢◌, ◌⊎◌, inl, inr, refl, arith, true, false, ◌==◌, Bool-cases, leb, ltb,
  lt→leb, le→leb, leb→le, leb→lt, not, ◌&&◌,
}
use libsmp.Errors.{Error, ok, err, too_big, overflow}
use libsmp.Heap.{Heap}
use libsmp.Serial.Frame.{start_byte, end_byte, esc_byte, default_buffer_size, add_size}
use libsmp.Serial.Decoder.{
  State, wait_header, in_frame, in_frame_esc, Decoder, store, put_byte, set_capacity, process_byte,
  process_byte_inframe, process_state, reset_on_error, of_put, end_frame, Step, is_ok,
}
use libsmp.Serial.Invariant.{end_frame_state}
use libsmp.Serial.Reading.{process_at}

-- The decoder `d` has a buffer of its caller of `n` bytes, and is not in an escape that is going to
-- take a byte: if it is in an escape, the buffer is full.
pub record Boundary (n : ℕ) (d : Decoder) : Type 0 where
  pub static : d.statically_allocated ≡ true
  pub size : d.bufsize ≡ n
  pub place :
      (d.state ≡ wait_header) ⊎ (d.state ≡ in_frame) ⊎ ((d.state ≡ in_frame_esc) × (n ≤ d.offset))

pub record Caller (n : ℕ) (d : Decoder) : Type 0 where
  pub static : d.statically_allocated ≡ true
  pub size : d.bufsize ≡ n

put_full :
    (h : Heap) (d : Decoder) (b n : ℕ)
    → Caller n d
    → n ≤ d.offset
    → (e : Error) × (put_byte h d b ≡ (err e, h, d))
unfolding put_byte set_capacity
put_full h d b n c full =
    elim (Bool-cases (ltb (add_size d.bufsize default_buffer_size) d.bufsize)) [
      | inl w ↦ (overflow, rw (le→leb d.bufsize d.offset (omega (arith, c.size)), w))
      | inr w ↦ (too_big, rw (le→leb d.bufsize d.offset (omega (arith, c.size)), w, c.static))
    ]

put_room :
    (h : Heap) (d : Decoder) (b n : ℕ)
    → Caller n d
    → d.offset < n
    → put_byte h d b ≡ (ok tt, h, store d b)
unfolding put_byte
put_room h d b n c room = rw (lt→leb d.bufsize d.offset (omega (arith, c.size)))

reset-Boundary : (b n : ℕ) (s : Step) → Boundary n s.2 → Boundary n (reset_on_error b s).2
reset-Boundary b n (out, h, d) v =
    elim (Bool-cases (not (is_ok out.ret) && not (b == start_byte))) [
      | inl e ↦ rw e (record { static = v.static; size = v.size; place = inl refl })
      | inr e ↦ rw e v
    ]

-- What `process_byte` does in a known state, as far as the boundary goes.
by_state :
    {s : State} (h : Heap) (d : Decoder) (b n : ℕ)
    → d.state ≡ s
    → Boundary n (process_state s h d b).2
    → Boundary n (process_byte h d b).2
by_state h d b n e v = rw (process_at h d b e) (reset-Boundary b n _ v)

pub in_frame-Boundary : (n : ℕ) (d : Decoder) → Caller n d → d.state ≡ in_frame → Boundary n d
in_frame-Boundary n d c e = record { static = c.static; size = c.size; place = inr (inl e) }

byte_waiting :
    (h : Heap) (d : Decoder) (b n : ℕ)
    → Caller n d
    → d.state ≡ wait_header
    → Boundary n (process_state wait_header h d b).2
unfolding process_state
byte_waiting h d b n c s = elim (Bool-cases (b == start_byte)) [
  | inl e ↦ rw e (record { static = c.static; size = c.size; place = inr (inl refl) })
  | inr e ↦ rw e (record { static = c.static; size = c.size; place = inl s })
]

byte_escaped :
    (h : Heap) (d : Decoder) (b n : ℕ)
    → Caller n d
    → d.state ≡ in_frame_esc
    → Boundary n (process_state in_frame_esc h d b).2
unfolding process_state store
byte_escaped h d b n c s = elim (Bool-cases (leb n d.offset)) [
  | inl full ↦
      let (e, q) = put_full h d b n c (leb→le n d.offset full) in
      rw q
        (record { static = c.static; size = c.size; place = inr (inr (s, leb→le n d.offset full)) })
  | inr room ↦
      rw (put_room h d b n c (leb→lt n d.offset room))
        (record { static = c.static; size = c.size; place = inr (inl refl) })
]

byte_stored :
    (h : Heap) (d : Decoder) (b n : ℕ)
    → Caller n d
    → d.state ≡ in_frame
    → Boundary n (of_put (put_byte h d b)).2
unfolding store
byte_stored h d b n c s = elim (Bool-cases (leb n d.offset)) [
  | inl full ↦
      let (e, q) = put_full h d b n c (leb→le n d.offset full) in rw q (in_frame-Boundary n d c s)
  | inr room ↦
      rw (put_room h d b n c (leb→lt n d.offset room))
        (record { static = c.static; size = c.size; place = inr (inl s) })
]

byte_inframe :
    (h : Heap) (d : Decoder) (b n : ℕ)
    → Caller n d
    → d.state ≡ in_frame
    → (b == esc_byte) ≡ false
    → Boundary n (process_state in_frame h d b).2
unfolding process_state process_byte_inframe
byte_inframe h d b n c s x = elim (Bool-cases (b == start_byte)) [
  | inl e ↦ rw e (record { static = c.static; size = c.size; place = inr (inl s) })
  | inr e ↦ elim (Bool-cases (b == end_byte)) [
    | inl f ↦
        rw (e, x, f, end_frame_state d)
          (record { static = c.static; size = c.size; place = inl refl })
    | inr f ↦ rw (e, x, f) (byte_stored h d b n c s)
  ]
]

-- Any byte but an escape that begins in a frame.
pub byte_any :
    (h : Heap) (d : Decoder) (b n : ℕ)
    → Caller n d
    → (d.state ≡ in_frame → (b == esc_byte) ≡ false)
    → Boundary n (process_byte h d b).2
byte_any h d b n c x = go d.state refl
  where
    go : (s : State) → d.state ≡ s → Boundary n (process_byte h d b).2
    go wait_header e = by_state h d b n e (byte_waiting h d b n c e)
    go in_frame e = by_state h d b n e (byte_inframe h d b n c e (x e))
    go in_frame_esc e = by_state h d b n e (byte_escaped h d b n c e)

pub Boundary-Caller : {n : ℕ} {d : Decoder} → Boundary n d → Caller n d
Boundary-Caller v = record { static = v.static; size = v.size }

-- An escape is begun, or ignored, or ends an escape that finds no room.
pub after_esc :
    (h : Heap) (d : Decoder) (n : ℕ)
    → Boundary n d
    → Caller n (process_byte h d esc_byte).2 × ((process_byte h d esc_byte).2.state ≢ in_frame)
unfolding process_state process_byte_inframe
after_esc h d n v = elim v.place [
  | inl e ↦ rw (process_at h d esc_byte e) (Boundary-Caller v, λ f. cc (e, f))
  | inr (inl e) ↦
      rw (process_at h d esc_byte e) (record { static = v.static; size = v.size }, λ f. cc f)
  | inr (inr (e, full)) ↦
      let (x, q) = put_full h d esc_byte n (Boundary-Caller v) full in
      rw (process_at h d esc_byte e, q) (record { static = v.static; size = v.size }, λ f. cc f)
]

reset_waiting :
    (b n : ℕ) (s : Step)
    → Caller n s.2
    → s.2.state ≡ wait_header
    → Caller n (reset_on_error b s).2 × ((reset_on_error b s).2.state ≡ wait_header)
reset_waiting b n (out, h, d) c w =
    elim (Bool-cases (not (is_ok out.ret) && not (b == start_byte))) [
      | inl e ↦ rw e (record { static = c.static; size = c.size }, refl)
      | inr e ↦ rw e (c, w)
    ]

-- The end of a frame is one in any case.
pub after_end :
    (h : Heap) (d : Decoder) (n : ℕ)
    → Boundary n d
    → Caller n (process_byte h d end_byte).2 × ((process_byte h d end_byte).2.state ≡ wait_header)
unfolding process_state process_byte_inframe
after_end h d n v = elim v.place [
  | inl e ↦ rw (process_at h d end_byte e) (Boundary-Caller v, e)
  | inr (inl e) ↦
      let (c, w) =
        reset_waiting end_byte n ((end_frame d).0, h, (end_frame d).1)
          (rw end_frame_state (record { static = v.static; size = v.size }))
          (rw end_frame_state refl) in
      rw (process_at h d end_byte e) (c, w)
  | inr (inr (e, full)) ↦
      let (x, q) = put_full h d end_byte n (Boundary-Caller v) full in
      rw (process_at h d end_byte e, q) (record { static = v.static; size = v.size }, refl)
]
