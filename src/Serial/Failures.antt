-- ===== src/Serial/Failures.antt =====
-- How the decoder ends on errors.
use libsmp.Base.{
  ℕ, ◌≡◌, ◌≢◌, refl, ap, ◌∙◌, arith, false, inl, inr, ◌==◌, Bool-cases, subst, ==_sound, ==→ne,
}
use libsmp.Errors.{Error, err, bad_message}
use libsmp.Heap.{Heap}
use libsmp.Serial.Frame.{start_byte}
use libsmp.Serial.Decoder.{
  State, wait_header, in_frame, in_frame_esc, Decoder, returns, process_byte_inframe, process_state,
  process_byte, put_byte, Step, reset_on_error, leave_esc,
}
use libsmp.Serial.Storage.{Within, IsValid, put_byte_cases}
use libsmp.Serial.Reading.{process_at}
use libsmp.Serial.Safety.{reset_frame}

-- The three ways in which a byte can give an error.
pub data ErrorCase (h : Heap) (d : Decoder) (byte : ℕ) : Type 0 where
  -- the frame is given up
  given_up : byte ≢ start_byte → (process_byte h d byte).2.state ≡ wait_header → ErrorCase h d byte
  -- a new frame begins inside an unfinished one
  restarted :
      byte ≡ start_byte
      → d.state ≡ in_frame
      → process_byte h d byte ≡ (returns (err bad_message), h, record d { offset = 0 })
      → ErrorCase h d byte
  -- an escaped `START_BYTE` finds no room: nothing changes, and the decoder stays in the escape
  stuck :
      byte ≡ start_byte
      → d.state ≡ in_frame_esc
      → (process_byte h d byte).2 ≡ d
      → ErrorCase h d byte

reset_waits :
    (byte : ℕ) (s : Step) {e : Error}
    → (byte == start_byte) ≡ false
    → s.0.ret ≡ err e
    → (reset_on_error byte s).2.state ≡ wait_header
reset_waits byte (out, h, d) n x = ground arith

reset_start : (s : Step) → (reset_on_error start_byte s).2 ≡ s.2
reset_start (out, h, d) = ground arith

leave_esc_ok :
    (h : Heap) (d : Decoder) (byte : ℕ) {e : Error}
    → IsValid d
    → d.state ≡ in_frame_esc
    → (leave_esc (put_byte h d byte)).0.ret ≡ err e
    → (leave_esc (put_byte h d byte)).2 ≡ d
leave_esc_ok h d byte v s x =
    elim (put_byte_cases h d byte v (subst (λ t. Within t d.offset d.bufsize) s v.within)) [
      | inl (h', r, e, y) ↦ cc (ap (λ p. (leave_esc p).0.ret) e)
      | inr (h', k, e) ↦ rw e
    ]

at_start :
    (h : Heap) (d : Decoder) {e : Error}
    → IsValid d
    → (s : State) → d.state ≡ s
    → (process_state s h d start_byte).0.ret ≡ err e
    → ErrorCase h d start_byte
unfolding process_state process_byte_inframe
at_start h d v wait_header q x = cc
at_start h d v in_frame q x = restarted refl q (process_at h d start_byte q)
at_start h d v in_frame_esc q x = stuck refl q (
    ap (λ (s : Step). s.2) (process_at h d start_byte q)
    ∙ reset_start _
    ∙ leave_esc_ok h d start_byte v q x)

-- After a byte to which a valid decoder answers an error, it waits for the next frame, or has begun
-- it at this byte; the only exception is an escaped `START_BYTE` that finds no room, where the
-- decoder is as it was, still in the escape.
pub error-ErrorCase :
    (h : Heap) (d : Decoder) (byte : ℕ) {e : Error}
    → IsValid d
    → (process_byte h d byte).0.ret ≡ err e
    → ErrorCase h d byte
unfolding process_byte
error-ErrorCase h d byte {e} v x = elim (Bool-cases (byte == start_byte)) [
  | inr n ↦ given_up (==→ne _ _ n) (reset_waits byte _ n (rw reset_frame at x))
  | inl b ↦ rw (==_sound _ _ b) (
      at_start h d v d.state refl (
        subst (λ c. (process_state d.state h d c).0.ret ≡ err e) (==_sound _ _ b)
          (rw reset_frame at x)))
]
