-- ===== src/Serial/Safety.antt =====
-- What the decoder accepts, and how it ends on errors.
use libsmp.Base.{
  ℕ, suc, ◌+◌, ◌-◌, ◌≤◌, ◌≡◌, refl, sym, ap, ◌∙◌, arith, ◌≢◌, List, [], ◌∷◌, ◌++◌, length, take,
  get_or, take-suc, length-take, subst, none, some, length-append, le→ltb, bit_xor, ne→==,
}
use mathlib.Core.Path.{ap₂}
use libsmp.Base.Bits.{bit_xor_cancel_right, bit_xor_cancel_left}
use libsmp.Errors.{Result, ok, err, fault, bad_message}
use libsmp.Heap.{Heap}
use libsmp.Serial.Frame.{start_byte, end_byte, checksum_from, compute_checksum}
use libsmp.Serial.Decoder.{
  State, wait_header, in_frame, in_frame_esc, Decoder, Output, process_byte_inframe, process_state,
  process_byte, end_frame, put_byte, Step, reset_on_error, of_put, leave_esc, run,
}
use libsmp.Serial.Storage.{Within, IsValid}
use libsmp.Serial.Reading.{Reading, process_at}
use libsmp.Serial.RoundTrip.{split_last}
use libsmp.Serial.Invariant.{run-IsValid}
use libsmp.Serial.History.{Unescapes, Tracks, run-Tracks}

checksum_from_cancel : (ys : List ℕ) (s t : ℕ) → checksum_from s ys ≡ checksum_from t ys → s ≡ t
unfolding checksum_from
checksum_from_cancel [] s t e = e
checksum_from_cancel (y ∷ ys) s t e =
    bit_xor_cancel_right s t y (checksum_from_cancel ys (bit_xor s y) (bit_xor t y) e)

checksum_from_change :
    (xs ys : List ℕ) (s b c : ℕ)
    → checksum_from s (xs ++ (b ∷ ys)) ≡ checksum_from s (xs ++ (c ∷ ys))
    → b ≡ c
unfolding checksum_from
checksum_from_change [] ys s b c e =
    bit_xor_cancel_left s b c (checksum_from_cancel ys (bit_xor s b) (bit_xor s c) e)
checksum_from_change (x ∷ xs) ys s b c e = checksum_from_change xs ys (bit_xor s x) b c e

-- Two payloads that differ in exactly one byte have different checksums.
pub compute_checksum_change :
    (xs ys : List ℕ) (b c : ℕ)
    → b ≢ c
    → compute_checksum (xs ++ (b ∷ ys)) ≢ compute_checksum (xs ++ (c ∷ ys))
unfolding compute_checksum
compute_checksum_change xs ys b c ne e = ne (checksum_from_change xs ys 0 b c e)

-- A decoder that has read, in a frame, bytes and behind them one that is not their checksum,
-- answers `bad_message` to the end of the frame, delivers nothing and waits for the next frame.
pub wrong_checksum :
    (h : Heap) (d : Decoder) (xs : List ℕ) (c : ℕ)
    → Reading d (xs ++ (c ∷ []))
    → compute_checksum xs ≢ c
    → process_byte h d end_byte ≡ (
      record { ret = err bad_message; frame = none; framesize = length xs },
      h,
      record d { state = wait_header },
    )
unfolding process_state process_byte_inframe end_frame
wrong_checksum h d xs c r ne =
    let n : d.offset ≡ length xs + 1 = omega (arith, r.count, length-append {0} xs (c ∷ [])) in
    let index : d.offset - 1 ≡ length xs = omega arith in
    let (body, last) = split_last d.buf xs c d.offset r.bytes in
    process_at h d end_byte r.state
    ∙ rw (le→ltb d.offset 1 (omega arith), index, body, last, ne→== _ _ ne)

-- A decoder that has read, in a frame, a payload in which exactly one byte was changed on the line,
-- `b` to `c`, and the checksum as it was sent, answers `bad_message` to the end of the frame,
-- delivers nothing and waits for the next frame.
pub corrupted_byte :
    (h : Heap) (d : Decoder) (xs ys : List ℕ) (b c : ℕ)
    → b ≢ c
    → Reading d ((xs ++ (c ∷ ys)) ++ (compute_checksum (xs ++ (b ∷ ys)) ∷ []))
    → process_byte h d end_byte ≡ (
      record { ret = err bad_message; frame = none; framesize = length (xs ++ (c ∷ ys)) },
      h,
      record d { state = wait_header },
    )
corrupted_byte h d xs ys b c ne r =
    wrong_checksum h d (xs ++ (c ∷ ys)) _ r (compute_checksum_change xs ys c b (λ e. ne (sym e)))

-- What the step that delivers a frame rests on.
record Ending (d : Decoder) (byte : ℕ) (out : Output) (d' : Decoder) (p : List ℕ) : Type 0 where
  pub was_in_frame : d.state ≡ in_frame
  pub ended : byte ≡ end_byte
  pub received : take d.offset d.buf ≡ p ++ (compute_checksum p ∷ [])
  pub size : out.framesize ≡ length p
  pub accepted : out.ret ≡ ok tt
  pub waits : d'.state ≡ wait_header

end_frame_delivers :
    (d : Decoder) {p : List ℕ}
    → (end_frame d).0.frame ≡ some p
    → (1 ≤ d.offset)
      × (take (d.offset - 1) d.buf ≡ p)
      × (get_or d.buf (d.offset - 1) 0 ≡ compute_checksum p)
      × ((end_frame d).0.framesize ≡ d.offset - 1)
      × ((end_frame d).0.ret ≡ ok tt)
      × ((end_frame d).1.state ≡ wait_header)
unfolding end_frame
end_frame_delivers d e = ground arith

end_frame-Ending :
    (d : Decoder) {p : List ℕ}
    → IsValid d
    → d.state ≡ in_frame
    → (end_frame d).0.frame ≡ some p
    → Ending d end_byte (end_frame d).0 (end_frame d).1 p
end_frame-Ending d {p} v s e =
    let (some_byte, body, last, size, fine, waits) = end_frame_delivers d e in
    let w : d.offset ≤ d.bufsize = subst (λ t. Within t d.offset d.bufsize) s v.within in
    let index : suc (d.offset - 1) ≡ d.offset = omega arith in
    record {
      was_in_frame = s;
      ended = refl;
      received =
          ap (λ k. take k d.buf) (sym index)
          ∙ take-suc d.buf (d.offset - 1) 0 (omega (arith, v.storage))
          ∙ ap₂ (λ t c. t ++ (c ∷ [])) body last;
      size = size ∙ omega (arith, v.storage, ap length body, length-take {0} (d.offset - 1) d.buf);
      accepted = fine;
      waits = waits;
    }

pub reset_frame : (byte : ℕ) (s : Step) → (reset_on_error byte s).0 ≡ s.0
reset_frame byte (out, h, d) = ground arith

pub reset_ok : (byte : ℕ) (s : Step) → s.0.ret ≡ ok tt → reset_on_error byte s ≡ s
reset_ok byte (out, h, d) e = ground arith

of_put_frame : (r : Result (Unit {0}) × Heap × Decoder) → (of_put r).0.frame ≡ none
of_put_frame (r, h, d) = refl

leave_esc_frame : (r : Result (Unit {0}) × Heap × Decoder) → (leave_esc r).0.frame ≡ none
leave_esc_frame (ok _, h, d) = refl
leave_esc_frame (err e, h, d) = refl
leave_esc_frame (fault, h, d) = refl

ending : Heap → Decoder → Step
ending h d = ((end_frame d).0, h, (end_frame d).1)

inframe_ending :
    (h : Heap) (d : Decoder) (byte : ℕ) {p : List ℕ}
    → (process_byte_inframe h d byte).0.frame ≡ some p
    → (byte ≡ end_byte) × (process_byte_inframe h d byte ≡ ending h d)
unfolding process_byte_inframe ending
inframe_ending h d byte e = ground (arith, of_put_frame (put_byte h d byte))

state_ending :
    (s : State) (h : Heap) (d : Decoder) (byte : ℕ) {p : List ℕ}
    → (process_state s h d byte).0.frame ≡ some p
    → (s ≡ in_frame) × (byte ≡ end_byte) × (process_state s h d byte ≡ ending h d)
unfolding process_state
state_ending wait_header h d byte e = ground arith
state_ending in_frame h d byte e = let r = inframe_ending h d byte e in (refl, r.0, r.1)
state_ending in_frame_esc h d byte e = cc (e, leave_esc_frame (put_byte h d byte))

process_byte-Ending :
    (h : Heap) (d : Decoder) (byte : ℕ) {p : List ℕ}
    → IsValid d
    → (process_byte h d byte).0.frame ≡ some p
    → Ending d byte (process_byte h d byte).0 (process_byte h d byte).2 p
unfolding ending
process_byte-Ending h d byte {p} v e =
    rw whole (rw (in_end.1) (end_frame-Ending d v in_end.0 frame))
  where
    shown : (process_state d.state h d byte).0.frame ≡ some p
    shown = rw (process_at h d byte refl, reset_frame) at e

    in_end :
        (d.state ≡ in_frame) × (byte ≡ end_byte) × (process_state d.state h d byte ≡ ending h d)
    in_end = state_ending d.state h d byte shown

    frame : (end_frame d).0.frame ≡ some p
    frame = sym (ap (λ (s : Step). s.0.frame) in_end.2) ∙ shown

    whole : process_byte h d byte ≡ ending h d
    whole =
        process_at h d byte refl
        ∙ ap (reset_on_error byte) in_end.2
        ∙ reset_ok byte (ending h d) (end_frame_delivers d frame).4

-- What a delivery rests on: the line, up to the byte.
pub record Genuine (line : List ℕ) (byte : ℕ) (out : Output) (d' : Decoder) (p : List ℕ)
    : Type 0 where
  pub before : List ℕ
  pub raw : List ℕ
  pub begun : line ≡ before ++ (start_byte ∷ raw)
  pub received : Unescapes raw (p ++ (compute_checksum p ∷ []))
  pub ended : byte ≡ end_byte
  pub size : out.framesize ≡ length p
  pub accepted : out.ret ≡ ok tt
  pub waits : d'.state ≡ wait_header

-- From a valid decoder that waits for a frame, and whatever bytes it has received and whatever the
-- allocator answered: it delivers a payload only at an `END_BYTE`, and only if the bytes received since
-- a `START_BYTE`, with no reserved byte among them that is not escaped, are the payload followed by its
-- checksum when the escapes are taken out (and, behind an escape, each `START_BYTE` that was refused for
-- want of room). It then returns success and the size, and waits for the next frame.
pub delivery-Genuine :
    (line : List ℕ) (h : Heap) (d : Decoder) (byte : ℕ) {p : List ℕ}
    → IsValid d
    → d.state ≡ wait_header
    → (process_byte (run h d line).1 (run h d line).2 byte).0.frame ≡ some p
    → Genuine line byte
        (process_byte (run h d line).1 (run h d line).2 byte).0
        (process_byte (run h d line).1 (run h d line).2 byte).2
        p
delivery-Genuine line h d byte {p} v w e =
    let h' = (run h d line).1 in
    let d' = (run h d line).2 in
    let step = process_byte-Ending h' d' byte (run-IsValid line h d v) e in
    let (before, raw, begun, stands) =
      subst (Tracks line d') step.was_in_frame
        (run-Tracks line [] h d v (subst (Tracks [] d) (sym w) tt)) in
    record {
      before = before;
      raw = raw;
      begun = begun;
      received = subst (Unescapes raw) step.received stands;
      ended = step.ended;
      size = step.size;
      accepted = step.accepted;
      waits = step.waits;
    }
