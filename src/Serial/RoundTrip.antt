-- ===== src/Serial/RoundTrip.antt =====
-- The decoder reads back the frames of docs/protocols/serial-protocol.rst.
use libsmp.Base.{
  ℕ, ◌+◌, ◌-◌, ◌≡◌, ◌≢◌, refl, sym, ap, ◌∙◌, arith, List, [], ◌∷◌, ◌++◌, length, take, drop, get_or,
  replicate, length-append, append_assoc, ==_refl, take-append, take-append-drop, get_or-append,
  le→ltb,
}
use libsmp.Errors.{Result, ok, err, bad_message}
use libsmp.Heap.{Heap}
use libsmp.Serial.Frame.{start_byte, end_byte, compute_checksum, escape_byte, escape, frame_of}
use libsmp.Serial.Decoder.{
  State, wait_header, in_frame, in_frame_esc, Decoder, Output, returns, process_byte_inframe,
  process_state, process_byte, end_frame,
}
use libsmp.Serial.Storage.{IsValid}
use libsmp.Serial.Capacity.{CanHold, Keeps, Keeps-CanHold}
use libsmp.Serial.Reading.{
  silent, delivers, Reading, Runs, Runs-append, run_one, process_at, read_payload, read_byte,
  replicate-append, state-Keeps,
}

-- Where a buffer begins with `xs` and `c`, in its first `n` bytes.
pub split_last :
    (buf xs : List ℕ) (c n : ℕ)
    → take n buf ≡ xs ++ (c ∷ [])
    → (take (length xs) buf ≡ xs) × (get_or buf (length xs) 0 ≡ c)
split_last buf xs c n e =
    rw whole (take-append xs (c ∷ drop n buf), get_or-append xs (drop n buf) c 0)
  where
    whole : buf ≡ xs ++ (c ∷ drop n buf)
    whole =
        sym (take-append-drop n buf)
        ∙ ap (λ t. t ++ drop n buf) e
        ∙ append_assoc xs (c ∷ []) (drop n buf)

-- The end of a frame with a right checksum delivers the payload.
read_end :
    (h : Heap) (d : Decoder) (xs : List ℕ)
    → Reading d (xs ++ (compute_checksum xs ∷ []))
    → process_byte h d end_byte ≡ (delivers xs, h, record d { state = wait_header })
unfolding process_state process_byte_inframe end_frame
read_end h d xs r =
    let c = compute_checksum xs in
    let n : d.offset ≡ length xs + 1 = omega (arith, r.count, length-append {0} xs (c ∷ [])) in
    let index : d.offset - 1 ≡ length xs = omega arith in
    let (body, last) = split_last d.buf xs c d.offset r.bytes in
    process_at h d end_byte r.state
    ∙ rw (le→ltb d.offset 1 (omega arith), index, body, last, ==_refl)

-- What the first byte of a frame gives: it resynchronises a decoder that is in a frame.
unfoldable pub on_start : State → Result (Unit {0})
on_start wait_header = ok tt
on_start in_frame = err bad_message
on_start in_frame_esc = ok tt

read_start :
    (h : Heap) (d : Decoder)
    → IsValid d
    → d.state ≢ in_frame_esc
    → Runs h d (start_byte ∷ []) (returns (on_start d.state) ∷ []) (λ d'. Reading d' [])
unfolding process_state process_byte_inframe on_start
read_start h d v ne = by_state d.state refl
  where
    opened : Reading (record d { state = in_frame; offset = 0 }) []
    opened = record {
      valid = record { storage = v.storage; within = omega arith; word = v.word };
      state = refl;
      bytes = refl;
      count = refl;
    }

    kept : Keeps h d h (record d { state = in_frame; offset = 0 })
    kept = record {
      same_grant = refl;
      same_max = refl;
      same_static = refl;
      not_smaller = omega arith;
    }

    by_state :
        (s : State)
        → d.state ≡ s
        → Runs h d (start_byte ∷ []) (returns (on_start s) ∷ []) (λ d'. Reading d' [])
    by_state wait_header e = (
      h,
      record d { state = in_frame; offset = 0 },
      run_one h d _ (process_at h d _ e),
      opened,
      kept,
    )
    by_state in_frame e = (
      h,
      record d { state = in_frame; offset = 0 },
      run_one h d _ (
          process_at h d _ e
          ∙ ap (λ t. (returns (err bad_message), h, record d { state = t; offset = 0 })) e),
      opened,
      kept,
    )
    by_state in_frame_esc e = absurd (ne e)

-- What a frame of `payload` shows: nothing until the last byte, which delivers it.
abbrev pub outputs_of : State → List ℕ → List Output
outputs_of s payload =
    let body = escape payload ++ escape_byte (compute_checksum payload) in
    returns (on_start s) ∷ (replicate (length body) silent ++ (delivers payload ∷ []))

-- between frames
pub record IsIdle (d : Decoder) : Type 0 where
  pub valid : IsValid d
  pub state : d.state ≡ wait_header

-- On a frame, a valid decoder with room for the payload and its checksum that is not in the middle
-- of an escape gives no error (but `bad_message` at the first byte, if it was in an unfinished
-- frame), delivers exactly the payload at the last byte, and then waits for the next frame.
pub run-frame_of :
    (payload : List ℕ) (h : Heap) (d : Decoder)
    → IsValid d
    → d.state ≢ in_frame_esc
    → CanHold h d (length payload + 1)
    → Runs h d (frame_of payload) (outputs_of d.state payload) IsIdle
unfolding frame_of
run-frame_of payload h d v ne c =
    Runs-append (start_byte ∷ []) _ (returns (on_start d.state) ∷ []) _ (read_start h d v ne)
      λ h1 d1 r1 k1. rw (← append_assoc (escape payload) (escape_byte sum) (end_byte ∷ [])) (
        Runs-append (escape payload ++ escape_byte sum) (end_byte ∷ []) _ (delivers payload ∷ [])
          (rw replicate-append (
            Runs-append (escape payload) (escape_byte sum) _ _
              (read_payload payload h1 d1 [] (length payload + 1) r1 (omega arith)
                (Keeps-CanHold _ k1 c))
              λ h2 d2 r2 k2.
                read_byte h2 d2 payload (length payload + 1) sum r2 (omega arith)
                  (Keeps-CanHold _ k2 (Keeps-CanHold _ k1 c))))
          λ h3 d3 r3 k3. finish h3 d3 r3)
  where
    sum : ℕ
    sum = compute_checksum payload

    finish :
        (h3 : Heap) (d3 : Decoder)
        → Reading d3 (payload ++ (sum ∷ []))
        → Runs h3 d3 (end_byte ∷ []) (delivers payload ∷ []) IsIdle
    finish h3 d3 r = (
      h3,
      record d3 { state = wait_header },
      run_one h3 d3 end_byte (read_end h3 d3 payload r),
      record {
        valid = record { storage = r.valid.storage; within = tt; word = r.valid.word };
        state = refl;
      },
      state-Keeps h3 d3 wait_header,
    )
