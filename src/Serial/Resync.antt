-- ===== src/Serial/Resync.antt =====
-- A decoder in the caller's storage finds the frames again.
use libsmp.Base.{
  ℕ, ◌+◌, ◌≤◌, ◌≡◌, inl, inr, refl, arith, true, List, [], ◌∷◌, ◌++◌, length, All, All-mono, ◌==◌,
  Bool-cases, ==_sound,
}
use libsmp.Heap.{Heap}
use libsmp.Serial.Frame.{
  start_byte, end_byte, esc_byte, is_magic_byte, escape_byte, escape, frame_of, compute_checksum,
}
use libsmp.Serial.Decoder.{State, wait_header, in_frame, in_frame_esc, Decoder, process_byte, run}
use libsmp.Serial.Storage.{IsValid}
use libsmp.Serial.Invariant.{run-IsValid}
use libsmp.Serial.RoundTrip.{IsIdle}
use libsmp.Serial.Link.{stream, Yields, run-stream}
use libsmp.Serial.Reading.{run-append}
use libsmp.Serial.Boundary.{
  Boundary, Caller, Boundary-Caller, in_frame-Boundary, byte_any, after_esc, after_end,
}

byte_escape :
    (h : Heap) (d : Decoder) (b n : ℕ) → Boundary n d → Boundary n (run h d (escape_byte b)).2
unfolding escape_byte run is_magic_byte
byte_escape h d b n v = elim (Bool-cases (is_magic_byte b)) [
  | inl m ↦ let (c, ne) = after_esc h d n v in rw m (byte_any _ _ b n c (λ e. absurd (ne e)))
  | inr m ↦ rw m (byte_any h d b n (Boundary-Caller v) (λ _. ground arith))
]

bytes_escape :
    (bs : List ℕ) (h : Heap) (d : Decoder) (n : ℕ)
    → Boundary n d
    → Boundary n (run h d (escape bs)).2
unfolding escape run
bytes_escape [] h d n v = v
bytes_escape (b ∷ bs) h d n v = rw run-append (bytes_escape bs _ _ n (byte_escape h d b n v))

-- No byte takes the buffer away.
byte-Caller : (h : Heap) (d : Decoder) (b n : ℕ) → Caller n d → Caller n (process_byte h d b).2
byte-Caller h d b n c = elim (Bool-cases (b == esc_byte)) [
  | inr k ↦ Boundary-Caller (byte_any h d b n c (λ _. k))
  | inl k ↦ rw (==_sound b esc_byte k) (go d.state refl)
]
  where
    go : (s : State) → d.state ≡ s → Caller n (process_byte h d esc_byte).2
    go wait_header e = Boundary-Caller (byte_any h d esc_byte n c (λ f. cc (e, f)))
    go in_frame e = (after_esc h d n (in_frame-Boundary n d c e)).0
    go in_frame_esc e = Boundary-Caller (byte_any h d esc_byte n c (λ f. cc (e, f)))

run-Caller : (bs : List ℕ) (h : Heap) (d : Decoder) (n : ℕ) → Caller n d → Caller n (run h d bs).2
unfolding run
run-Caller [] h d n c = c
run-Caller (b ∷ bs) h d n c = run-Caller bs _ _ n (byte-Caller h d b n c)

-- the rest of a frame
body_waiting :
    (p : List ℕ) (sum : ℕ) (h : Heap) (d : Decoder) (n : ℕ)
    → Boundary n d
    → let (outs, h', d') = run h d (escape p ++ (escape_byte sum ++ (end_byte ∷ []))) in
      Caller n d' × (d'.state ≡ wait_header)
body_waiting p sum h d n v =
    let v1 = bytes_escape p h d n v in
    let v2 = byte_escape (run h d (escape p)).1 (run h d (escape p)).2 sum n v1 in
    rw
      (
        run-append (escape p) (escape_byte sum ++ (end_byte ∷ [])),
        run-append (escape_byte sum) (end_byte ∷ []),
      )
      (unfold run in after_end _ _ n v2)

frame_waiting :
    (p : List ℕ) (h : Heap) (d : Decoder) (n : ℕ)
    → Caller n d
    → let (outs, h', d') = run h d (frame_of p) in Caller n d' × (d'.state ≡ wait_header)
unfolding frame_of run
frame_waiting p h d n c =
    body_waiting p (compute_checksum p) _ _ n (byte_any h d start_byte n c (λ _. refl))

-- A valid decoder with a buffer of its caller, whatever state it is in and whatever bytes come first,
-- is back in step after one whole frame, even one that it cannot take: it waits for the next frame,
-- and delivers the payloads of the frames that follow, if they fit the buffer with their checksums, in
-- order and nothing else, with no error.
pub run-resync :
    (garbage p : List ℕ) (ps : List (List ℕ)) (h : Heap) (d : Decoder)
    → IsValid d
    → d.statically_allocated ≡ true
    → All (λ q. length q + 1 ≤ d.bufsize) ps
    → let (outs, h', d') = run h d (garbage ++ frame_of p) in
      IsIdle d' × Yields h' d' (stream ps) ps
run-resync garbage p ps h d v own fit =
    let n = d.bufsize in
    let c0 = run-Caller garbage h d n (record { static = own; size = refl }) in
    let (c, w) = frame_waiting p (run h d garbage).1 (run h d garbage).2 n c0 in
    let whole = run-append garbage (frame_of p) h d in
    let i : IsIdle (run h d (garbage ++ frame_of p)).2 = record {
      valid = run-IsValid (garbage ++ frame_of p) h d v;
      state = rw whole w;
    } in
    let size : (run h d (garbage ++ frame_of p)).2.bufsize ≡ n = rw whole c.size in
    (i, run-stream ps _ _ i (All-mono ps (λ q k. inl (omega (arith, k, size))) fit))
