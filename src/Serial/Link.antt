-- ===== src/Serial/Link.antt =====
-- The encoder and the decoder at the two ends of a line.
use libsmp.Base.{
  ℕ, zero, suc, ◌+◌, ◌*◌, ◌^◌, ◌<◌, ◌≡◌, refl, arith, List, [], ◌∷◌, ◌++◌, length, take, drop,
  Option, none, some, take-append, replicate, All, All-mono, ◌≢◌, subst,
}
use libsmp.Errors.{Result, Error, ok, err, fault}
use libsmp.Heap.{Heap}
use libsmp.Serial.Frame.{compute_checksum, escape_byte, escape, frame_of}
use libsmp.Serial.Encoder.{encode}
use libsmp.Serial.Encoding.{encode_into, encode_alloc, fresh_block}
use libsmp.Serial.Decoder.{wait_header, in_frame_esc, Decoder, Output, run}
use libsmp.Serial.Storage.{IsValid}
use libsmp.Serial.Capacity.{CanHold, Keeps-CanHold}
use libsmp.Serial.Reading.{silent, Runs, run-append}
use libsmp.Serial.RoundTrip.{outputs_of, on_start, IsIdle, run-frame_of}

-- `outsize` is the size of the buffer, where there is one.
abbrev pub SizedAs : Option (List ℕ) → ℕ → Type 0
SizedAs none outsize = Unit {0}
SizedAs (some outbuf) outsize = length outbuf ≡ outsize

-- The result of a successful call, for either kind of buffer, begins with the frame.
pub encode_frame :
    (h : Heap) (payload : List ℕ) (outbuf : Option (List ℕ)) (outsize : ℕ) {buf : List ℕ} {n : ℕ}
    → 2 * length payload + 4 < 2 ^ 64
    → SizedAs outbuf outsize
    → (encode h payload outbuf outsize).0 ≡ ok (buf, n)
    → take n buf ≡ frame_of payload
encode_frame h payload none outsize w s e = ground (
  arith,
  encode_alloc h payload outsize w,
  take-append {0} (frame_of payload) (fresh_block h payload),
)
encode_frame h payload (some outbuf) outsize w s e = ground (
  arith,
  encode_into h payload outbuf w,
  take-append {0} (frame_of payload) (drop (length (frame_of payload)) outbuf),
)

-- What a successful encoder wrote, of a payload whose frame cannot exceed the address space, fed to
-- a valid decoder that has room for the payload and its checksum and is not in the middle of an
-- escape, gives no error (but `bad_message` at the first byte, if the decoder was in an unfinished
-- frame), delivers exactly the payload at the last byte, and leaves the decoder waiting for the
-- next frame.
pub decode-encode :
    (payload : List ℕ) (outbuf : Option (List ℕ)) (outsize : ℕ) (h h' : Heap) (d : Decoder)
    {buf : List ℕ} {n : ℕ}
    → 2 * length payload + 4 < 2 ^ 64
    → SizedAs outbuf outsize
    → (encode h payload outbuf outsize).0 ≡ ok (buf, n)
    → IsValid d
    → d.state ≢ in_frame_esc
    → CanHold h' d (length payload + 1)
    → Runs h' d (take n buf) (outputs_of d.state payload) IsIdle
decode-encode payload outbuf outsize h h' d w s e v ne c =
    rw (encode_frame h payload outbuf outsize w s e) (run-frame_of payload h' d v ne c)

-- The frames of several payloads, one after the other.
unfoldable pub stream : List (List ℕ) → List ℕ
stream [] = []
stream (p ∷ ps) = frame_of p ++ stream ps

abbrev consider : Option (List ℕ) → List (List ℕ) → List (List ℕ)
consider none rest = rest
consider (some p) rest = p ∷ rest

-- The payloads that the outputs deliver, in order.
unfoldable pub delivered : List Output → List (List ℕ)
delivered [] = []
delivered (o ∷ os) = consider o.frame (delivered os)

abbrev failure : Result (Unit {0}) → List Error → List Error
failure (ok _) rest = rest
failure (err e) rest = e ∷ rest
failure fault rest = rest

-- The errors that they report.
unfoldable pub failures : List Output → List Error
failures [] = []
failures (o ∷ os) = failure o.ret (failures os)

delivered-append : (os ps : List Output) → delivered (os ++ ps) ≡ delivered os ++ delivered ps
unfolding delivered
delivered-append [] ps = refl
delivered-append (o ∷ os) ps = ground (arith, delivered-append os ps)

failures-append : (os ps : List Output) → failures (os ++ ps) ≡ failures os ++ failures ps
unfolding failures
failures-append [] ps = refl
failures-append (o ∷ os) ps = ground (arith, failures-append os ps)

quiet : (n : ℕ) → (delivered (replicate n silent) ≡ []) × (failures (replicate n silent) ≡ [])
unfolding delivered failures
quiet zero = (refl, refl)
quiet (suc n) = quiet n

outputs_of_lem :
    (p : List ℕ)
    → (delivered (outputs_of wait_header p) ≡ p ∷ []) × (failures (outputs_of wait_header p) ≡ [])
unfolding delivered failures on_start
outputs_of_lem p =
    let n = length (escape p ++ escape_byte (compute_checksum p)) in
    (rw (delivered-append, (quiet n).0), rw (failures-append, (quiet n).1))

-- The outputs of a run deliver these payloads, with no error.
abbrev pub Yields : Heap → Decoder → List ℕ → List (List ℕ) → Type 0
Yields h d bs ps =
    (delivered (run h d bs).0 ≡ ps) × (failures (run h d bs).0 ≡ []) × IsIdle (run h d bs).2

pub IsIdle-frame :
    (p : List ℕ) (h : Heap) (d : Decoder)
    → IsIdle d
    → CanHold h d (length p + 1)
    → Runs h d (frame_of p) (outputs_of wait_header p) IsIdle
IsIdle-frame p h d i c =
    subst (λ s. Runs h d (frame_of p) (outputs_of s p) IsIdle) i.state
      (run-frame_of p h d i.valid (λ e. cc i.state) c)

-- An idle decoder that has room for each of the payloads delivers them all, in order and nothing
-- else, reports no error, and is idle again.
pub run-stream :
    (ps : List (List ℕ)) (h : Heap) (d : Decoder)
    → IsIdle d
    → All (λ p. CanHold h d (length p + 1)) ps
    → Yields h d (stream ps) ps
unfolding stream run delivered failures
run-stream [] h d i c = (refl, refl, i)
run-stream (p ∷ ps) h d i (c, cs) =
    let (h1, d1, e, i1, k) = IsIdle-frame p h d i c in
    let (ds, fs, i2) =
      run-stream ps h1 d1 i1 (All-mono ps (λ q. Keeps-CanHold (length q + 1) k) cs) in
    let (od, of) = outputs_of_lem p in
    (
      rw (run-append, e, delivered-append, od, ds),
      rw (run-append, e, failures-append, of, fs),
      rw (run-append, e) i2,
    )
