-- ===== src/Serial/Reading.antt =====
-- The decoder inside a frame: what it does on the bytes of an escaped payload.
use libsmp.Base.{
  ℕ, ◌+◌, ◌≤◌, ◌<◌, ◌≡◌, refl, sym, ap, ◌∙◌, arith, false, inl, inr, List, [], ◌∷◌, ◌++◌, length,
  take, replicate, ◌==◌, Bool-cases, some, subst, length-append, append_assoc, append-nil,
}
use libsmp.Errors.{ok}
use libsmp.Heap.{Heap}
use libsmp.Serial.Frame.{start_byte, end_byte, esc_byte, is_magic_byte, escape_byte, escape}
use libsmp.Serial.Decoder.{
  State, in_frame, in_frame_esc, Decoder, Output, returns, process_byte_inframe, process_state,
  process_byte, reset_on_error, run,
}
use libsmp.Serial.Storage.{Within, IsValid}
use libsmp.Serial.Invariant.{Stored}
use libsmp.Serial.Capacity.{
  CanHold, Keeps, Keeps-refl, Keeps-trans, Keeps-CanHold, put_byte-Accepts,
}

-- a byte that is taken without a frame or an error
abbrev pub silent : Output
silent = returns (ok tt)

abbrev pub delivers : List ℕ → Output
delivers payload = record { ret = ok tt; frame = some payload; framesize = length payload }

-- The decoder is in a frame, of which it has read the bytes `xs`.
pub record Reading (d : Decoder) (xs : List ℕ) : Type 0 where
  pub valid : IsValid d
  pub state : d.state ≡ in_frame
  pub bytes : take d.offset d.buf ≡ xs
  pub count : d.offset ≡ length xs

-- The bytes `bs` bring the decoder from `d` to a state with `P`, and show `outs`.
abbrev pub Runs : Heap → Decoder → List ℕ → List Output → (Decoder → Type 0) → Type 0
Runs h d bs outs P =
    (h' : Heap) × (d' : Decoder) × (run h d bs ≡ (outs, h', d')) × P d' × Keeps h d h' d'

pub run-append :
    (bs cs : List ℕ) (h : Heap) (d : Decoder)
    → run h d (bs ++ cs) ≡ (
        let (outs, h', d') = run h d bs in
        let (outs', h'', d'') = run h' d' cs in (outs ++ outs', h'', d''))
unfolding run
run-append [] cs h d = refl
run-append (b ∷ bs) cs h d = rw (run-append bs cs (process_byte h d b).1 (process_byte h d b).2)

pub run_one :
    (h : Heap) (d : Decoder) (b : ℕ) {out : Output} {h' : Heap} {d' : Decoder}
    → process_byte h d b ≡ (out, h', d')
    → run h d (b ∷ []) ≡ (out ∷ [], h', d')
unfolding run
run_one h d b e = rw e

pub Runs-append :
    {h : Heap} {d : Decoder} (bs cs : List ℕ) (outs outs' : List Output) {P Q : Decoder → Type 0}
    → Runs h d bs outs P
    → ((h' : Heap) (d' : Decoder) → P d' → Keeps h d h' d' → Runs h' d' cs outs' Q)
    → Runs h d (bs ++ cs) (outs ++ outs') Q
Runs-append {h} {d} bs cs outs outs' (h', d', e, p, k) second =
    let (h'', d'', e', q, k') = second h' d' p k in
    (h'', d'', rw (run-append, e, e'), q, Keeps-trans k k')

-- What `process_byte` does in a known state.
pub process_at :
    {s : State} (h : Heap) (d : Decoder) (b : ℕ)
    → d.state ≡ s
    → process_byte h d b ≡ reset_on_error b (process_state s h d b)
unfolding process_byte
process_at h d b e = ap (λ t. reset_on_error b (process_state t h d b)) e

Reading-within : {d : Decoder} (xs : List ℕ) → Reading d xs → d.offset ≤ d.bufsize
Reading-within {d} xs r = subst (λ s. Within s d.offset d.bufsize) r.state r.valid.within

Stored-Reading :
    {d d' : Decoder} (xs : List ℕ) (b : ℕ)
    → take d.offset d.buf ≡ xs
    → d.offset ≡ length xs
    → Stored d d' b
    → Reading (record d' { state = in_frame }) (xs ++ (b ∷ []))
Stored-Reading {d} {d'} xs b bytes count s = record {
  valid = record { storage = s.storage; within = s.within; word = s.word };
  state = refl;
  bytes = s.bytes ∙ ap (λ t. t ++ (b ∷ [])) bytes;
  count = omega (arith, s.next, count, length-append {0} xs (b ∷ []));
}

-- A record is itself with a field set to what it was.
state_eta : (d : Decoder) {s : State} → d.state ≡ s → record d { state = s } ≡ d
state_eta d e = λ i. record d { state = sym e i }

pub state-Keeps : (h : Heap) (d : Decoder) (s : State) → Keeps h d h (record d { state = s })
state-Keeps h d s = record {
  same_grant = refl;
  same_max = refl;
  same_static = refl;
  not_smaller = omega arith;
}

-- A plain byte.
read_plain :
    (h : Heap) (d : Decoder) (xs : List ℕ) (n b : ℕ)
    → is_magic_byte b ≡ false
    → Reading d xs
    → length xs < n
    → CanHold h d n
    → Runs h d (b ∷ []) (silent ∷ []) (λ d'. Reading d' (xs ++ (b ∷ [])))
unfolding is_magic_byte process_state process_byte_inframe
read_plain h d xs n b plain r small c =
    let (h', d', e, s, k) =
      put_byte-Accepts h d n b r.valid (Reading-within xs r) (omega (arith, r.count)) c in
    (
      h',
      d',
      run_one h d b (process_at h d b r.state ∙ rw (magic.0, magic.1, magic.2, e)),
      rw (state_eta d' (s.same_state ∙ r.state)) at (Stored-Reading xs b r.bytes r.count s),
      k,
    )
  where
    magic : ((b == start_byte) ≡ false) × ((b == esc_byte) ≡ false) × ((b == end_byte) ≡ false)
    magic = ground arith

-- A reserved byte, escaped.
read_escaped :
    (h : Heap) (d : Decoder) (xs : List ℕ) (n b : ℕ)
    → Reading d xs
    → length xs < n
    → CanHold h d n
    → Runs h d (esc_byte ∷ b ∷ []) (silent ∷ silent ∷ []) (λ d'. Reading d' (xs ++ (b ∷ [])))
unfolding process_state process_byte_inframe run
read_escaped h d xs n b r small c =
    let d1 = record d { state = in_frame_esc } in
    let w = Reading-within xs r in
    let v : IsValid d1 = record { storage = r.valid.storage; within = w; word = r.valid.word } in
    let to_esc : Keeps h d h d1 = state-Keeps h d in_frame_esc in
    let (h', d', e, s, k) =
      put_byte-Accepts h d1 n b v w (omega (arith, r.count)) (Keeps-CanHold n to_esc c) in
    let e1 : process_byte h d esc_byte ≡ (silent, h, d1) = process_at h d esc_byte r.state in
    let e2 : process_byte h d1 b ≡ (silent, h', record d' { state = in_frame }) =
      process_at h d1 b refl ∙ rw e in
    (
      h',
      record d' { state = in_frame },
      rw (e1, e2),
      Stored-Reading xs b r.bytes r.count s,
      Keeps-trans to_esc (Keeps-trans k (state-Keeps h' d' in_frame)),
    )

-- Any byte of the payload, escaped where it must be.
pub read_byte :
    (h : Heap) (d : Decoder) (xs : List ℕ) (n b : ℕ)
    → Reading d xs
    → length xs < n
    → CanHold h d n
    → Runs h d
        (escape_byte b)
        (replicate (length (escape_byte b)) silent)
        (λ d'. Reading d' (xs ++ (b ∷ [])))
unfolding escape_byte
read_byte h d xs n b r small c = elim (Bool-cases (is_magic_byte b)) [
  | inl m ↦ rw m (read_escaped h d xs n b r small c)
  | inr m ↦ rw m (read_plain h d xs n b m r small c)
]

pub replicate-append :
    (xs ys : List ℕ)
    → replicate (length (xs ++ ys)) silent
      ≡ replicate (length xs) silent ++ replicate (length ys) silent
replicate-append [] ys = refl
replicate-append (x ∷ xs) ys = ap (λ t. silent ∷ t) (replicate-append xs ys)

-- The whole payload.
pub read_payload :
    (bs : List ℕ) (h : Heap) (d : Decoder) (xs : List ℕ) (n : ℕ)
    → Reading d xs
    → length xs + length bs ≤ n
    → CanHold h d n
    → Runs h d (escape bs) (replicate (length (escape bs)) silent) (λ d'. Reading d' (xs ++ bs))
unfolding escape run
read_payload [] h d xs n r small c = (h, d, refl, rw append-nil r, Keeps-refl h d)
read_payload (b ∷ bs) h d xs n r small c = rw replicate-append (
    Runs-append (escape_byte b) (escape bs) _ _ (read_byte h d xs n b r (omega arith) c)
      (λ h' d' r' k. rw (append_assoc xs (b ∷ []) bs) at (
        read_payload bs h' d' (xs ++ (b ∷ [])) n r' (omega (arith, length-append {0} xs (b ∷ [])))
          (Keeps-CanHold n k c))))
