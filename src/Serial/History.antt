-- ===== src/Serial/History.antt =====
-- What a decoder in a frame has received since the frame began: src/serial-protocol.c, lines 269 to 362.
use libsmp.Base.{
  ℕ, zero, suc, ◌≡◌, refl, sym, ap, ◌∙◌, arith, true, false, not, ◌&&◌, List, [], ◌∷◌, ◌++◌, take,
  replicate, ◌==◌, Bool-cases, inl, inr, subst, append_assoc, append-nil, ==_sound,
}
use libsmp.Heap.{Heap}
use libsmp.Serial.Frame.{start_byte, end_byte, esc_byte, is_magic_byte}
use libsmp.Serial.Decoder.{
  State, wait_header, in_frame, in_frame_esc, Decoder, process_byte_inframe, process_state,
  process_byte, end_frame, reset_on_error, run, Step, is_ok, store,
}
use libsmp.Serial.Storage.{Within, IsValid, put_byte_cases}
use libsmp.Serial.Invariant.{Stored, store-Stored, end_frame_state, process_byte-IsValid}
use libsmp.Serial.Reading.{process_at}

-- The bytes `raw` of a line stand for the bytes `bytes`: a byte that is not reserved for itself, and the
-- byte behind an `ESC_BYTE` for itself, whatever it is. Each `START_BYTE` that found no room behind
-- the `ESC_BYTE` was refused with an error and stands for nothing.
pub data Unescapes : List ℕ → List ℕ → Type 0 where
  nothing : Unescapes [] []
  plain :
      {raw bytes : List ℕ} (b : ℕ)
      → is_magic_byte b ≡ false
      → Unescapes raw bytes
      → Unescapes (raw ++ (b ∷ [])) (bytes ++ (b ∷ []))
  escaped :
      {raw bytes : List ℕ} (refused b : ℕ)
      → Unescapes raw bytes
      → Unescapes
          (raw ++ (esc_byte ∷ (replicate refused start_byte ++ (b ∷ []))))
          (bytes ++ (b ∷ []))

-- The bytes `line` end with the frame that the decoder is in, as far as it has received it.
abbrev pub Tracks : List ℕ → Decoder → State → Type 0
Tracks line d wait_header = Unit {0}
Tracks line d in_frame =
    (before raw : List ℕ) × (line ≡ before ++ (start_byte ∷ raw))
    × Unescapes raw (take d.offset d.buf)
Tracks line d in_frame_esc =
    (before raw : List ℕ) × (refused : ℕ) × (line
      ≡ before ++ (start_byte ∷ (raw ++ (esc_byte ∷ replicate refused start_byte))))
    × Unescapes raw (take d.offset d.buf)

abbrev pub After : List ℕ → Step → Type 0
After line s = Tracks line s.2 s.2.state

-- a frame begins
begins :
    (line : List ℕ) (d : Decoder) (b : ℕ)
    → (b == start_byte) ≡ true
    → d.offset ≡ 0
    → Tracks (line ++ (b ∷ [])) d in_frame
begins line d b e z = (
  line,
  [],
  ap (λ c. line ++ (c ∷ [])) (==_sound b start_byte e),
  subst (λ k. Unescapes [] (take k d.buf)) (sym z) nothing,
)

snoc :
    (before raw : List ℕ) (b : ℕ)
    → (before ++ (start_byte ∷ raw)) ++ (b ∷ []) ≡ before ++ (start_byte ∷ (raw ++ (b ∷ [])))
snoc before raw b = append_assoc before (start_byte ∷ raw) (b ∷ [])

replicate-snoc : (n b : ℕ) → replicate n b ++ (b ∷ []) ≡ replicate (suc n) b
replicate-snoc zero b = refl
replicate-snoc (suc n) b = ap (λ t. b ∷ t) (replicate-snoc n b)

-- a plain byte is stored
stored_plain :
    (line : List ℕ) (d d' : Decoder) (b : ℕ)
    → is_magic_byte b ≡ false
    → Tracks line d in_frame
    → Stored d d' b
    → Tracks (line ++ (b ∷ [])) d' in_frame
stored_plain line d d' b m (before, raw, e, u) s = (
  before,
  raw ++ (b ∷ []),
  ap (λ t. t ++ (b ∷ [])) e ∙ snoc before raw b,
  subst (Unescapes (raw ++ (b ∷ []))) (sym s.bytes) (plain b m u),
)

-- the byte behind an escape is stored
stored_escaped :
    (line : List ℕ) (d d' : Decoder) (b : ℕ)
    → Tracks line d in_frame_esc
    → Stored d d' b
    → Tracks (line ++ (b ∷ [])) d' in_frame
stored_escaped line d d' b (before, raw, n, e, u) s =
    let starts = replicate n start_byte in
    (
      before,
      raw ++ (esc_byte ∷ (starts ++ (b ∷ []))),
      ap (λ t. t ++ (b ∷ [])) e
          ∙ snoc before (raw ++ (esc_byte ∷ starts)) b
          ∙ ap (λ t. before ++ (start_byte ∷ t)) (append_assoc raw (esc_byte ∷ starts) (b ∷ [])),
      subst (Unescapes (raw ++ (esc_byte ∷ (starts ++ (b ∷ []))))) (sym s.bytes) (escaped n b u),
    )

escape_begins :
    (line : List ℕ) (d : Decoder) (b : ℕ)
    → (b == esc_byte) ≡ true
    → Tracks line d in_frame
    → Tracks (line ++ (b ∷ [])) d in_frame_esc
escape_begins line d b e (before, raw, f, u) = (
  before,
  raw,
  0,
  ap (λ t. t ++ (b ∷ [])) f
      ∙ snoc before raw b
      ∙ ap (λ c. before ++ (start_byte ∷ (raw ++ (c ∷ [])))) (==_sound b esc_byte e),
  u,
)

start_refused :
    (line : List ℕ) (d : Decoder) (b : ℕ)
    → (b == start_byte) ≡ true
    → Tracks line d in_frame_esc
    → Tracks (line ++ (b ∷ [])) d in_frame_esc
start_refused line d b e (before, raw, n, f, u) =
    let starts = replicate n start_byte in
    (
      before,
      raw,
      suc n,
      ap (λ t. t ++ (b ∷ [])) f
          ∙ snoc before (raw ++ (esc_byte ∷ starts)) b
          ∙ ap (λ t. before ++ (start_byte ∷ t)) (append_assoc raw (esc_byte ∷ starts) (b ∷ []))
          ∙ ap (λ c. before ++ (start_byte ∷ (raw ++ (esc_byte ∷ (starts ++ (c ∷ []))))))
              (==_sound b start_byte e)
          ∙ ap (λ t. before ++ (start_byte ∷ (raw ++ (esc_byte ∷ t))))
              (replicate-snoc n start_byte),
      u,
    )

ends :
    (line : List ℕ) (b : ℕ) (s : Step) → s.2.state ≡ wait_header → After line (reset_on_error b s)
ends line b (out, h, d) w = elim (Bool-cases (not (is_ok out.ret) && not (b == start_byte))) [
  | inl e ↦ rw e tt
  | inr e ↦ rw (e, w) tt
]

not_magic :
    (b : ℕ)
    → (b == start_byte) ≡ false
    → (b == esc_byte) ≡ false
    → (b == end_byte) ≡ false
    → is_magic_byte b ≡ false
unfolding is_magic_byte
not_magic b e f g = ground arith

at_end :
    (h : Heap) (d : Decoder) (b : ℕ)
    → (b == start_byte) ≡ false
    → (b == esc_byte) ≡ false
    → (b == end_byte) ≡ true
    → process_byte_inframe h d b ≡ ((end_frame d).0, h, (end_frame d).1)
unfolding process_byte_inframe
at_end h d b e f g = rw (e, f, g) refl

at_wait :
    (line : List ℕ) (h : Heap) (d : Decoder) (b : ℕ)
    → d.state ≡ wait_header
    → After (line ++ (b ∷ [])) (reset_on_error b (process_state wait_header h d b))
unfolding process_state
at_wait line h d b s = elim (Bool-cases (b == start_byte)) [
  | inl e ↦ rw e (begins line (record d { state = in_frame; offset = 0 }) b e refl)
  | inr e ↦ rw (e, s) tt
]

at_frame :
    (line : List ℕ) (h : Heap) (d : Decoder) (b : ℕ)
    → d.state ≡ in_frame
    → IsValid d
    → Tracks line d in_frame
    → After (line ++ (b ∷ [])) (reset_on_error b (process_state in_frame h d b))
unfolding process_state process_byte_inframe
at_frame line h d b s v t = elim (Bool-cases (b == start_byte)) [
  | inl e ↦ rw (e, s) (begins line (record d { offset = 0 }) b e refl)
  | inr e ↦ elim (Bool-cases (b == esc_byte)) [
    | inl f ↦ rw (e, f) (escape_begins line (record d { state = in_frame_esc }) b f t)
    | inr f ↦ elim (Bool-cases (b == end_byte)) [
      | inl g ↦
          subst (λ r. After (line ++ (b ∷ [])) (reset_on_error b r)) (sym (at_end h d b e f g))
            (ends (line ++ (b ∷ [])) b ((end_frame d).0, h, (end_frame d).1)
              (ap (λ (c : Decoder). c.state) (end_frame_state d)))
      | inr g ↦
          elim (put_byte_cases h d b v (subst (λ t. Within t d.offset d.bufsize) s v.within)) [
            | inl (h', r, p, y) ↦
                let stored = store-Stored b y in
                rw (e, f, g, p, stored.same_state ∙ s)
                  (stored_plain line d (store r b) b (not_magic b e f g) t stored)
            | inr (h', x, p) ↦ rw (e, f, g, p) tt
          ]
    ]
  ]
]

at_esc :
    (line : List ℕ) (h : Heap) (d : Decoder) (b : ℕ)
    → d.state ≡ in_frame_esc
    → IsValid d
    → Tracks line d in_frame_esc
    → After (line ++ (b ∷ [])) (reset_on_error b (process_state in_frame_esc h d b))
unfolding process_state
at_esc line h d b s v t =
    elim (put_byte_cases h d b v (subst (λ t. Within t d.offset d.bufsize) s v.within)) [
      | inl (h', r, p, y) ↦ rw p (stored_escaped line d (store r b) b t (store-Stored b y))
      | inr (h', x, p) ↦ elim (Bool-cases (b == start_byte)) [
        | inl e ↦ rw (p, e, s) (start_refused line d b e t)
        | inr e ↦ rw (p, e) tt
      ]
    ]

pub process_byte-Tracks :
    (line : List ℕ) (h : Heap) (d : Decoder) (b : ℕ)
    → IsValid d
    → Tracks line d d.state
    → After (line ++ (b ∷ [])) (process_byte h d b)
process_byte-Tracks line h d b v t = by_state d.state refl t
  where
    by_state :
        (s : State) → d.state ≡ s → Tracks line d s → After (line ++ (b ∷ [])) (process_byte h d b)
    by_state wait_header e t = rw (process_at h d b e) (at_wait line h d b e)
    by_state in_frame e t = rw (process_at h d b e) (at_frame line h d b e v t)
    by_state in_frame_esc e t = rw (process_at h d b e) (at_esc line h d b e v t)

-- A valid decoder that has followed the line `line` follows it through any further bytes.
pub run-Tracks :
    (bytes line : List ℕ) (h : Heap) (d : Decoder)
    → IsValid d
    → Tracks line d d.state
    → Tracks (line ++ bytes) (run h d bytes).2 (run h d bytes).2.state
unfolding run
run-Tracks [] line h d v t = subst (λ l. Tracks l d d.state) (sym (append-nil line)) t
run-Tracks (b ∷ bytes) line h d v t = rw (append_assoc line (b ∷ []) bytes) at (
    run-Tracks bytes (line ++ (b ∷ [])) (process_byte h d b).1 (process_byte h d b).2
      (process_byte-IsValid h d b v) (process_byte-Tracks line h d b v t))
