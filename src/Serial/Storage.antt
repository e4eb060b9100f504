-- ===== src/Serial/Storage.antt =====
-- The decoder's buffer: how `put_byte` grows it and stores into it.
use libsmp.Base.{
  ℕ, ◌+◌, ◌-◌, ◌^◌, ◌≤◌, ◌<◌, ◌≡◌, refl, arith, inl, inr, ◌⊎◌, List, length, take, replicate, ltb,
  leb, length-append, length-replicate, take-append_le, Bool-cases, leb→le, leb→lt, ltb→le, lt→leb,
  le→leb, le→ltb, true, false,
}
use libsmp.Errors.{Error, ok, err, too_big, no_mem, overflow}
use libsmp.Heap.{Heap, realloc, realloc_granted}
use libsmp.Serial.Frame.{default_buffer_size, add_size}
use libsmp.Serial.Decoder.{
  State, wait_header, in_frame, in_frame_esc, Decoder, resize, set_capacity, is_block, store,
  put_byte,
}

-- The offset is meaningful once a frame has begun: `START_BYTE` sets it.
abbrev pub Within : State → ℕ → ℕ → Type 0
Within wait_header offset n = Unit {0}
Within in_frame offset n = offset ≤ n
Within in_frame_esc offset n = offset ≤ n

-- The decoder's structure invariant: `buf` has `bufsize` bytes, and in a frame the offset is in it.
pub record IsValid (d : Decoder) : Type 0 where
  pub storage : length d.buf ≡ d.bufsize
  pub within : Within d.state d.offset d.bufsize
  pub word : d.bufsize < 2 ^ 64

-- `d'` is `d` with a buffer that has room at the offset, and shows the same bytes before it.
pub record Roomy (d d' : Decoder) : Type 0 where
  pub same_state : d'.state ≡ d.state
  pub same_offset : d'.offset ≡ d.offset
  pub same_max : d'.maxsize ≡ d.maxsize
  pub same_static : d'.statically_allocated ≡ d.statically_allocated
  pub storage : length d'.buf ≡ d'.bufsize
  pub room : d.offset < d'.bufsize
  pub word : d'.bufsize < 2 ^ 64
  pub kept : take d.offset d'.buf ≡ take d.offset d.buf
  pub not_smaller : d.bufsize ≤ d'.bufsize
  pub step : d'.bufsize ≤ d.offset + default_buffer_size ⊎ (d'.bufsize ≡ d.bufsize)

zeros : ℕ → List ℕ
zeros n = replicate n 0

pub resize_grow :
    (buf : List ℕ) (bufsize capacity : ℕ)
    → length buf ≡ bufsize
    → bufsize < capacity
    → (length (resize buf bufsize capacity) ≡ capacity)
      × (take bufsize (resize buf bufsize capacity) ≡ take bufsize buf)
unfolding resize zeros
resize_grow buf bufsize capacity e h = ground (
  arith,
  length-append {0} buf (zeros (capacity - bufsize)),
  length-replicate {0} {A = ℕ} (capacity - bufsize) 0,
  take-append_le bufsize buf (zeros (capacity - bufsize)),
)

-- How a `put_byte` can end: the byte is stored in a buffer that has room, or nothing changes.
abbrev pub PutCase : Heap → Decoder → ℕ → Type 0
PutCase h d byte =
    ((h' : Heap) × (d' : Decoder) × (put_byte h d byte ≡ (ok tt, h', store d' byte)) × Roomy d d')
    ⊎ ((h' : Heap) × (e : Error) × (put_byte h d byte ≡ (err e, h', d)))

pub stay-Roomy : (d : Decoder) → IsValid d → d.offset < d.bufsize → Roomy d d
stay-Roomy d v h = record {
  same_state = refl;
  same_offset = refl;
  same_max = refl;
  same_static = refl;
  storage = v.storage;
  room = h;
  word = v.word;
  kept = refl;
  not_smaller = omega arith;
  step = inr refl;
}

pub grown : Decoder → Decoder
grown d =
    let n = add_size d.bufsize default_buffer_size in
    record d { buf = resize d.buf d.bufsize n; bufsize = n }

pub grown-Roomy :
    (d : Decoder) → IsValid d → d.offset ≡ d.bufsize → d.bufsize + 1024 < 2 ^ 64 → Roomy d (grown d)
unfolding grown
grown-Roomy d v e small =
    let g =
      resize_grow d.buf d.bufsize (add_size d.bufsize default_buffer_size) v.storage
        (omega arith) in
    record {
      same_state = refl;
      same_offset = refl;
      same_max = refl;
      same_static = refl;
      storage = g.0;
      room = omega arith;
      word = omega arith;
      kept = rw e g.1;
      not_smaller = omega arith;
      step = inl (omega arith);
    }

-- A change of capacity succeeds, with the buffer resized, or leaves the decoder alone.
set_capacity_cases :
    (h : Heap) (d : Decoder) (n : ℕ)
    → ((h' : Heap) × (set_capacity h d n
          ≡ (ok tt, h', record d { buf = resize d.buf d.bufsize n; bufsize = n })))
      ⊎ ((h' : Heap) × (e : Error) × (set_capacity h d n ≡ (err e, h', d)))
unfolding set_capacity
set_capacity_cases h d n = elim (Bool-cases d.statically_allocated) [
  | inl s ↦ inr (h, too_big, rw s)
  | inr s ↦ elim (Bool-cases (ltb d.maxsize n)) [
    | inl big ↦ inr (h, too_big, rw (s, big))
    | inr fits ↦
        let (granted, h') = realloc h (is_block d.buf) n in
        elim (Bool-cases granted) [
          | inl g ↦ inl (h', rw (s, fits, g))
          | inr g ↦ inr (h', no_mem, rw (s, fits, g))
        ]
  ]
]

-- Every `put_byte` on a valid decoder that is in a frame ends in one of the two ways.
pub put_byte_cases :
    (h : Heap) (d : Decoder) (byte : ℕ) → IsValid d → d.offset ≤ d.bufsize → PutCase h d byte
unfolding put_byte grown
put_byte_cases h d byte v w = elim (Bool-cases (leb d.bufsize d.offset)) [
  | inr room ↦ inl (h, d, rw room, stay-Roomy d v (leb→lt _ _ room))
  | inl full ↦ elim (Bool-cases (ltb (add_size d.bufsize default_buffer_size) d.bufsize)) [
    | inl wraps ↦ inr (h, overflow, rw (full, wraps))
    | inr fine ↦ elim (set_capacity_cases h d (add_size d.bufsize default_buffer_size)) [
      | inl (h', e) ↦ inl (
        h',
        grown d,
        rw (full, fine, e),
        grown-Roomy d v (omega (arith, leb→le _ _ full)) (omega (arith, ltb→le _ _ fine, v.word)),
      )
      | inr (h', x, e) ↦ inr (h', x, rw (full, fine, e))
    ]
  ]
]

-- With room at the offset the byte is stored at once.
pub put_byte_room :
    (h : Heap) (d : Decoder) (byte : ℕ)
    → d.offset < d.bufsize
    → put_byte h d byte ≡ (ok tt, h, store d byte)
unfolding put_byte
put_byte_room h d byte room = rw (lt→leb d.bufsize d.offset room)

-- A full buffer that may grow does so, and then the byte is stored.
pub put_byte_grows :
    (h : Heap) (d : Decoder) (byte : ℕ)
    → d.offset ≡ d.bufsize
    → d.statically_allocated ≡ false
    → d.bufsize + 1024 ≤ d.maxsize
    → d.maxsize < 2 ^ 64
    → h.grant h.calls (d.bufsize + 1024) ≡ true
    → (h' : Heap) × (put_byte h d byte ≡ (ok tt, h', store (grown d) byte)) × (h'.grant ≡ h.grant)
unfolding put_byte set_capacity grown
put_byte_grows h d byte full own limit word g =
    let n = d.bufsize + 1024 in
    let size : add_size d.bufsize default_buffer_size ≡ n = omega arith in
    let r = realloc_granted h (is_block d.buf) n g in
    (
      (realloc h (is_block d.buf) n).1,
      rw (
        size,
        le→leb d.bufsize d.offset (omega arith),
        le→ltb n d.bufsize (omega arith),
        own,
        le→ltb d.maxsize n limit,
        r.0,
      ),
      r.1,
    )
