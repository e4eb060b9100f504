-- ===== src/Serial/Capacity.antt =====
-- When a decoder has room for a payload: enough to take every byte of it.
use libsmp.Base.{
  ℕ, ◌+◌, ◌^◌, ◌≤◌, ◌<◌, ◌≡◌, refl, ap, ◌∙◌, arith, true, false, inl, inr, ◌⊎◌, leb, Bool-cases,
  leb→lt, leb→le,
}
use libsmp.Errors.{ok}
use libsmp.Heap.{Heap}
use libsmp.Serial.Decoder.{Decoder, store, put_byte}
use libsmp.Serial.Storage.{
  IsValid, Roomy, grown, grown-Roomy, stay-Roomy, put_byte_room, put_byte_grows,
}
use libsmp.Serial.Invariant.{Stored, store-Stored}

-- A decoder that owns its buffer, with an allocator that grants every request, and a limit that
-- leaves room for the last growth step.
pub record IsGrowable (h : Heap) (d : Decoder) (n : ℕ) : Type 0 where
  pub dynamic : d.statically_allocated ≡ false
  pub grants : (i m : ℕ) → h.grant i m ≡ true
  pub limit : n + 1023 ≤ d.maxsize
  pub word : d.maxsize < 2 ^ 64

-- `n` bytes fit the buffer as it is, or as it can grow.
abbrev pub CanHold : Heap → Decoder → ℕ → Type 0
CanHold h d n = (n ≤ d.bufsize) ⊎ IsGrowable h d n

-- What the handling of a byte does not change, or only improves.
pub record Keeps (h : Heap) (d : Decoder) (h' : Heap) (d' : Decoder) : Type 0 where
  pub same_grant : h'.grant ≡ h.grant
  pub same_max : d'.maxsize ≡ d.maxsize
  pub same_static : d'.statically_allocated ≡ d.statically_allocated
  pub not_smaller : d.bufsize ≤ d'.bufsize

pub Keeps-refl : (h : Heap) (d : Decoder) → Keeps h d h d
Keeps-refl h d = record {
  same_grant = refl;
  same_max = refl;
  same_static = refl;
  not_smaller = omega arith;
}

pub Keeps-trans :
    {h : Heap} {d : Decoder} {h' : Heap} {d' : Decoder} {h'' : Heap} {d'' : Decoder}
    → Keeps h d h' d'
    → Keeps h' d' h'' d''
    → Keeps h d h'' d''
Keeps-trans a b = record {
  same_grant = b.same_grant ∙ a.same_grant;
  same_max = b.same_max ∙ a.same_max;
  same_static = b.same_static ∙ a.same_static;
  not_smaller = omega (arith, a.not_smaller, b.not_smaller);
}

pub Keeps-CanHold :
    {h : Heap} {d : Decoder} {h' : Heap} {d' : Decoder} (n : ℕ)
    → Keeps h d h' d'
    → CanHold h d n
    → CanHold h' d' n
Keeps-CanHold n k (inl small) = inl (omega (arith, k.not_smaller))
Keeps-CanHold n k (inr g) = inr (record {
  dynamic = k.same_static ∙ g.dynamic;
  grants = λ i m. ap (λ f. f i m) k.same_grant ∙ g.grants i m;
  limit = omega (arith, k.same_max, g.limit);
  word = omega (arith, k.same_max, g.word);
})

-- A decoder with room takes a byte: it is stored behind the others.
abbrev pub Accepts : Heap → Decoder → ℕ → Type 0
Accepts h d byte =
    (h' : Heap) × (d' : Decoder) × (put_byte h d byte ≡ (ok tt, h', d'))
    × Stored d d' byte
    × Keeps h d h' d'

Roomy-Keeps :
    {h h' : Heap} {d r : Decoder} (byte : ℕ)
    → h'.grant ≡ h.grant
    → Roomy d r
    → Keeps h d h' (store r byte)
unfolding store
Roomy-Keeps byte g y = record {
  same_grant = g;
  same_max = y.same_max;
  same_static = y.same_static;
  not_smaller = y.not_smaller;
}

Accepts-room :
    (h : Heap) (d : Decoder) (byte : ℕ) → IsValid d → d.offset < d.bufsize → Accepts h d byte
Accepts-room h d byte v room =
    let y = stay-Roomy d v room in
    (h, store d byte, put_byte_room h d byte room, store-Stored byte y, Roomy-Keeps byte refl y)

Accepts-full :
    (h : Heap) (d : Decoder) (n byte : ℕ)
    → IsValid d
    → d.offset ≡ d.bufsize
    → d.offset < n
    → IsGrowable h d n
    → Accepts h d byte
Accepts-full h d n byte v full small g =
    let y = grown-Roomy d v full (omega (arith, g.limit, g.word)) in
    let (h', e, same) =
      put_byte_grows h d byte full g.dynamic (omega (arith, g.limit)) g.word (g.grants _ _) in
    (h', store (grown d) byte, e, store-Stored byte y, Roomy-Keeps byte same y)

-- A valid decoder that has stored fewer than `n` bytes, and has room for `n` in its buffer or can
-- grow it, stores one more behind the others, in the same state and with a buffer that is not
-- smaller.
pub put_byte-Accepts :
    (h : Heap) (d : Decoder) (n byte : ℕ)
    → IsValid d
    → d.offset ≤ d.bufsize
    → d.offset < n
    → CanHold h d n
    → Accepts h d byte
put_byte-Accepts h d n byte v w small c = elim (Bool-cases (leb d.bufsize d.offset)) [
  | inr room ↦ Accepts-room h d byte v (leb→lt _ _ room)
  | inl full ↦ by_growth (omega (arith, leb→le _ _ full)) c
]
  where
    by_growth : d.offset ≡ d.bufsize → CanHold h d n → Accepts h d byte
    by_growth e (inl fits) = Accepts-room h d byte v (omega arith)
    by_growth e (inr g) = Accepts-full h d n byte v e small g
