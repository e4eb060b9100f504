-- ===== src/Serial/Invariant.antt =====
-- The structure invariant of the decoder is kept by every operation of src/serial-protocol.c.
use libsmp.Base.{
  ℕ, suc, ◌+◌, ◌^◌, ◌≤◌, ◌<◌, ◌≡◌, refl, ap, ◌∙◌, arith, inl, inr, List, [], ◌∷◌, ◌++◌, length,
  take, set, ◌==◌, some, length-set, take-set, Bool-cases, subst, not, ◌&&◌,
}
use libsmp.Heap.{Heap}
use libsmp.Serial.Frame.{start_byte, end_byte, esc_byte, add_size}
use libsmp.Serial.Decoder.{
  State, wait_header, in_frame, in_frame_esc, Decoder, Step, store, put_byte, process_byte_inframe,
  end_frame, process_state, process_byte, reset_on_error, set_capacity, new_from_static, new,
  set_maximum_capacity, run, init, leave_esc, is_ok,
}
use libsmp.Serial.Storage.{Within, IsValid, Roomy, put_byte_cases, resize_grow}

-- What a store does in a buffer that has room: the byte follows those before it.
pub record Stored (d d' : Decoder) (byte : ℕ) : Type 0 where
  pub same_state : d'.state ≡ d.state
  pub same_max : d'.maxsize ≡ d.maxsize
  pub same_static : d'.statically_allocated ≡ d.statically_allocated
  pub next : d'.offset ≡ d.offset + 1
  pub storage : length d'.buf ≡ d'.bufsize
  pub within : d'.offset ≤ d'.bufsize
  pub word : d'.bufsize < 2 ^ 64
  pub bytes : take d'.offset d'.buf ≡ take d.offset d.buf ++ (byte ∷ [])
  pub not_smaller : d.bufsize ≤ d'.bufsize

pub store-Stored : {d r : Decoder} (byte : ℕ) → Roomy d r → Stored d (store r byte) byte
unfolding store
store-Stored {d} {r} byte y = record {
  same_state = y.same_state;
  same_max = y.same_max;
  same_static = y.same_static;
  next = next;
  storage = length-set r.buf r.offset byte ∙ y.storage;
  within = omega arith;
  word = y.word;
  bytes =
      ap (λ k. take k (set r.buf r.offset byte)) index
      ∙ take-set r.buf r.offset byte (omega arith)
      ∙ ap (λ t. t ++ (byte ∷ [])) (ap (λ k. take k r.buf) y.same_offset ∙ y.kept);
  not_smaller = y.not_smaller;
}
  where
    next : add_size r.offset 1 ≡ d.offset + 1
    next = omega (arith, y.same_offset, y.room, y.word)

    index : add_size r.offset 1 ≡ suc r.offset
    index = omega (arith, y.same_offset, y.room, y.word)

Within-of_le : (s : State) {offset n : ℕ} → offset ≤ n → Within s offset n
Within-of_le wait_header h = tt
Within-of_le in_frame h = h
Within-of_le in_frame_esc h = h

pub Stored-IsValid : {d d' : Decoder} (byte : ℕ) → Stored d d' byte → IsValid d'
Stored-IsValid {d' = d'} byte s = record {
  storage = s.storage;
  within = Within-of_le d'.state s.within;
  word = s.word;
}

-- Another state, and an offset that fits it.
moved :
    (d : Decoder) (s : State) (offset : ℕ)
    → IsValid d
    → Within s offset d.bufsize
    → IsValid (record d { state = s; offset = offset })
moved d s offset v w = record { storage = v.storage; within = w; word = v.word }

pub put_byte-IsValid :
    (h : Heap) (d : Decoder) (byte : ℕ)
    → IsValid d
    → d.offset ≤ d.bufsize
    → IsValid (put_byte h d byte).2
put_byte-IsValid h d byte v w = elim (put_byte_cases h d byte v w) [
  | inl (h', r, e, y) ↦ rw e (Stored-IsValid byte (store-Stored byte y))
  | inr (h', x, e) ↦ rw e v
]

-- The end of a frame changes nothing but the state.
pub end_frame_state : (d : Decoder) → (end_frame d).1 ≡ record d { state = wait_header }
unfolding end_frame
end_frame_state d = ground arith

end_frame-IsValid : (d : Decoder) → IsValid d → IsValid (end_frame d).1
end_frame-IsValid d v = rw (end_frame_state d) (moved d wait_header d.offset v tt)

leave_esc-IsValid :
    (h : Heap) (d : Decoder) (byte : ℕ)
    → IsValid d
    → d.offset ≤ d.bufsize
    → IsValid (leave_esc (put_byte h d byte)).2
leave_esc-IsValid h d byte v w = elim (put_byte_cases h d byte v w) [
  | inl (h', r, e, y) ↦
      rw e (let s = store-Stored byte y in moved _ in_frame _ (Stored-IsValid byte s) s.within)
  | inr (h', x, e) ↦ rw e v
]

inframe-IsValid :
    (h : Heap) (d : Decoder) (byte : ℕ)
    → IsValid d
    → d.offset ≤ d.bufsize
    → IsValid (process_byte_inframe h d byte).2
unfolding process_byte_inframe
inframe-IsValid h d byte v w = elim (Bool-cases (byte == start_byte)) [
  | inl e ↦ rw e (moved d d.state 0 v (Within-of_le d.state (omega arith)))
  | inr n ↦ elim (Bool-cases (byte == esc_byte)) [
    | inl e ↦ rw (n, e) (moved d in_frame_esc d.offset v w)
    | inr m ↦ elim (Bool-cases (byte == end_byte)) [
      | inl e ↦ rw (n, m, e) (end_frame-IsValid d v)
      | inr k ↦ rw (n, m, k) (put_byte-IsValid h d byte v w)
    ]
  ]
]

process_state-IsValid :
    (s : State) (h : Heap) (d : Decoder) (byte : ℕ)
    → d.state ≡ s
    → IsValid d
    → IsValid (process_state s h d byte).2
unfolding process_state
process_state-IsValid wait_header h d byte e v = elim (Bool-cases (byte == start_byte)) [
  | inl b ↦ rw b (moved d in_frame 0 v (omega arith))
  | inr b ↦ rw b v
]
process_state-IsValid in_frame h d byte e v =
    inframe-IsValid h d byte v (subst (λ s. Within s d.offset d.bufsize) e v.within)
process_state-IsValid in_frame_esc h d byte e v =
    leave_esc-IsValid h d byte v (subst (λ s. Within s d.offset d.bufsize) e v.within)

reset-IsValid : (byte : ℕ) (s : Step) → IsValid s.2 → IsValid (reset_on_error byte s).2
reset-IsValid byte (out, h, d) v =
    elim (Bool-cases (not (is_ok out.ret) && not (byte == start_byte))) [
      | inl e ↦ rw e (moved d wait_header d.offset v tt)
      | inr e ↦ rw e v
    ]

-- `process_byte` keeps the structure invariant, on every byte and whatever the allocator answers.
pub process_byte-IsValid :
    (h : Heap) (d : Decoder) (byte : ℕ) → IsValid d → IsValid (process_byte h d byte).2
unfolding process_byte
process_byte-IsValid h d byte v =
    reset-IsValid byte _ (process_state-IsValid d.state h d byte refl v)

-- From a valid decoder, any sequence of bytes leaves the decoder valid, whatever the allocator
-- answers: the buffer has the size that is noted, and inside a frame the offset is within it.
pub run-IsValid : (bs : List ℕ) (h : Heap) (d : Decoder) → IsValid d → IsValid (run h d bs).2
unfolding run
run-IsValid [] h d v = v
run-IsValid (b ∷ bs) h d v =
    run-IsValid bs (process_byte h d b).1 (process_byte h d b).2 (process_byte-IsValid h d b v)

-- The creating functions establish it. `struct_size` and the rest are the caller's; the storage
-- `buf` that it hands over has `bufsize` bytes, as it says.
pub new_from_static-IsValid :
    (h : Heap) (sdec : Decoder) (struct_size : ℕ) (buf : List ℕ) (bufsize : ℕ) {d : Decoder}
    → length buf ≡ bufsize
    → bufsize < 2 ^ 64
    → new_from_static h sdec struct_size buf bufsize ≡ some d
    → IsValid d × (d.state ≡ wait_header) × (0 < d.bufsize)
unfolding new_from_static init
new_from_static-IsValid h sdec struct_size buf bufsize e w r = ground arith

pub new-IsValid :
    (h : Heap) (bufsize : ℕ) {d : Decoder}
    → bufsize < 2 ^ 64
    → (new h bufsize).0 ≡ some d
    → IsValid d × (d.state ≡ wait_header) × (0 < d.bufsize)
unfolding new init set_capacity
new-IsValid h bufsize w r =
    ground (arith, resize_grow [] 0 bufsize refl, resize_grow [] 0 1024 refl)

-- A new limit keeps it: the limit bounds later growth only.
pub set_maximum_capacity-IsValid :
    (d : Decoder) (max : ℕ) → IsValid d → IsValid (set_maximum_capacity d max).1
unfolding set_maximum_capacity
set_maximum_capacity-IsValid d max v = ground arith
