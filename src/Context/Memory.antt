-- ===== src/Context/Memory.antt =====
-- What the handling of a frame leaves allocated, in a context without a message of its own.
use libsmp.Base.{
  ℕ, zero, suc, ◌+◌, ◌≡◌, refl, ap, ◌∙◌, arith, Bool, false, none, some, List, [], ◌∷◌, length, inl,
  inr, drop, get_or, ltb, Bool-cases,
}
use libsmp.Errors.{Result, ok, err, fault}
use libsmp.Heap.{Heap, alloc, realloc, free}
use libsmp.Message.Value.{Value, empty}
use libsmp.Message.Wire.{decode_value, read}
use libsmp.Message.Store.{Message, set_capacity, next_pow2, new_with_id, free_message}
use libsmp.Message.Store
use libsmp.Message.Codec.{
  make_room, after_room, after_value, build_values, build_from_buffer, add_size, Build,
}
use libsmp.Context.State.{Context}
use libsmp.Context.Receive.{process_serial_frame, into_static, into_fresh, allocated}

-- As many blocks, and a message of the same kind.
abbrev Same : ℕ → Bool → Heap → Message → Type 0
Same n static h m = (h.live ≡ n) × (m.statically_allocated ≡ static)

make_room-Same :
    (h : Heap) (m : Message) (i n : ℕ) (static : Bool)
    → Same n static h m
    → Same n static (make_room h m i).1 (make_room h m i).2
unfolding make_room set_capacity realloc
make_room-Same h m i n static e = ground arith

after_room-Same :
    (r : Build) (next : Heap → Message → Build) (n : ℕ) (static : Bool)
    → Same n static r.1 r.2
    → ((h : Heap) (m : Message) → Same n static h m → Same n static (next h m).1 (next h m).2)
    → Same n static (after_room r next).1 (after_room r next).2
unfolding after_room
after_room-Same (ok u, h, m) next n static e k = k h m e
after_room-Same (err x, h, m) next n static e k = e
after_room-Same (fault, h, m) next n static e k = e

after_value-Same :
    (r : Result ℕ × Value) (i : ℕ) (h : Heap) (m : Message) (next : ℕ → Message → Build) (n : ℕ)
    (static : Bool)
    → Same n static h m
    → ((k : ℕ) (m' : Message) → Same n static h m' → Same n static (next k m').1 (next k m').2)
    → Same n static (after_value r i h m next).1 (after_value r i h m next).2
unfolding after_value
after_value-Same (ok k, v) i h m next n static s e = e k _ s
after_value-Same (err x, v) i h m next n static s e = s
after_value-Same (fault, v) i h m next n static s e = s

build_values-Same :
    (fuel : ℕ) (h : Heap) (m : Message) (i : ℕ) (bytes : List ℕ) (n : ℕ) (static : Bool)
    → Same n static h m
    → Same n static (build_values fuel h m i bytes).1 (build_values fuel h m i bytes).2
unfolding build_values
build_values-Same fuel h m i [] n static s = s
build_values-Same zero h m i (b ∷ bs) n static s = s
build_values-Same (suc fuel) h m i (b ∷ bs) n static s =
    after_room-Same (make_room h m i) _ n static (make_room-Same h m i n static s) (λ h1 m1 s1.
      after_value-Same (decode_value (get_or m1.values i empty) (b ∷ bs)) i h1 m1 _ n static s1
        (λ k m2 s2. build_values-Same fuel h1 m2 (i + 1) (drop k (b ∷ bs)) n static s2))

build_from_buffer-Same :
    (h : Heap) (m : Message) (buffer : List ℕ)
    → Same h.live m.statically_allocated
        (build_from_buffer h m buffer).1
        (build_from_buffer h m buffer).2
unfolding build_from_buffer
build_from_buffer-Same h m buffer = elim (Bool-cases (ltb (length buffer) 8)) [
  | inl e ↦ rw e (refl, refl)
  | inr e ↦ elim (Bool-cases (ltb (length buffer) (add_size 8 (read 4 (drop 4 buffer))))) [
    | inl k ↦ rw (e, k) (refl, refl)
    | inr k ↦
        rw (e, k)
          (build_values-Same (length buffer) h (record m { msgid = read 4 buffer }) 0
            (drop 8 buffer) h.live m.statically_allocated (refl, refl))
  ]
]

pub in_fresh :
    (h : Heap) (ctx : Context) (frame : List ℕ)
    → ctx.msg_rx ≡ none
    → process_serial_frame h ctx frame ≡ allocated ctx frame (Store.new h)
unfolding process_serial_frame
in_fresh h ctx frame e =
    ap
      (λ r. elim r [
        | some m' ↦ into_static ctx (build_from_buffer h m' frame)
        | none ↦ allocated ctx frame (Store.new h)
      ])
      e

new-live :
    (h : Heap) {m : Message}
    → (Store.new h).0 ≡ some m
    → ((Store.new h).1.live ≡ h.live + 2) × (m.statically_allocated ≡ false)
unfolding Store.new new_with_id alloc
new-live h e = ground arith

-- the blocks that are left, from `n` before
unfoldable pub left_by : Result (Unit {0}) → ℕ → ℕ
left_by (ok u) n = n
left_by (err e) n = n + 2
left_by fault n = n + 2

into_fresh-live :
    (ctx : Context) (r : Result (Unit {0})) (h : Heap) (m : Message) (n : ℕ)
    → Same (n + 2) false h m
    → (into_fresh ctx (r, h, m)).1.live ≡ left_by r n
unfolding left_by into_fresh free_message free
into_fresh-live ctx (ok u) h m n (l, s) = rw s (omega arith)
into_fresh-live ctx (err e) h m n (l, s) = l
into_fresh-live ctx fault h m n (l, s) = l

-- In a context without a message of its own, where the allocation of the message for a frame is
-- granted, no block of it is left after a frame that was built, and two are left, the message and
-- its values, after one that was refused.
pub process_serial_frame-live :
    (h : Heap) (ctx : Context) (frame : List ℕ) {m : Message}
    → ctx.msg_rx ≡ none
    → (Store.new h).0 ≡ some m
    → (process_serial_frame h ctx frame).1.live
      ≡ left_by (build_from_buffer (Store.new h).1 m frame).0 h.live
unfolding allocated
process_serial_frame-live h ctx frame {m} r e =
    let (r', h2, m2) = build_from_buffer (Store.new h).1 m frame in
    let (l, st) = new-live h e in
    let (l2, s2) = build_from_buffer-Same (Store.new h).1 m frame in
    ap (λ t. t.1.live) (in_fresh h ctx frame r)
    ∙ ap (λ o. (allocated ctx frame (o, (Store.new h).1)).1.live) e
    ∙ into_fresh-live ctx r' h2 m2 h.live (l2 ∙ l, s2 ∙ st)
