-- ===== src/Message/Invariant.antt =====
-- The structure invariant of messages is kept by every operation of src/message.c.
use libsmp.Base.{
  ℕ, zero, suc, ◌+◌, ◌-◌, ◌<◌, ◌≡◌, ◌∙◌, arith, false, Option, none, some, List, [], ◌∷◌, inl, inr,
  ltb, length, get_or, drop, length-set, length-append, length-replicate, Bool-cases, replicate,
}
use libsmp.Errors.{Result, ok, err, fault}
use libsmp.Heap.{Heap}
use libsmp.Message.Value.{Value, empty}
use libsmp.Message.Wire.{decode_value, read}
use libsmp.Message.Store.{
  Message, set_capacity, set_value, clear, new_with_id, new_from_static_with_id, next_pow2,
}
use libsmp.Message.Codec.{
  make_room, after_room, after_value, build_values, build_from_buffer, add_size,
}

-- The memory at `values` has room for `capacity` values.
abbrev pub IsValid : Message → Type 0
IsValid m = length m.values ≡ m.capacity

pub set_capacity-IsValid :
    (h : Heap) (m : Message) (capacity : ℕ) → IsValid m → IsValid (set_capacity h m capacity).2
unfolding set_capacity
set_capacity-IsValid h m capacity v = ground (
  arith,
  length-append {0} m.values (replicate (capacity - m.capacity) empty),
  length-replicate {0} (capacity - m.capacity) empty,
)

make_room-IsValid : (h : Heap) (m : Message) (i : ℕ) → IsValid m → IsValid (make_room h m i).2
unfolding make_room
make_room-IsValid h m i v =
    ground (arith, set_capacity-IsValid h m (next_pow2 (add_size m.capacity 1)))

pub set_value-IsValid :
    (m : Message) (index : Option ℕ) (value : Value)
    → IsValid m
    → IsValid (set_value m index value).1
unfolding set_value
set_value-IsValid m none value v = v
set_value-IsValid m (some i) value v = ground (arith, length-set {0} m.values i value)

pub clear-IsValid : (m : Message) → IsValid (clear m)
unfolding clear
clear-IsValid m = length-replicate m.capacity empty

after_room-IsValid :
    (r : Result (Unit {0}) × Heap × Message)
    (next : Heap → Message → Result (Unit {0}) × Heap × Message)
    → IsValid r.2
    → ((h : Heap) (m : Message) → IsValid m → IsValid (next h m).2)
    → IsValid (after_room r next).2
unfolding after_room
after_room-IsValid (ok u, h, m) next v k = k h m v
after_room-IsValid (err x, h, m) next v k = v
after_room-IsValid (fault, h, m) next v k = v

after_value-IsValid :
    (r : Result ℕ × Value) (i : ℕ) (h : Heap) (m : Message)
    (next : ℕ → Message → Result (Unit {0}) × Heap × Message)
    → IsValid m
    → ((n : ℕ) (m' : Message) → IsValid m' → IsValid (next n m').2)
    → IsValid (after_value r i h m next).2
unfolding after_value
after_value-IsValid (ok n, w) i h m next v k = k n _ (length-set m.values i w ∙ v)
after_value-IsValid (err x, w) i h m next v k = length-set m.values i w ∙ v
after_value-IsValid (fault, w) i h m next v k = length-set m.values i w ∙ v

build_values-IsValid :
    (fuel : ℕ) (h : Heap) (m : Message) (i : ℕ) (bytes : List ℕ)
    → IsValid m
    → IsValid (build_values fuel h m i bytes).2
unfolding build_values
build_values-IsValid fuel h m i [] v = v
build_values-IsValid zero h m i (b ∷ bs) v = v
build_values-IsValid (suc fuel) h m i (b ∷ bs) v =
    after_room-IsValid (make_room h m i) _ (make_room-IsValid h m i v) (λ h1 m1 v1.
      after_value-IsValid (decode_value (get_or m1.values i empty) (b ∷ bs)) i h1 m1 _ v1
        (λ n m2 v2. build_values-IsValid fuel h1 m2 (i + 1) (drop n (b ∷ bs)) v2))

-- Building a message from any bytes keeps the structure invariant, whether it succeeds or not and
-- whatever the allocator answers.
pub build_from_buffer-IsValid :
    (h : Heap) (m : Message) (buffer : List ℕ)
    → IsValid m
    → IsValid (build_from_buffer h m buffer).2
unfolding build_from_buffer
build_from_buffer-IsValid h m buffer v =
    let argsize = read 4 (drop 4 buffer) in
    elim (Bool-cases (ltb (length buffer) 8)) [
      | inl e ↦ rw e v
      | inr e ↦ elim (Bool-cases (ltb (length buffer) (add_size 8 argsize))) [
        | inl k ↦ rw (e, k) v
        | inr k ↦
            rw (e, k)
              (build_values-IsValid (length buffer) h (record m { msgid = read 4 buffer }) 0
                (drop 8 buffer) v)
      ]
    ]

-- A message from `smp_message_new_with_id`, where the allocations are granted, has the id that is
-- asked for and eight empty slots, is not static, and satisfies the structure invariant.
pub new_with_id-IsValid :
    (h : Heap) (id : ℕ) {m : Message}
    → (new_with_id h id).0 ≡ some m
    → IsValid m × (m.msgid ≡ id) × (m.values ≡ replicate 8 empty) × (m.statically_allocated ≡ false)
unfolding new_with_id
new_with_id-IsValid h id e = ground arith

pub new_from_static_with_id-IsValid :
    (struct_size capacity id : ℕ) {m : Message}
    → new_from_static_with_id struct_size capacity id ≡ some m
    → IsValid m × (m.msgid ≡ id) × (m.values ≡ replicate capacity empty) × (0 < m.capacity)
unfolding new_from_static_with_id
new_from_static_with_id-IsValid struct_size capacity id e =
    ground (arith, length-replicate {0} capacity empty)
