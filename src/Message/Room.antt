-- ===== src/Message/Room.antt =====
-- How the message that is built gets a slot for its next value: src/message.c, lines 421 to 433.
use libsmp.Base.{
  ℕ, ◌+◌, ◌-◌, ◌*◌, ◌^◌, ◌≤◌, ◌<◌, ◌≡◌, refl, sym, arith, List, [], ◌++◌, inl, inr, leb, Bool, true,
  false, if◌then◌else◌, leb→le, leb→lt, Bool-cases, replicate, append-nil, length-append, le→ltb,
  length-replicate, ◌==◌, ◌%◌,
}
use libsmp.Errors.{ok, err, fault, too_big}
use libsmp.Heap.{Heap, realloc}
use libsmp.Message.Value.{Value, empty}
use libsmp.Message.Store.{Message, set_capacity, next_pow2}
use libsmp.Message.Codec.{Build, make_room, add_size}
use libsmp.Message.Invariant.{IsValid}
use libsmp.Message.Rounding.{next_pow2-IsLeast}

-- There is a slot number `i`, and the slots that were there are as they were.
abbrev pub Room : Message → ℕ → Build → Type 0
Room m i (ok _, h, m1) =
    IsValid m1
    × (i < m1.capacity)
    × (m1.msgid ≡ m.msgid)
    × ((extra : List Value) × (m1.values ≡ m.values ++ extra))
Room m i (err e, h, m1) = Unit {0}
Room m i (fault, h, m1) = Unit {0}

set_capacity-Room :
    (h : Heap) (m : Message) (i capacity : ℕ)
    → IsValid m
    → m.capacity < capacity
    → i < capacity
    → Room m i (set_capacity h m capacity)
unfolding set_capacity
set_capacity-Room h m i capacity v more inside =
    let size = capacity * 24 % 2 ^ 64 in
    let different : (capacity == m.capacity) ≡ false = ground arith in
    elim (Bool-cases m.statically_allocated) [
      | inl e ↦ rw e tt
      | inr e ↦ elim (Bool-cases (realloc h true size).0) [
        | inr g ↦ rw (e, le→ltb capacity m.capacity (omega arith), different, g) tt
        | inl g ↦
            rw (e, le→ltb capacity m.capacity (omega arith), different, g)
              (
                omega (
                  arith,
                  length-append {0} m.values (replicate (capacity - m.capacity) empty),
                  length-replicate {0} (capacity - m.capacity) empty,
                ),
                inside,
                refl,
                (replicate (capacity - m.capacity) empty, refl),
              )
      ]
    ]

either_Room :
    (m : Message) (i : ℕ) (h : Heap) (r : Build) (b : Bool)
    → Room m i r
    → Room m i (if b then (err too_big, h, m) else r)
either_Room m i h r true c = tt
either_Room m i h r false c = c

pub make_room-Room :
    (h : Heap) (m : Message) (i : ℕ)
    → IsValid m
    → i ≤ m.capacity
    → i < 2 ^ 62
    → Room m i (make_room h m i)
unfolding make_room
make_room-Room h m i v le small = elim (Bool-cases (leb m.capacity i)) [
  | inr e ↦ rw e (v, leb→lt m.capacity i e, refl, ([], sym (append-nil m.values)))
  | inl e ↦
      let full = leb→le m.capacity i e in
      let (k, value, above, least) =
        next_pow2-IsLeast (m.capacity + 1) (omega arith) (omega arith) in
      let next : add_size m.capacity 1 ≡ m.capacity + 1 = omega arith in
      rw (e, next)
        (either_Room m i h _ m.statically_allocated
          (set_capacity-Room h m i (next_pow2 (m.capacity + 1)) v (omega arith) (omega arith)))
]
