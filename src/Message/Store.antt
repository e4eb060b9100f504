-- ===== src/Message/Store.antt =====
-- The message as a container: src/message.c, lines 366 to 737 and 903 to 917, 1240 to 1251.
use libsmp.Base.{
  ℕ, suc, ◌+◌, ◌-◌, ◌*◌, ◌/◌, ◌%◌, ◌^◌, Bool, true, false, Option, none, some, List, [], ◌∷◌, ◌++◌,
  ◌==◌, if◌then◌else◌, ltb, leb, get_or, set, replicate, bit_or,
}
use libsmp.Errors.{Result, ok, err, invalid_param, no_mem, not_found, not_supported, overflow}
use libsmp.Heap.{Heap, alloc, realloc, free}
use libsmp.Message.Value.{Value, empty, is_none}

-- `SmpMessage` of src/libsmp-private.h. `values` is the memory of the `capacity` values.
pub record Message : Type 0 where
  pub msgid : ℕ
  pub values : List Value
  pub capacity : ℕ
  pub statically_allocated : Bool

abbrev pub default_capacity : ℕ
default_capacity = 8

-- sizes on a 64-bit target
abbrev pub sizeof_message : ℕ
sizeof_message = 32

abbrev pub sizeof_value : ℕ
sizeof_value = 24

-- `v |= v >> k`
abbrev pub or_shift : ℕ → ℕ → ℕ
or_shift k v = bit_or v (v / 2 ^ k)

-- `next_pow2` for a `size_t` of eight bytes
unfoldable pub next_pow2 : ℕ → ℕ
next_pow2 v =
    let v1 = (v + 2 ^ 64 - 1) % 2 ^ 64 in
    let v2 = or_shift 32 (or_shift 16 (or_shift 8 (or_shift 4 (or_shift 2 (or_shift 1 v1))))) in
    (v2 + 1) % 2 ^ 64

-- `smp_message_new_with_id`
unfoldable pub new_with_id : Heap → ℕ → Option Message × Heap
new_with_id h id =
    let (granted, h1) = alloc h sizeof_message in
    let (granted', h2) = alloc h1 (default_capacity * sizeof_value) in
    if granted
    then (if granted'
        then (
          some (record {
            msgid = id;
            values = replicate default_capacity empty;
            capacity = default_capacity;
            statically_allocated = false;
          }),
          h2,
        )
        else (none, free h2))
    else (none, h1)

-- `smp_message_new`
unfoldable pub new : Heap → Option Message × Heap
unfolding new_with_id
new h = new_with_id h 0

-- `smp_message_new_from_static_with_id`, over the caller's storage for `capacity` values
unfoldable pub new_from_static_with_id : ℕ → ℕ → ℕ → Option Message
new_from_static_with_id struct_size capacity id =
    if ltb struct_size sizeof_message
    then none
    else if capacity == 0
    then none
    else some (record {
      msgid = id;
      values = replicate capacity empty;
      capacity = capacity;
      statically_allocated = true;
    })

-- `smp_message_new_from_static`
unfoldable pub new_from_static : ℕ → ℕ → Option Message
unfolding new_from_static_with_id
new_from_static struct_size capacity = new_from_static_with_id struct_size capacity 0

-- `smp_message_get_capacity`
unfoldable pub get_capacity : Message → ℕ
get_capacity m = m.capacity

-- `smp_message_get_msgid`
unfoldable pub get_msgid : Message → ℕ
get_msgid m = m.msgid

-- `smp_message_set_id`
unfoldable pub set_id : Message → ℕ → Message
set_id m id = record m { msgid = id }

-- `smp_message_free`: the values and the structure
unfoldable pub free_message : Heap → Message → Heap
free_message h m = if m.statically_allocated then h else free (free h)

-- `smp_message_clear`
unfoldable pub clear : Message → Message
clear m = record m { msgid = 0; values = replicate m.capacity empty }

-- `smp_message_set_capacity`
unfoldable pub set_capacity : Heap → Message → ℕ → Result (Unit {0}) × Heap × Message
set_capacity h m capacity =
    let (granted, h') = realloc h true (capacity * sizeof_value % 2 ^ 64) in
    if m.statically_allocated
    then (err not_supported, h, m)
    else if ltb capacity m.capacity
    then (err invalid_param, h, m)
    else if capacity == m.capacity
    then (ok tt, h, m)
    else if granted
    then (
      ok tt,
      h',
      record m {
        values = m.values ++ replicate (capacity - m.capacity) empty;
        capacity = capacity;
      },
    )
    else (err no_mem, h', m)

-- the loop of `smp_message_n_args`
unfoldable pub count_args : List Value → ℕ
count_args [] = 0
count_args (v ∷ vs) = let rest = count_args vs in if is_none v then 0 else suc rest

-- `smp_message_n_args`
unfoldable pub n_args : Message → Result ℕ
n_args m = let i = count_args m.values in if ltb (2 ^ 31 - 1) i then err overflow else ok i

-- `smp_message_get_value`; a negative index is `none`
unfoldable pub get_value : Message → Option ℕ → Result Value
get_value m none = err invalid_param
get_value m (some index) =
    let v = get_or m.values index empty in
    if leb m.capacity index then err not_found else if is_none v then err not_found else ok v

-- `smp_message_set_value`
unfoldable pub set_value : Message → Option ℕ → Value → Result (Unit {0}) × Message
set_value m none v = (err invalid_param, m)
set_value m (some index) v =
    if leb m.capacity index
    then (err not_found, m)
    else (ok tt, record m { values = set m.values index v })
