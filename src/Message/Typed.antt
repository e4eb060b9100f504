-- ===== src/Message/Typed.antt =====
-- What the typed setters store, the typed getters give back.
use libsmp.Base.{
  ℕ, ◌%◌, ◌^◌, sym, ◌<◌, ◌≡◌, ◌≢◌, refl, ap, ◌∙◌, arith, false, some, List, [], ◌∷◌, lt→leb,
  ==_refl, ne→==,
}
use libsmp.Errors.{ok}
use libsmp.Message.Value.{
  SmpType, uint8, int8, uint16, int16, uint32, int32, uint64, int64, string, f32, f64, raw, Value,
  scalar, cstring, craw, untyped, to_code, type_of, type_size, is_none,
}
use libsmp.Message.Store.{Message, get_value, set_value}
use libsmp.Message.Invariant.{IsValid, set_value-IsValid}
use libsmp.Message.Slots.{get_value-set_value}
use libsmp.Message.Access.{
  Arg, uint8_arg, int8_arg, uint16_arg, int16_arg, uint32_arg, int32_arg, uint64_arg, int64_arg,
  f32_arg, f64_arg, string_arg, raw_arg, type_only, value_of, set_loop, set_valist, get_loop,
  get_valist, after_get, after_fetch, fetch, after_set,
}

-- an argument with a value
abbrev pub IsTyped : Arg → Type 0
IsTyped (type_only t) = ⊥
IsTyped a = Unit {0}

-- The index is new in the list.
abbrev pub IsFresh : ℕ → List (ℕ × Arg) → Type 0
IsFresh i [] = Unit {0}
IsFresh i ((j, a) ∷ rest) = (i ≢ j) × IsFresh i rest

-- Each item has a value, and an index below `capacity` that no other item has.
abbrev pub IsSettable : ℕ → List (ℕ × Arg) → Type 0
IsSettable capacity [] = Unit {0}
IsSettable capacity ((i, a) ∷ rest) =
    IsTyped a × (i < capacity) × IsFresh i rest × IsSettable capacity rest

module _ (to_float : ℕ → ℕ) where
  -- what the setter makes of the items: the types, and the values
  unfoldable stored_types : List (ℕ × Arg) → List (ℕ × SmpType)
  stored_types [] = []
  stored_types ((i, a) ∷ rest) = (i, type_of (value_of to_float a)) ∷ stored_types rest

  unfoldable stored_values : List (ℕ × Arg) → List Value
  stored_values [] = []
  stored_values ((i, a) ∷ rest) = value_of to_float a ∷ stored_values rest

  set_in_range :
      (m : Message) (i : ℕ) (v : Value)
      → i < m.capacity
      → set_value m (some i) v ≡ (ok tt, (set_value m (some i) v).1)
  unfolding set_value
  set_in_range m i v h = rw (lt→leb m.capacity i h) refl

  same_capacity :
      (m : Message) (i : ℕ) (v : Value) → (set_value m (some i) v).1.capacity ≡ m.capacity
  unfolding set_value
  same_capacity m i v = ground arith

  -- the message after the first item of a list
  abbrev first_set : Message → ℕ → Arg → Message
  first_set m i a = (set_value m (some i) (value_of to_float a)).1

  set_loop_step :
      (rest : List (ℕ × Arg)) (m : Message) (i : ℕ) (a : Arg)
      → i < m.capacity
      → set_loop to_float m ((i, a) ∷ rest) ≡ set_loop to_float (first_set m i a) rest
  unfolding set_loop after_set
  set_loop_step rest m i a h =
      ap (λ r. after_set r (λ m'. set_loop to_float m' rest))
        (set_in_range m i (value_of to_float a) h)

  IsSettable-after :
      (rest : List (ℕ × Arg)) (m : Message) (i : ℕ) (a : Arg)
      → IsSettable m.capacity rest
      → IsSettable (first_set m i a).capacity rest
  IsSettable-after rest m i a s = rw (same_capacity m i (value_of to_float a)) s

  -- The items of a list do not change the slots that they do not name.
  set_loop_other :
      (items : List (ℕ × Arg)) (m : Message) (i : ℕ)
      → IsValid m
      → IsSettable m.capacity items
      → IsFresh i items
      → get_value (set_loop to_float m items).1 (some i) ≡ get_value m (some i)
  unfolding set_loop
  set_loop_other [] m i v s f = refl
  set_loop_other ((j, a) ∷ rest) m i v (t, lt, fresh, s) (ne, f) =
      let m1 = first_set m j a in
      let (done, kept) = get_value-set_value m j i (value_of to_float a) v lt in
      ap (λ r. get_value r.1 (some i)) (set_loop_step rest m j a lt)
      ∙ set_loop_other rest m1 i (set_value-IsValid m (some j) (value_of to_float a) v)
          (IsSettable-after rest m j a s) f
      ∙ (rw (ne→== i j ne) at kept)

  set_loop_ok :
      (items : List (ℕ × Arg)) (m : Message)
      → IsSettable m.capacity items
      → (set_loop to_float m items).0 ≡ ok tt
  unfolding set_loop
  set_loop_ok [] m s = refl
  set_loop_ok ((i, a) ∷ rest) m (t, lt, fresh, s) =
      ap (λ r. r.0) (set_loop_step rest m i a lt)
      ∙ set_loop_ok rest (first_set m i a) (IsSettable-after rest m i a s)

  -- A typed value is not empty, and is fetched by its type.
  typed_lem :
      (a : Arg)
      → IsTyped a
      → (is_none (value_of to_float a) ≡ false)
        × (fetch (type_of (value_of to_float a)) (value_of to_float a) ≡ ok (value_of to_float a))
  unfolding value_of fetch is_none type_of
  typed_lem (type_only t) h = absurd h
  typed_lem a h = (refl, refl)

  get_loop-set_loop :
      (items : List (ℕ × Arg)) (m : Message)
      → IsValid m
      → IsSettable m.capacity items
      → get_loop (set_loop to_float m items).1 (stored_types items) ≡ (ok tt, stored_values items)
  unfolding set_loop get_loop stored_types stored_values after_get after_fetch
  get_loop-set_loop [] m v s = refl
  get_loop-set_loop ((i, a) ∷ rest) m v (t, lt, fresh, s) =
      let m1 = first_set m i a in
      let v1 = set_value-IsValid m (some i) (value_of to_float a) v in
      let s1 = IsSettable-after rest m i a s in
      let (done, got) = get_value-set_value m i i (value_of to_float a) v lt in
      let (full, fetched) = typed_lem a t in
      let first : get_value m1 (some i) ≡ ok (value_of to_float a) = rw (==_refl i, full) at got in
      ap (λ r. get_loop r.1 (stored_types ((i, a) ∷ rest))) (set_loop_step rest m i a lt)
      ∙ rw
          (
            set_loop_other rest m1 i v1 s1 fresh,
            first,
            ==_refl (to_code (type_of (value_of to_float a))),
            fetched,
            get_loop-set_loop rest m1 v1 s1,
          )
          refl

  stored-set_valist :
      (item : ℕ × Arg) (items : List (ℕ × Arg)) (m : Message)
      → IsValid m
      → IsSettable m.capacity (item ∷ items)
      → ((set_valist to_float m (item ∷ items)).0 ≡ ok tt)
        × (get_valist (set_valist to_float m (item ∷ items)).1 (stored_types (item ∷ items))
            ≡ (ok tt, stored_values (item ∷ items)))
  unfolding set_valist get_valist stored_types
  stored-set_valist item items m v s =
      (set_loop_ok (item ∷ items) m s, get_loop-set_loop (item ∷ items) m v s)

-- the type that is named before an argument
abbrev pub named : Arg → SmpType
named (uint8_arg n) = uint8
named (int8_arg n) = int8
named (uint16_arg n) = uint16
named (int16_arg n) = int16
named (uint32_arg n) = uint32
named (int32_arg n) = int32
named (uint64_arg n) = uint64
named (int64_arg n) = int64
named (f32_arg n) = f32
named (f64_arg n) = f64
named (string_arg s) = string
named (raw_arg p n) = raw
named (type_only t) = t

-- the low bits of a number, as many as a value of the type has
abbrev integer : SmpType → ℕ → Value
integer t n = scalar t (n % 256 ^ type_size t)

-- What is to be stored: an integer cut to the width of its type, and any other argument as it is, a
-- `double` for a `float` converted.
abbrev pub given : (ℕ → ℕ) → Arg → Value
given to_float (f32_arg n) = scalar f32 (to_float n)
given to_float (f64_arg n) = scalar f64 n
given to_float (string_arg s) = cstring s
given to_float (raw_arg p n) = craw p n
given to_float (type_only t) = untyped t
given to_float (uint8_arg n) = integer uint8 n
given to_float (int8_arg n) = integer int8 n
given to_float (uint16_arg n) = integer uint16 n
given to_float (int16_arg n) = integer int16 n
given to_float (uint32_arg n) = integer uint32 n
given to_float (int32_arg n) = integer int32 n
given to_float (uint64_arg n) = integer uint64 n
given to_float (int64_arg n) = integer int64 n

-- the reads that ask for the types that the items name
unfoldable pub requests : List (ℕ × Arg) → List (ℕ × SmpType)
requests [] = []
requests ((i, a) ∷ rest) = (i, named a) ∷ requests rest

module _ (to_float : ℕ → ℕ) where
  unfoldable pub values_of : List (ℕ × Arg) → List Value
  values_of [] = []
  values_of ((i, a) ∷ rest) = given to_float a ∷ values_of rest

  value_of-given :
      (a : Arg)
      → (value_of to_float a ≡ given to_float a) × (type_of (value_of to_float a) ≡ named a)
  unfolding value_of type_of type_size
  value_of-given (type_only t) = (refl, refl)
  value_of-given a = (refl, refl)

  types_lem : (items : List (ℕ × Arg)) → stored_types to_float items ≡ requests items
  unfolding stored_types requests
  types_lem [] = refl
  types_lem ((i, a) ∷ rest) = rw ((value_of-given a).1, types_lem rest) refl

  values_lem : (items : List (ℕ × Arg)) → stored_values to_float items ≡ values_of items
  unfolding stored_values values_of
  values_lem [] = refl
  values_lem ((i, a) ∷ rest) = rw ((value_of-given a).0, values_lem rest) refl

  -- In a valid message, setting a list of typed values at different indices below the capacity
  -- succeeds, and a get of the same indices with the types that were named then succeeds and stores
  -- exactly these values, each integer cut to the width of its type.
  pub get_valist-set_valist :
      (item : ℕ × Arg) (items : List (ℕ × Arg)) (m : Message)
      → IsValid m
      → IsSettable m.capacity (item ∷ items)
      → ((set_valist to_float m (item ∷ items)).0 ≡ ok tt)
        × (get_valist (set_valist to_float m (item ∷ items)).1 (requests (item ∷ items))
            ≡ (ok tt, values_of (item ∷ items)))
  get_valist-set_valist item items m v s =
      let (done, got) = stored-set_valist to_float item items m v s in
      (
        done,
        ap (get_valist (set_valist to_float m (item ∷ items)).1) (sym (types_lem (item ∷ items)))
            ∙ got
            ∙ ap (λ vs. (ok tt, vs)) (values_lem (item ∷ items)),
      )
