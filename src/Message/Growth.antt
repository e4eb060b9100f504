-- ===== src/Message/Growth.antt =====
-- A message of the library's own grows while it is built.
use libsmp.Base.{
  ℕ, zero, suc, ◌+◌, ◌-◌, ◌*◌, ◌%◌, ◌^◌, ◌≤◌, ◌<◌, ◌≡◌, ◌⊎◌, refl, sym, ap, ◌∙◌, arith, true, false,
  List, [], ◌∷◌, ◌++◌, inl, inr, length, replicate, All, length-append, append_assoc, append-nil,
  set, set-append, le→leb, lt→leb, le→ltb, ◌==◌,
}
use libsmp.Errors.{ok}
use libsmp.Heap.{Heap, realloc, realloc_granted}
use libsmp.Message.Value.{Value, empty}
use libsmp.Message.Store.{Message, next_pow2, set_capacity}
use libsmp.Message.Codec.{make_room, build_values, build_from_buffer, add_size}
use libsmp.Message.Format.{payload_of, message_bytes}
use libsmp.Message.Encoding.{IsSendable, payload_none, payload_some, length-payload}
use libsmp.Message.RoundTrip.{packed, build_step, build_from_buffer-payload}
use libsmp.Message.Rounding.{next_pow2-IsLeast}

-- a message of the library's own with these values in front and `k` empty slots behind them
abbrev pub holding : ℕ → List Value → ℕ → Message
holding id vs k = record {
  msgid = id;
  values = vs ++ replicate k empty;
  capacity = length vs + k;
  statically_allocated = false;
}

set_capacity_grows :
    (h : Heap) (m : Message) (capacity : ℕ)
    → m.statically_allocated ≡ false
    → ((i n : ℕ) → h.grant i n ≡ true)
    → m.capacity < capacity
    → (h' : Heap) × (h'.grant ≡ h.grant)
      × (set_capacity h m capacity ≡ (
        ok tt,
        h',
        record m {
          values = m.values ++ replicate (capacity - m.capacity) empty;
          capacity = capacity;
        },
      ))
unfolding set_capacity
set_capacity_grows h m capacity s g less =
    let (granted, same) = realloc_granted h true (capacity * 24 % 2 ^ 64) (g h.calls _) in
    let different : (capacity == m.capacity) ≡ false = ground arith in
    (
      (realloc h true (capacity * 24 % 2 ^ 64)).1,
      same,
      rw (granted, s, le→ltb capacity m.capacity (omega arith), different) refl,
    )

same_slots :
    (vs : List Value) (capacity : ℕ)
    → length vs < capacity
    → (vs ++ []) ++ replicate (capacity - (length vs + 0)) empty
      ≡ vs ++ replicate (suc (capacity - length vs - 1)) empty
same_slots vs capacity less =
    let count : capacity - (length vs + 0) ≡ suc (capacity - length vs - 1) = omega arith in
    append_assoc vs [] (replicate (capacity - (length vs + 0)) empty)
    ∙ ap (λ t. vs ++ replicate t empty) count

-- Room for one more value: there is an empty slot already, or the capacity is raised, to less than
-- twice the number of values.
room :
    (h : Heap) (id : ℕ) (vs : List Value) (k : ℕ)
    → ((i n : ℕ) → h.grant i n ≡ true)
    → length vs < 2 ^ 62
    → (h' : Heap) × (j : ℕ) × (h'.grant ≡ h.grant)
      × (make_room h (holding id vs k) (length vs) ≡ (ok tt, h', holding id vs (suc j)))
      × ((suc j ≡ k) ⊎ (length vs + suc j < 2 * (length vs + 1)))
unfolding make_room
room h id vs (suc j) g small =
    (h, j, refl, rw (lt→leb (length vs + suc j) (length vs) (omega arith)) refl, inl refl)
room h id vs zero g small =
    let n = length vs in
    let p = next_pow2 (n + 1) in
    let (e, value, above, least) = next_pow2-IsLeast (n + 1) (omega arith) (omega arith) in
    let (h', same, grown) = set_capacity_grows h (holding id vs 0) p refl g (omega arith) in
    let next : add_size (n + 0) 1 ≡ n + 1 = omega arith in
    let total : p ≡ n + suc (p - n - 1) = omega arith in
    (
      h',
      p - n - 1,
      same,
      rw (le→leb (n + 0) n (omega arith), next)
          (grown ∙ (λ i. (
            ok tt,
            h',
            record {
              msgid = id;
              values = same_slots vs p (omega arith) i;
              capacity = total i;
              statically_allocated = false;
            },
          ))),
      inr (omega arith),
    )

bound_step :
    (n p j j2 k : ℕ) {n' : ℕ}
    → n + 1 ≡ n'
    → (suc j ≡ k) ⊎ (n + suc j < 2 * (n + 1))
    → (n' + p + j2 ≡ n' + j) ⊎ (n' + p + j2 < 2 * (n' + p))
    → (n + suc p + j2 ≡ n + k) ⊎ (n + suc p + j2 < 2 * (n + suc p))
bound_step n p j j2 k e (inl a) (inl b) = inl (omega arith)
bound_step n p j j2 k e (inr a) (inl b) = inr (omega arith)
bound_step n p j j2 k e _ (inr b) = inr (omega arith)

-- The loop on a payload, in a message of the library's own, where every request is granted, fills
-- the slots behind `vs` with the values, and makes more slots where it needs them: the capacity is
-- what it was, or less than twice the number of values.
pub build_values-grows :
    (vs : List Value) (fuel : ℕ) (h : Heap) (id : ℕ) (filled : List Value) (k : ℕ)
    → ((i n : ℕ) → h.grant i n ≡ true)
    → All IsSendable vs
    → length (payload_of vs) ≤ fuel
    → length filled + length (payload_of vs) < 2 ^ 62
    → (h' : Heap) × (j : ℕ) × (build_values fuel h
          (holding id filled k)
          (length filled)
          (payload_of vs)
        ≡ (ok tt, h', holding id (filled ++ packed vs) j))
      × ((length filled + length (packed vs) + j ≡ length filled + k)
          ⊎ (length filled + length (packed vs) + j < 2 * (length filled + length (packed vs))))
unfolding packed
build_values-grows [] fuel h id filled k g s f small = (
  h,
  k,
  unfold build_values payload_of in ap (λ t. (ok tt, h, holding id t k)) (sym (append-nil filled)),
  inl (omega arith),
)
build_values-grows (v ∷ vs) fuel h id filled k g (inl n, s) f small =
    rw (payload_none v vs n, n)
      (build_values-grows vs fuel h id filled k g s (rw (payload_none v vs n) at f)
        (rw (payload_none v vs n) at small))
build_values-grows (v ∷ vs) zero h id filled k g (inr (n, c), s) f small =
    absurd (omega (arith, length-payload v vs n))
build_values-grows (v ∷ vs) (suc fuel) h id filled k g (inr (n, c), s) f small =
    let long = length-payload v vs n in
    let (h1, j, same, made, bound) = room h id filled k g (omega arith) in
    let snoc = length-append {0} filled (v ∷ []) in
    let one : length filled + 1 ≡ length (filled ++ (v ∷ [])) = omega arith in
    let (h2, j2, rest, bound2) =
      build_values-grows vs fuel h1 id (filled ++ (v ∷ [])) j (λ i l. ap (λ p. p i l) same ∙ g i l)
        s (omega arith) (omega arith) in
    let slots : set (filled ++ (empty ∷ replicate j empty)) (length filled) v
        ≡ (filled ++ (v ∷ [])) ++ replicate j empty =
      set-append filled empty (replicate j empty) v
      ∙ sym (append_assoc filled (v ∷ []) (replicate j empty)) in
    let total : length filled + suc j ≡ length (filled ++ (v ∷ [])) + j = omega arith in
    rw (payload_some v vs n, n)
      (
        h2,
        j2,
        build_step v (payload_of vs) fuel (length filled) h (holding id filled k) c made
            ∙ (λ i.
                build_values fuel h1
                  (record {
                    msgid = id;
                    values = slots i;
                    capacity = total i;
                    statically_allocated = false;
                  })
                  (one i) (payload_of vs))
            ∙ rest
            ∙ ap (λ t. (ok tt, h2, holding id t j2)) (append_assoc filled (v ∷ []) (packed vs)),
        bound_step (length filled) (length (packed vs)) j j2 k one bound bound2,
      )

-- An empty message of the library's own, where every request for memory is granted, takes any number
-- of values: a message that was encoded from values that can be sent, with an id and a payload below
-- 2 ^ 32, is built again with its id and the values that are not empty, in order, and with empty
-- slots behind them. Its capacity is what it was, or less than twice the number of values.
pub build_from_buffer-grows :
    (id old : ℕ) (vs : List Value) (h : Heap) (k : ℕ)
    → ((i n : ℕ) → h.grant i n ≡ true)
    → All IsSendable vs
    → id < 2 ^ 32
    → length (payload_of vs) < 2 ^ 32
    → (h' : Heap) × (j : ℕ) × (build_from_buffer h (holding old [] k) (message_bytes id vs)
        ≡ (ok tt, h', holding id (packed vs) j))
      × ((length (packed vs) + j ≡ k) ⊎ (length (packed vs) + j < 2 * length (packed vs)))
build_from_buffer-grows id old vs h k g s i w =
    let (h', j, built, bound) =
      build_values-grows vs (8 + length (payload_of vs)) h id [] k g s (omega arith)
        (omega arith) in
    (h', j, build_from_buffer-payload id vs h (holding old [] k) i w ∙ built, ground arith)
