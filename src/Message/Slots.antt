-- ===== src/Message/Slots.antt =====
-- The slots of a message: src/message.c, lines 685 to 737, 903 to 917 and 1240 to 1251.
use libsmp.Base.{
  ℕ, zero, suc, ◌≤◌, ◌<◌, ◌≡◌, refl, sym, arith, Bool, true, false, some, List, [], ◌∷◌, inl, inr,
  if◌then◌else◌, leb, length, get_or, lt→leb, Bool-cases, ◌==◌, ==→ne, ==_sound, get_or-set_self,
  get_or-set_ne,
}
use libsmp.Errors.{ok, err, not_found}
use libsmp.Message.Value.{Value, empty, is_none, type_of}
use libsmp.Message.Store.{Message, set_value, get_value, count_args, n_args}
use libsmp.Message.Invariant.{IsValid}

-- In a valid message, a value that is set at an index below the capacity is what a read of that
-- index gives, `not_found` if the value is empty, and every other index reads as before.
pub get_value-set_value :
    (m : Message) (i j : ℕ) (v : Value)
    → IsValid m
    → i < m.capacity
    → ((set_value m (some i) v).0 ≡ ok tt)
      × (get_value (set_value m (some i) v).1 (some j)
          ≡ (if j == i then (if is_none v then err not_found else ok v) else get_value m (some j)))
unfolding set_value get_value
get_value-set_value m i j v w lt = rw (lt→leb m.capacity i lt) (
  refl,
  elim (Bool-cases (j == i)) [
    | inl e ↦
        rw
          (
            e,
            ==_sound j i e,
            lt→leb m.capacity i lt,
            get_or-set_self m.values i v empty (omega arith),
          )
          refl
    | inr e ↦ rw (e, get_or-set_ne m.values v empty (λ p. ==→ne j i e (sym p))) refl
  ],
)

count_args_lem :
    (vs : List Value)
    → (count_args vs ≤ length vs)
      × ((i : ℕ) → i < count_args vs → is_none (get_or vs i empty) ≡ false)
      × (is_none (get_or vs (count_args vs) empty) ≡ true)
unfolding count_args
count_args_lem [] = (omega arith, λ i h. absurd (omega arith), unfold is_none type_of in refl)
count_args_lem (v ∷ vs) = elim (Bool-cases (is_none v)) [
  | inl e ↦ rw e (omega arith, (λ i h. absurd (omega arith)), e)
  | inr e ↦
      let (le, before, at) = count_args_lem vs in rw e (omega arith, (λ i h. each e i before h), at)
]
  where
    each :
        is_none v ≡ false
        → (i : ℕ) → ((j : ℕ) → j < count_args vs → is_none (get_or vs j empty) ≡ false)
        → i < suc (count_args vs)
        → is_none (get_or (v ∷ vs) i empty) ≡ false
    each e zero before h = e
    each e (suc i) before h = before i (omega arith)

if_same : {A : Type 0} (b : Bool) (x : A) → (if b then x else x) ≡ x
if_same true x = refl
if_same false x = refl

-- The number of arguments of a valid message is the index of its first empty slot, or the capacity
-- where no slot is empty: each index below it has a value, and the read of that index itself gives
-- `not_found`. Above 2 ^ 31 - 1 it is `overflow`.
pub n_args-get_value :
    (m : Message) {n : ℕ}
    → IsValid m
    → n_args m ≡ ok n
    → (n ≤ m.capacity)
      × ((i : ℕ) → i < n → get_value m (some i) ≡ ok (get_or m.values i empty))
      × (get_value m (some n) ≡ err not_found)
unfolding n_args get_value
n_args-get_value m {n} v e =
    let (le, before, at) = count_args_lem m.values in
    let count : n ≡ count_args m.values = ground arith in
    (
      omega arith,
      (λ i h. rw (lt→leb m.capacity i (omega arith), before i (omega arith)) refl),
      rw (count, at) (if_same (leb m.capacity (count_args m.values)) (err not_found)),
    )
