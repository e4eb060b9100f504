-- ===== src/Device/Arduino/Opening.antt =====
-- Opening a device by its name: src/serial-device-arduino.cpp, lines 149 to 192.
use libsmp.Base.{
  ℕ, zero, suc, ◌+◌, ◌<◌, ◌≡◌, refl, ap, ◌∙◌, arith, true, false, Option, none, some, List, [], ◌∷◌,
  inl, inr, length, Bool-cases,
}
use libsmp.Errors.{Result, ok, err, no_device}
use libsmp.Device.Config.{same_text}
use libsmp.Device.Arduino.Core.{Core}
use libsmp.Device.Arduino.Port.{Port, fd_by_name, get_device_from_fd, open_port}
use libsmp.Device.Arduino.Settings.{asked, ReadyAfter, await_lem}

-- Where a name stands in a map: nowhere, or first at the number `i`.
pub data Position (name : List ℕ) : List (List ℕ) → Option ℕ → Type 0 where
  nowhere : Position name [] none
  here :
      {n : List ℕ} {names : List (List ℕ)}
      → same_text name n ≡ true
      → Position name (n ∷ names) (some 0)
  behind :
      {n : List ℕ} {names : List (List ℕ)} {i : ℕ}
      → same_text name n ≡ false
      → Position name names (some i)
      → Position name (n ∷ names) (some (suc i))
  missing :
      {n : List ℕ} {names : List (List ℕ)}
      → same_text name n ≡ false
      → Position name names none
      → Position name (n ∷ names) none

abbrev shift : ℕ → Option ℕ → Option ℕ
shift k none = none
shift k (some i) = some (k + i)

pub fd_by_name-Position :
    (names : List (List ℕ)) (name : List ℕ) (k : ℕ)
    → (o : Option ℕ) × (fd_by_name names name k ≡ shift k o) × Position name names o
unfolding fd_by_name
fd_by_name-Position [] name k = (none, refl, nowhere)
fd_by_name-Position (n ∷ names) name k = elim (Bool-cases (same_text name n)) [
  | inl e ↦ let start : k ≡ k + 0 = omega arith in rw e (some 0, ap some start, here e)
  | inr e ↦ rw e (next e (fd_by_name-Position names name (k + 1)))
]
  where
    next :
        same_text name n ≡ false
        → (o : Option ℕ) × (fd_by_name names name (k + 1) ≡ shift (k + 1) o) × Position name names o
        → (o : Option ℕ) × (fd_by_name names name (k + 1) ≡ shift k o) × Position name (n ∷ names) o
    next e (none, found, p) = (none, found, missing e p)
    next e (some i, found, p) =
        let one : k + 1 + i ≡ k + suc i = omega arith in
        (some (suc i), found ∙ ap some one, behind e p)

Position-bound :
    (name : List ℕ) (names : List (List ℕ)) (i : ℕ)
    → Position name names (some i)
    → i < length names
Position-bound name [] i p = elim p [ ]
Position-bound name (n ∷ names) zero p = omega arith
Position-bound name (n ∷ names) (suc i) (behind e p) = omega (arith, Position-bound name names i p)

module _ {W : Type 0} (core : Core W) (devmap : List (List ℕ)) where
  -- What opening a device ends with.
  pub data Opened (n : ℕ) (p : Port) (w : W) (path : List ℕ)
      : Option (Result (Unit {0}) × Port × W) → Type 0 where
    unknown : Position path devmap none → Opened n p w path (some (err no_device, p, w))
    opened :
        (i : ℕ)
        → Position path devmap (some i)
        → get_device_from_fd core devmap (some i) ≡ some i
        → Opened n p w path
            (some (ok tt, record { fd = some i }, asked core (suc n) (core.begin w i 115200) i))

  found : (i : ℕ) → i < length devmap → get_device_from_fd core devmap (some i) ≡ some i
  unfolding get_device_from_fd
  found i b = ground (arith, b)

  -- Where every device of the map is ready after it was asked `n` times behind a begin, and with more fuel than
  -- that, opening a device ends: with an error, and without any call of the core, for a name that is not
  -- in the map; else with success, the first device of that name begun, and it is the one that the other
  -- functions then use.
  pub open_port-Opened :
      (n fuel : ℕ) (p : Port) (w : W) (path : List ℕ)
      → ((i : ℕ) → i < length devmap → ReadyAfter core n (core.begin w i 115200) i)
      → n < fuel
      → Opened n p w path (open_port core devmap fuel p w path)
  unfolding open_port
  open_port-Opened n fuel p w path r b = by_name (fd_by_name-Position devmap path 0)
    where
      by_name :
          (o : Option ℕ) × (fd_by_name devmap path 0 ≡ shift 0 o) × Position path devmap o
          → Opened n p w path (open_port core devmap fuel p w path)
      by_name (none, e, at) = rw e (unknown at)
      by_name (some i, e, at) =
          let zero_plus : 0 + i ≡ i = omega arith in
          rw
            (
              e,
              zero_plus,
              await_lem core devmap n fuel (core.begin w i 115200) i
                  (r i (Position-bound path devmap i at)) b,
            )
            (opened i at (found i (Position-bound path devmap i at)))
