-- ===== src/Device/Avr/Live.antt =====
-- Reads of the open device of a board while bytes keep arriving: src/serial-device-avr.c, lines 154 to
-- 160 and 559 to 579.
use libsmp.Base.{
  ℕ, zero, suc, ◌+◌, ◌*◌, ◌≤◌, ◌<◌, ◌≡◌, refl, sym, ap, ◌∙◌, arith, List, [], ◌∷◌, ◌++◌, length,
  min, replicate, length-append, append_assoc,
}
use libsmp.Errors.{Result, ok, fault}
use libsmp.Device.Avr.Uart.{UartDevice}
use libsmp.Device.Avr.Ring.{Holds}
use libsmp.Device.Avr.Steps.{
  Reading, testing, copying, counting, wrapping, finished, Event, turn, interrupt, play, arrived,
  turns,
}
use libsmp.Device.Avr.Interleaving.{play-finished}

-- A device, and what happens in each of the next reads: the interrupts among the first turns of the
-- program, which then runs on to the end of the read. No interrupts come in the reads after these.
pub record LiveDevice : Type 0 where
  pub device : UartDevice
  pub coming : List (List Event)

-- the bytes that are still to arrive
unfoldable pub to_arrive : List (List Event) → List ℕ
to_arrive [] = []
to_arrive (events ∷ later) = arrived events ++ to_arrive later

abbrev pub first_read : List (List Event) → List Event
first_read [] = []
first_read (events ∷ later) = events

abbrev pub later_reads : List (List Event) → List (List Event)
later_reads [] = []
later_reads (events ∷ later) = later

-- the end of a read; a read that is not over does not occur
abbrev pub result_of : Reading → List (List Event) → Result (List ℕ) × LiveDevice
result_of (finished dev out) later = (ok out, record { device = dev; coming = later })
result_of (testing dev n out) later = (fault, record { device = dev; coming = later })
result_of (copying dev n out) later = (fault, record { device = dev; coming = later })
result_of (counting dev n out) later = (fault, record { device = dev; coming = later })
result_of (wrapping dev n out) later = (fault, record { device = dev; coming = later })

module _ (size : ℕ) where
  -- `smp_serial_device_read` of at most `n` bytes
  unfoldable pub live_read : LiveDevice → ℕ → Result (List ℕ) × LiveDevice
  live_read l n =
      result_of
        (play size (testing l.device n []) (first_read l.coming ++ replicate (4 * n + 1) turn))
        (later_reads l.coming)

arrived-append :
    (events : List Event) (n : ℕ) → arrived (events ++ replicate n turn) ≡ arrived events
unfolding arrived
arrived-append [] zero = refl
arrived-append [] (suc n) = arrived-append [] n
arrived-append (turn ∷ events) n = arrived-append events n
arrived-append (interrupt byte ∷ events) n = ap (λ t. byte ∷ t) (arrived-append events n)

turns-append : (events : List Event) (n : ℕ) → n ≤ turns (events ++ replicate n turn)
unfolding turns
turns-append [] zero = omega arith
turns-append [] (suc n) = omega (arith, turns-append [] n)
turns-append (turn ∷ events) n = omega (arith, turns-append events n)
turns-append (interrupt byte ∷ events) n = turns-append events n

first_later :
    (coming : List (List Event))
    → to_arrive coming ≡ arrived (first_read coming) ++ to_arrive (later_reads coming)
unfolding to_arrive arrived
first_later [] = refl
first_later (events ∷ later) = refl

module _ (size : ℕ) (pos : 0 < size) (word : size ≤ 256) where
  -- A read took the bytes `out`, and leaves the bytes `rest` in the device.
  pub record Took (l : LiveDevice) (q : List ℕ) (n : ℕ) (out : List ℕ) (rest : List ℕ)
      (l' : LiveDevice) : Type 0 where
    pub answer : live_read size l n ≡ (ok out, l')
    pub left : Holds size pos word l'.device rest
    pub in_order : out ++ (rest ++ to_arrive l'.coming) ≡ q ++ to_arrive l.coming
    pub waiting : min n (length q) ≤ length out
    pub kept : length q ≤ length out + length rest

  pub live_read-Took :
      (l : LiveDevice) (q : List ℕ) (n : ℕ)
      → Holds size pos word l.device q
      → length q + length (to_arrive l.coming) < size
      → (out : List ℕ) × (rest : List ℕ) × (l' : LiveDevice) × Took l q n out rest l'
  unfolding live_read
  live_read-Took l q n v small =
      let events = first_read l.coming ++ replicate (4 * n + 1) turn in
      let later = later_reads l.coming in
      let here = arrived-append (first_read l.coming) (4 * n + 1) in
      let all = first_later l.coming in
      let count = length-append {0} (arrived (first_read l.coming)) (to_arrive later) in
      let (dev', out, rest, done, v', e, most, least) =
        play-finished size pos word events l.device q n v
          (omega (arith, count, ap length here, ap length all))
          (turns-append (first_read l.coming) (4 * n + 1)) in
      (
        out,
        rest,
        record { device = dev'; coming = later },
        record {
          answer = ap (λ r. result_of r later) done;
          left = v';
          in_order =
              sym (append_assoc out rest (to_arrive later))
              ∙ ap (λ t. t ++ to_arrive later) e
              ∙ append_assoc q (arrived events) (to_arrive later)
              ∙ ap (λ t. q ++ t) (ap (λ t. t ++ to_arrive later) here ∙ sym all);
          waiting = least;
          kept = omega (
            arith,
            ap length e,
            length-append {0} out rest,
            length-append {0} q (arrived events),
          );
        },
      )
