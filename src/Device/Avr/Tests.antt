-- ===== src/Device/Avr/Tests.antt =====
-- A board with one device and a ring of four bytes, with an instance of each property of
-- src/serial-device-avr.c.
use libsmp.Base.{
  ℕ, ◌≡◌, ◌≢◌, refl, arith, true, false, some, List, [], ◌∷◌, replicate, ◌==◌, ◌++◌, ◌≤◌, length,
  min, if◌then◌else◌,
}
use libsmp.Errors.{ok, err, fault, timedout}
use libsmp.Device.Config.{Baudrate, baud_9600, parity_odd, has_parity, is_odd}
use libsmp.Device.Avr.Uart.{Registers, UartDevice, read_loop, rx_interrupt_handler, advance}
use libsmp.Device.Avr.Ring.{Holds}
use libsmp.Device.Avr.Queue.{arrival, fetch, run, run_queue, run-run_queue}
use libsmp.Device.Avr.Queue
use libsmp.Device.Avr.Steps.{
  Event, turn, interrupt, testing, finished, play, interrupted, arrived, turns,
}
use libsmp.Device.Avr.Steps
use libsmp.Device.Avr.Interleaving.{play-finished}
use libsmp.Device.Avr.Port.{Bits, Speed, Port, configure, set_config, get_device_from_fd}
use libsmp.Device.Avr.Port
use libsmp.Device.Avr.Wait.{wait_device}
use libsmp.Device.Avr.Waiting.{FirstAt, wait_device-arrival, wait_device-quiet}
use libsmp.Device.Avr.Settings.{Distinct, configure_lem}

abbrev pub registers : Registers
registers = record { csr_a = λ i. false; csr_b = λ i. false; csr_c = λ i. true; br_l = 0; br_h = 0 }

-- The ring is empty, and its indices are at the third place.
abbrev device : UartDevice
device = record {
  name = 117 ∷ 49 ∷ [];
  regs = registers;
  cbuf = replicate 4 0;
  rindex = 2;
  windex = 2;
}

device-Holds : Holds 4 (omega arith) (omega arith) device []
device-Holds = record {
  storage = refl;
  read_inside = omega arith;
  write_inside = omega arith;
  fits = omega arith;
  bytes = refl;
}

-- Three bytes wait, and a fourth one makes all of them disappear.
abbrev steps : List Queue.Step
steps =
    arrival 7
    ∷ arrival 8
    ∷ fetch 1
    ∷ arrival 9
    ∷ arrival 10
    ∷ fetch 5
    ∷ arrival 1
    ∷ arrival 2
    ∷ arrival 3
    ∷ arrival 4
    ∷ fetch 5
    ∷ []

steps-reads : (run 4 device steps).0 ≡ (7 ∷ []) ∷ (8 ∷ 9 ∷ 10 ∷ []) ∷ [] ∷ []
unfolding run read_loop rx_interrupt_handler advance
steps-reads = refl

run-run_queue_example :
    ((run 4 device steps).0 ≡ (run_queue 4 (omega arith) (omega arith) [] steps).0)
    × Holds 4
        (omega arith)
        (omega arith)
        (run 4 device steps).1
        (run_queue 4 (omega arith) (omega arith) [] steps).1
run-run_queue_example = run-run_queue 4 (omega arith) (omega arith) steps device [] device-Holds

-- A read of two bytes, where one waits before it; others arrive behind the copy of the first byte, and
-- between the increment of the index and its reset, and when the read is over.
abbrev waiting : UartDevice
waiting = record device { cbuf = 0 ∷ 0 ∷ 0 ∷ 11 ∷ []; rindex = 3; windex = 0 }

waiting-Holds : Holds 4 (omega arith) (omega arith) waiting (11 ∷ [])
unfolding advance
waiting-Holds = record {
  storage = refl;
  read_inside = omega arith;
  write_inside = omega arith;
  fits = omega arith;
  bytes = (refl, refl);
}

abbrev events : List Event
events =
    turn ∷ turn ∷ interrupt 12 ∷ turn ∷ interrupt 13 ∷ turn ∷ turn ∷ turn ∷ turn ∷ turn ∷ turn ∷ []

events-read :
    play 4 (testing waiting 2 []) events
    ≡ finished
        (record waiting { cbuf = 12 ∷ 13 ∷ 0 ∷ 11 ∷ []; rindex = 1; windex = 2 })
        (11 ∷ 12 ∷ [])
unfolding play Steps.step interrupted rx_interrupt_handler advance
events-read = refl

play-finished_example :
    (dev' : UartDevice) × (out : List ℕ) × (rest : List ℕ) × (play 4 (testing waiting 2 []) events
      ≡ finished dev' out)
    × Holds 4 (omega arith) (omega arith) dev' rest
    × (out ++ rest ≡ (11 ∷ []) ++ arrived events)
    × (length out ≤ 2)
    × (min 2 1 ≤ length out)
unfolding arrived turns
play-finished_example =
    play-finished 4 (omega arith) (omega arith) events waiting (11 ∷ []) 2 waiting-Holds
      (omega arith) (omega arith)

-- Two bytes arrive in the second round.
abbrev arrivals : ℕ → List ℕ
arrivals k = if k == 1 then 5 ∷ 6 ∷ [] else []

something_arrives : arrivals 1 ≢ []
something_arrives e = cc e

arrivals-FirstAt : FirstAt 4 (omega arith) (omega arith) arrivals 0 1
arrivals-FirstAt = record {
  nothing = λ j a b. ground (arith, a, b);
  something = something_arrives;
  fits = omega arith;
}

wait_device-arrival_example :
    (dev' : UartDevice) × (wait_device 4 arrivals 3 device (some 20) ≡ some (ok tt, dev'))
    × Holds 4 (omega arith) (omega arith) dev' (arrivals 1)
wait_device-arrival_example =
    wait_device-arrival 4 (omega arith) (omega arith) arrivals 1 3 20 device device-Holds
      arrivals-FirstAt (omega arith) (omega arith) (omega arith)

abbrev no_arrivals : ℕ → List ℕ
no_arrivals k = []

wait_device-quiet_case : wait_device 4 no_arrivals 4 device (some 12) ≡ some (err timedout, device)
wait_device-quiet_case =
    wait_device-quiet 4 (omega arith) (omega arith) no_arrivals 3 4 12 device device-Holds
      (λ j. refl) (omega arith) (omega arith) (omega arith)

abbrev pub bits : Bits
bits = record {
  u2x = 1;
  rxcie = 7;
  txcie = 6;
  rxen = 4;
  txen = 3;
  ucsz2 = 2;
  upm1 = 5;
  upm0 = 4;
  usbs = 3;
  ucsz1 = 2;
  ucsz0 = 1;
}

abbrev pub setbaud : Baudrate → Speed
setbaud baudrate = record { ubrrh = 0; ubrrl = 103; use_2x = false }

bits-Distinct : Distinct bits
bits-Distinct = record { enables = λ e. omega (arith, e); parities = λ e. omega (arith, e) }

configure_lem_case :
    let r = configure bits setbaud registers baud_9600 parity_odd in
    (r.csr_b 4 ≡ true)
    × (r.csr_b 3 ≡ true)
    × (r.csr_c 5 ≡ has_parity parity_odd)
    × (r.csr_c 4 ≡ is_odd parity_odd)
    × ((i : ℕ) → i ≢ 4 → i ≢ 3 → r.csr_b i ≡ registers.csr_b i)
    × ((i : ℕ) → i ≢ 4 → i ≢ 5 → r.csr_c i ≡ registers.csr_c i)
configure_lem_case = configure_lem bits setbaud bits-Distinct registers baud_9600 parity_odd

-- A change of the settings before any device is open reads in front of the array.
never_opened : (set_config bits setbaud (Port.init (device ∷ [])) baud_9600 parity_odd).0 ≡ fault
unfolding set_config Port.init get_device_from_fd
never_opened = refl
