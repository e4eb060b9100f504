-- ===== src/Device/Avr/Line.antt =====
-- The open device of a board as a queue of bytes: src/serial-device-avr.c, from the interrupt handler
-- to smp_serial_device_read.
use libsmp.Base.{
  ℕ, zero, suc, ◌+◌, ◌≤◌, ◌<◌, ◌≡◌, ◌≢◌, refl, ap, ◌∙◌, Option, none, some, List, [], ◌∷◌, ◌++◌,
  length, take, drop, get_elem?, set,
}
use libsmp.Errors.{ok}
use libsmp.Device.Avr.Uart.{UartDevice, read_loop, arrive}
use libsmp.Device.Avr.Ring.{Holds, read_loop_lem}
use libsmp.Device.Avr.Queue.{Holds-arrive}
use libsmp.Device.Avr.Port.{
  Port, present, device_at, put_at, get_device_from_fd, put_device, read_port,
}

pub get_elem?-set :
    (devices : List UartDevice) (i : ℕ) (dev dev' : UartDevice)
    → get_elem? devices i ≡ some dev
    → get_elem? (set devices i dev') i ≡ some dev'
get_elem?-set [] i dev dev' e = cc e
get_elem?-set (d ∷ devices) zero dev dev' e = refl
get_elem?-set (d ∷ devices) (suc i) dev dev' e = get_elem?-set devices i dev dev' e

abbrev pub Present : List UartDevice → ℕ → Type 0
Present devices i = (dev : UartDevice) × (get_elem? devices i ≡ some dev)

pub Present-set :
    (devices : List UartDevice) (i j : ℕ) (d : UartDevice)
    → Present devices i
    → Present (set devices j d) i
Present-set [] i j d (dev, e) = cc e
Present-set (x ∷ xs) zero zero d v = (d, refl)
Present-set (x ∷ xs) zero (suc j) d v = v
Present-set (x ∷ xs) (suc i) zero d v = v
Present-set (x ∷ xs) (suc i) (suc j) d v = Present-set xs i j d v

pub get_elem?-set_ne :
    (devices : List UartDevice) (i j : ℕ) (dev : UartDevice)
    → i ≢ j
    → get_elem? (set devices j dev) i ≡ get_elem? devices i
get_elem?-set_ne [] i j dev n = refl
get_elem?-set_ne (x ∷ xs) zero zero dev n = absurd (n refl)
get_elem?-set_ne (x ∷ xs) zero (suc j) dev n = refl
get_elem?-set_ne (x ∷ xs) (suc i) zero dev n = refl
get_elem?-set_ne (x ∷ xs) (suc i) (suc j) dev n = get_elem?-set_ne xs i j dev (λ e. n (ap suc e))

module _ (size : ℕ) where
  abbrev pub bytes_in : Option UartDevice → List ℕ → Option UartDevice
  bytes_in none bs = none
  bytes_in (some dev) bs = some (arrive size dev bs)

  abbrev pub replace : Port → ℕ → Option UartDevice → Port
  replace p i none = p
  replace p i (some dev) = record p { devices = set p.devices i dev }

  -- the interrupts of the device number `i` for bytes that arrive one after the other
  unfoldable pub interrupts : Port → ℕ → List ℕ → Port
  interrupts p i bs = replace p i (bytes_in (get_elem? p.devices i) bs)

module _ (size : ℕ) (pos : 0 < size) (word : size ≤ 256) where
  -- The device number `i` is open, and holds the received bytes `q`.
  pub record Serves (p : Port) (i : ℕ) (q : List ℕ) : Type 0 where
    pub device : UartDevice
    pub opened : p.fd ≡ some i
    pub here : get_elem? p.devices i ≡ some device
    pub holds : Holds size pos word device q

  found : {p : Port} {i : ℕ} {q : List ℕ} → (s : Serves p i q) → get_device_from_fd p ≡ ok s.device
  unfolding get_device_from_fd
  found {p} s = ap (device_at p.devices) s.opened ∙ ap present s.here

  pub read_port-Serves :
      (n : ℕ) (p : Port) (i : ℕ) (q : List ℕ)
      → Serves p i q
      → ((read_port size p n).0 ≡ ok (take n q)) × Serves (read_port size p n).1 i (drop n q)
  unfolding read_port put_device
  read_port-Serves n p i q s =
      let (out, left) = read_loop_lem size pos word n s.device q s.holds in
      let dev' = (read_loop size n s.device).1 in
      rw (found s) (
        ap ok out,
        record {
          device = dev';
          opened = s.opened;
          here =
              ap (λ fd. get_elem? (put_at p.devices fd dev') i) s.opened
              ∙ get_elem?-set p.devices i s.device dev' s.here;
          holds = left;
        },
      )

  -- Bytes that arrive wait behind the others, if they are fewer than `size` with them.
  pub interrupts-Serves :
      (bs : List ℕ) (p : Port) (i : ℕ) (q : List ℕ)
      → Serves p i q
      → length q + length bs < size
      → Serves (interrupts size p i bs) i (q ++ bs)
  unfolding interrupts
  interrupts-Serves bs p i q s small = rw s.here (record {
    device = arrive size s.device bs;
    opened = s.opened;
    here = get_elem?-set p.devices i s.device (arrive size s.device bs) s.here;
    holds = Holds-arrive size pos word bs s.device q s.holds small;
  })
