-- ===== src/Device/Avr/Reopen.antt =====
-- A device that is closed and opened again: src/serial-device-avr.c, lines 413 to 488.
use libsmp.Base.{
  ℕ, zero, suc, ◌+◌, ◌≤◌, ◌<◌, ◌≡◌, refl, ap, ◌∙◌, arith, true, false, Option, none, some, List, [],
  ◌∷◌, get_elem?, set, take,
}
use mathlib.Core.Option
use libsmp.Errors.{ok}
use libsmp.Device.Config.{Baudrate, same_text}
use libsmp.Device.Avr.Uart.{UartDevice}
use libsmp.Device.Avr.Ring.{Holds}
use libsmp.Device.Avr.Line.{Serves, get_elem?-set, read_port-Serves}
use libsmp.Device.Avr.Port.{
  Bits, Speed, Port, present, device_at, put_at, get_device_from_fd, put_device, init_registers,
  init_uart_device, find_device, open_found, opened, open_port, close_device, close_port, disable,
  read_port,
}

-- The device number `i` is the first one of this name.
abbrev pub First : List ℕ → List UartDevice → ℕ → Type 0
First path [] i = ⊥
First path (d ∷ devices) zero = same_text path d.name ≡ true
First path (d ∷ devices) (suc i) = (same_text path d.name ≡ false) × First path devices i

First-set :
    (path : List ℕ) (devices : List UartDevice) (i : ℕ) (dev dev' : UartDevice)
    → First path devices i
    → get_elem? devices i ≡ some dev
    → dev'.name ≡ dev.name
    → First path (set devices i dev') i
First-set path [] i dev dev' f g n = f
First-set path (d ∷ devices) zero dev dev' f g n = ground arith
First-set path (d ∷ devices) (suc i) dev dev' f g n =
    (f.0, First-set path devices i dev dev' f.1 g n)

module _ (bits : Bits) (setbaud : Baudrate → Speed) where
  find_device-First :
      (path : List ℕ) (devices : List UartDevice) (k i : ℕ) (dev : UartDevice)
      → First path devices i
      → get_elem? devices i ≡ some dev
      → find_device bits setbaud devices path k ≡ some (k + i, dev)
  unfolding find_device
  find_device-First path [] k i dev f g = absurd f
  find_device-First path (d ∷ devices) k zero dev f g = rw f (
      let same : ◌≡◌ {A = Option UartDevice} (some d) (some dev) = g in
      let here : k ≡ k + 0 = omega arith in
      ap (λ j. some (j, d)) here ∙ ap (Option.map (λ x. (k + 0, x))) same)
  find_device-First path (d ∷ devices) k (suc i) dev f g =
      let next : k + 1 + i ≡ k + suc i = omega arith in
      rw f.0 (find_device-First path devices (k + 1) i dev f.1 g ∙ ap (λ j. some (j, dev)) next)

  not_busy :
      (dev : UartDevice)
      → let closed = record dev { regs = disable bits setbaud dev.regs } in
        init_uart_device bits setbaud closed
        ≡ ok (record dev { regs = init_registers bits setbaud (disable bits setbaud dev.regs) })
  unfolding init_uart_device
  not_busy dev = ground arith

  -- the device after it was closed, and after it was opened again
  abbrev closed : UartDevice → UartDevice
  closed dev = record dev { regs = disable bits setbaud dev.regs }

  abbrev reopened : UartDevice → UartDevice
  reopened dev = record dev { regs = init_registers bits setbaud (disable bits setbaud dev.regs) }

  close_port_lem :
      (p : Port) (i : ℕ) (dev : UartDevice)
      → p.fd ≡ some i
      → get_elem? p.devices i ≡ some dev
      → close_port bits setbaud p
        ≡ (ok tt, record { devices = set p.devices i (closed dev); fd = none })
  unfolding close_port get_device_from_fd put_device
  close_port_lem p i dev o g =
      ap (close_device bits setbaud p) (ap (device_at p.devices) o ∙ ap present g)
      ∙ ap (λ fd. (ok tt, record { devices = put_at p.devices fd (closed dev); fd = none })) o

  open_port_lem :
      (devices : List UartDevice) (i : ℕ) (dev : UartDevice) (path : List ℕ)
      → First path devices i
      → get_elem? devices i ≡ some (closed dev)
      → open_port bits setbaud (record { devices = devices; fd = none }) path
        ≡ (ok tt, record { devices = set devices i (reopened dev); fd = some i })
  unfolding open_port
  open_port_lem devices i dev path f g =
      let p : Port = record { devices = devices; fd = none } in
      let here : 0 + i ≡ i = omega arith in
      ap (open_found bits setbaud p)
        (find_device-First path devices 0 i (closed dev) f g ∙ ap (λ j. some (j, closed dev)) here)
      ∙ ap (opened bits setbaud p i) (not_busy dev)

module _ (bits : Bits) (setbaud : Baudrate → Speed) (size : ℕ) (pos : 0 < size)
    (word : size ≤ 256) where
  reopened-Holds :
      (dev : UartDevice) (q : List ℕ)
      → Holds size pos word dev q
      → Holds size pos word (reopened bits setbaud dev) q
  reopened-Holds dev q h = record {
    storage = h.storage;
    read_inside = h.read_inside;
    write_inside = h.write_inside;
    fits = h.fits;
    bytes = h.bytes;
  }

  reopens :
      (p : Port) (i : ℕ) (q path : List ℕ)
      → Serves size pos word p i q
      → First path p.devices i
      → let shut = close_port bits setbaud p in
        let again = open_port bits setbaud shut.1 path in
        (shut.0 ≡ ok tt) × (shut.1.fd ≡ none) × (again.0 ≡ ok tt) × Serves size pos word again.1 i q
  reopens p i q path s f =
      let dev = s.device in
      let devices = set p.devices i (closed bits setbaud dev) in
      let there = get_elem?-set p.devices i dev (closed bits setbaud dev) s.here in
      rw
        (
          close_port_lem bits setbaud p i dev s.opened s.here,
          open_port_lem bits setbaud devices i dev path
              (First-set path p.devices i dev (closed bits setbaud dev) f s.here refl) there,
        )
        (
          refl,
          refl,
          refl,
          record {
            device = reopened bits setbaud dev;
            opened = refl;
            here =
                get_elem?-set devices i (closed bits setbaud dev) (reopened bits setbaud dev) there;
            holds = reopened-Holds dev q s.holds;
          },
        )

  -- The open device number `i` of a board, the first one of its name, in which the bytes `q` wait: it can
  -- be closed, and opened again by that name, both with success, and it is the same device. The bytes
  -- still wait: a read then gives the first `n` of those that were received before the device was closed.
  pub open_port-close_port :
      (p : Port) (i : ℕ) (q path : List ℕ) (n : ℕ)
      → Serves size pos word p i q
      → First path p.devices i
      → let shut = close_port bits setbaud p in
        let again = open_port bits setbaud shut.1 path in
        (shut.0 ≡ ok tt)
        × (shut.1.fd ≡ none)
        × (again.0 ≡ ok tt)
        × (again.1.fd ≡ some i)
        × ((read_port size again.1 n).0 ≡ ok (take n q))
  open_port-close_port p i q path n s f =
      let (shut, gone, again, serves) = reopens p i q path s f in
      (
        shut,
        gone,
        again,
        serves.opened,
        (read_port-Serves size pos word n
            (open_port bits setbaud (close_port bits setbaud p).1 path).1 i q serves).0,
      )
