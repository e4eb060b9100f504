-- ===== src/Device/Avr/Wait.antt =====
-- `smp_serial_device_wait`: src/serial-device-avr.c, lines 581 to 613. Between two looks at the ring
-- the interrupt handler runs for the bytes that arrive: `arrivals k` are those of round `k`.
use libsmp.Base.{
  ℕ, zero, suc, ◌+◌, ◌%◌, ◌^◌, Bool, not, Option, none, some, List, ◌==◌, if◌then◌else◌, ltb,
}
use libsmp.Errors.{Result, ok, err, fault, no_device, timedout}
use libsmp.Device.Avr.Uart.{UartDevice, arrive}
use libsmp.Device.Avr.Port.{Port, get_device_from_fd, put_device}

-- How a wait ends, and the device; `none` is a wait that goes on.
abbrev pub Waited : Type 0
Waited = Option (Result (Unit {0}) × UartDevice)

-- `rindex != windex`
abbrev pub has_data : UartDevice → Bool
has_data dev = not (dev.rindex == dev.windex)

module _ (size : ℕ) (arrivals : ℕ → List ℕ) where
  -- the loop without a timeout, for at most `fuel` rounds
  unfoldable pub spin : ℕ → ℕ → UartDevice → Waited
  spin zero k dev = none
  spin (suc fuel) k dev =
      let rest = spin fuel (k + 1) (arrive size dev (arrivals k)) in
      if has_data dev then some (ok tt, dev) else rest

  -- the loop that counts the time in steps of 5 ms; `unsigned int` has 16 bits
  unfoldable pub count_down : ℕ → ℕ → ℕ → ℕ → UartDevice → Waited
  count_down zero k timeout elapsed dev = none
  count_down (suc fuel) k timeout elapsed dev =
      let rest =
        count_down fuel (k + 1) timeout ((elapsed + 5) % 2 ^ 16) (arrive size dev (arrivals k)) in
      if ltb elapsed timeout
      then (if has_data dev then some (ok tt, dev) else rest)
      else (if has_data dev then some (ok tt, dev) else some (err timedout, dev))

  -- The wait on a device; a negative timeout is `none`.
  unfoldable pub wait_device : ℕ → UartDevice → Option ℕ → Waited
  wait_device fuel dev none =
      let r = spin fuel 0 dev in if has_data dev then some (ok tt, dev) else r
  wait_device fuel dev (some timeout) =
      let r = count_down fuel 0 timeout 0 dev in if has_data dev then some (ok tt, dev) else r

  abbrev pub waited : Port → Waited → Option (Result (Unit {0}) × Port)
  waited p none = none
  waited p (some (r, dev)) = some (r, record p { devices = put_device p dev })

  abbrev pub wait_found :
      ℕ → Port → Option ℕ → Result UartDevice → Option (Result (Unit {0}) × Port)
  wait_found fuel p timeout (ok dev) = waited p (wait_device fuel dev timeout)
  wait_found fuel p timeout (err e) = some (err no_device, p)
  wait_found fuel p timeout fault = some (fault, p)

  -- `smp_serial_device_wait`, with the devices afterwards
  unfoldable pub wait_port : ℕ → Port → Option ℕ → Option (Result (Unit {0}) × Port)
  wait_port fuel p timeout = wait_found fuel p timeout (get_device_from_fd p)
