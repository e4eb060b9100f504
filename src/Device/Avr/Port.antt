-- ===== src/Device/Avr/Port.antt =====
-- The API of the device: src/serial-device-avr.c, lines 146 to 152 and 163 to 613. What avr-libc
-- provides is a parameter: the positions of the bits in the control registers, and the settings that
-- util/setbaud.h computes for a baud rate. A register holds what was written to it.
use libsmp.Base.{
  ℕ, ◌+◌, Bool, ◌||◌, Option, none, some, List, [], ◌∷◌, length, if◌then◌else◌, get_elem?, set,
}
use libsmp.Errors.{Result, ok, err, fault, busy, no_device}
use libsmp.Device.Config.{
  Baudrate, baud_115200, invalid_baudrate, Parity, parity_none, parity_odd, parity_even,
  invalid_parity, same_text, set_bit, clear_bit,
}
use libsmp.Device.Avr.Uart.{Registers, UartDevice, read_loop}

-- the positions of the bits, from avr/io.h
pub record Bits : Type 0 where
  pub u2x : ℕ
  pub rxcie : ℕ
  pub txcie : ℕ
  pub rxen : ℕ
  pub txen : ℕ
  pub ucsz2 : ℕ
  pub upm1 : ℕ
  pub upm0 : ℕ
  pub usbs : ℕ
  pub ucsz1 : ℕ
  pub ucsz0 : ℕ

-- `UBRRH_VALUE`, `UBRRL_VALUE` and `USE_2X`
pub record Speed : Type 0 where
  pub ubrrh : ℕ
  pub ubrrl : ℕ
  pub use_2x : Bool

-- `sdev->fd`, where -1 is `none`, and the devices of the board
pub record Port : Type 0 where
  pub devices : List UartDevice
  pub fd : Option ℕ

-- `smp_serial_device_init`
unfoldable pub init : List UartDevice → Port
init devices = record { devices = devices; fd = none }

abbrev pub present : Option UartDevice → Result UartDevice
present none = err no_device
present (some dev) = ok dev

abbrev pub device_at : List UartDevice → Option ℕ → Result UartDevice
device_at devices none = fault
device_at devices (some i) = present (get_elem? devices i)

-- `get_device_from_fd`, and the access through its pointer. It does not refuse -1: the access is then
-- in front of the array.
unfoldable pub get_device_from_fd : Port → Result UartDevice
get_device_from_fd p = device_at p.devices p.fd

abbrev pub put_at : List UartDevice → Option ℕ → UartDevice → List UartDevice
put_at devices none dev = devices
put_at devices (some i) dev = set devices i dev

-- the devices with another state of the one that is open
unfoldable pub put_device : Port → UartDevice → List UartDevice
put_device p dev = put_at p.devices p.fd dev

module _ (bits : Bits) (setbaud : Baudrate → Speed) where
  -- `set_baudrate_1200` and so on
  unfoldable pub write_baudrate : Registers → Speed → Registers
  write_baudrate regs s = record regs {
    br_h = s.ubrrh;
    br_l = s.ubrrl;
    csr_a = if s.use_2x then set_bit regs.csr_a bits.u2x else clear_bit regs.csr_a bits.u2x;
  }

  -- `set_baudrate`
  unfoldable pub set_baudrate : Registers → Baudrate → Registers
  unfolding write_baudrate
  set_baudrate regs invalid_baudrate = regs
  set_baudrate regs baudrate = write_baudrate regs (setbaud baudrate)

  abbrev pub enable : Registers → Registers
  enable regs = record regs { csr_b = set_bit (set_bit regs.csr_b bits.rxen) bits.txen }

  abbrev pub disable : Registers → Registers
  disable regs = record regs { csr_b = clear_bit (clear_bit regs.csr_b bits.rxen) bits.txen }

  -- `init_uart_device`, on the registers
  unfoldable pub init_registers : Registers → Registers
  unfolding set_baudrate
  init_registers regs =
      let r1 = set_baudrate regs baud_115200 in
      let r2 = record r1 {
        csr_c = set_bit (set_bit r1.csr_c bits.ucsz0) bits.ucsz1;
        csr_b = clear_bit r1.csr_b bits.ucsz2;
      } in
      let r3 = record r2 { csr_c = clear_bit (clear_bit r2.csr_c bits.upm0) bits.upm1 } in
      let r4 = record r3 { csr_c = clear_bit r3.csr_c bits.usbs } in
      enable (record r4 { csr_b = clear_bit (set_bit r4.csr_b bits.rxcie) bits.txcie })

  -- `init_uart_device`
  unfoldable pub init_uart_device : UartDevice → Result UartDevice
  unfolding init_registers
  init_uart_device dev =
      if dev.regs.csr_b bits.txen || dev.regs.csr_b bits.rxen
      then err busy
      else ok (record dev { regs = init_registers dev.regs })

  -- The loop over the devices, from index `i` on: the first one of that name.
  unfoldable pub find_device : List UartDevice → List ℕ → ℕ → Option (ℕ × UartDevice)
  find_device [] path i = none
  find_device (dev ∷ devices) path i =
      let rest = find_device devices path (i + 1) in
      if same_text path dev.name then some (i, dev) else rest

  abbrev pub opened : Port → ℕ → Result UartDevice → Result (Unit {0}) × Port
  opened p i (ok dev) = (ok tt, record { devices = set p.devices i dev; fd = some i })
  opened p i (err e) = (err e, p)
  opened p i fault = (fault, p)

  abbrev pub open_found : Port → Option (ℕ × UartDevice) → Result (Unit {0}) × Port
  open_found p none = (err no_device, p)
  open_found p (some (i, dev)) = opened p i (init_uart_device dev)

  -- `smp_serial_device_open`
  unfoldable pub open_port : Port → List ℕ → Result (Unit {0}) × Port
  open_port p path = open_found p (find_device p.devices path 0)

  abbrev pub close_device : Port → Result UartDevice → Result (Unit {0}) × Port
  close_device p (ok dev) =
      (ok tt, record { devices = put_device p (record dev { regs = disable dev.regs }); fd = none })
  close_device p (err e) = (ok tt, p)
  close_device p fault = (fault, p)

  -- `smp_serial_device_close`; the result says whether the access was inside the array
  unfoldable pub close_port : Port → Result (Unit {0}) × Port
  close_port p = close_device p (get_device_from_fd p)

  -- the `switch` over the parity
  unfoldable pub set_parity : Registers → Parity → Registers
  set_parity regs parity_odd = record regs {
    csr_c = set_bit (set_bit regs.csr_c bits.upm0) bits.upm1;
  }
  set_parity regs parity_even = record regs {
    csr_c = clear_bit (set_bit regs.csr_c bits.upm1) bits.upm0;
  }
  set_parity regs parity_none = record regs {
    csr_c = clear_bit (clear_bit regs.csr_c bits.upm0) bits.upm1;
  }
  set_parity regs invalid_parity = record regs {
    csr_c = clear_bit (clear_bit regs.csr_c bits.upm0) bits.upm1;
  }

  unfoldable pub configure : Registers → Baudrate → Parity → Registers
  unfolding set_baudrate set_parity
  configure regs baudrate parity = enable (set_parity (set_baudrate (disable regs) baudrate) parity)

  abbrev pub configure_device :
      Port → Baudrate → Parity → Result UartDevice → Result (Unit {0}) × Port
  configure_device p baudrate parity (ok dev) =
      let next = record dev { regs = configure dev.regs baudrate parity } in
      (ok tt, record p { devices = put_device p next })
  configure_device p baudrate parity (err e) = (err no_device, p)
  configure_device p baudrate parity fault = (fault, p)

  -- `smp_serial_device_set_config`; the flow control is not used
  unfoldable pub set_config : Port → Baudrate → Parity → Result (Unit {0}) × Port
  set_config p baudrate parity = configure_device p baudrate parity (get_device_from_fd p)

-- `smp_serial_device_get_fd`; a failure is `SMP_ERROR_BAD_FD`
unfoldable pub get_fd : Port → Option ℕ
get_fd p = p.fd

-- `smp_serial_device_write`: the count returned, and the bytes that the data register was given. The
-- wait for the hardware before each byte ends.
unfoldable pub write_port : Port → List ℕ → Result ℕ × List ℕ
write_port p bytes = elim (get_device_from_fd p) [
  | ok dev ↦ (ok (length bytes), bytes)
  | err e ↦ (err no_device, [])
  | fault ↦ (fault, [])
]

module _ (size : ℕ) where
  abbrev pub read_from : Port → Result UartDevice → ℕ → Result (List ℕ) × Port
  read_from p (ok dev) n =
      let (bytes, dev') = read_loop size n dev in
      (ok bytes, record p { devices = put_device p dev' })
  read_from p (err e) n = (err no_device, p)
  read_from p fault n = (fault, p)

  -- `smp_serial_device_read` of at most `n` bytes
  unfoldable pub read_port : Port → ℕ → Result (List ℕ) × Port
  read_port p n = read_from p (get_device_from_fd p) n
