-- ===== src/Device/Avr/Chips.antt =====
-- The UART modules of a chip, as the build enables them, their devices and their interrupt vectors:
-- src/serial-device-avr.c, lines 51 to 142.
use libsmp.Base.{
  ℕ, Bool, Option, none, some, List, [], ◌∷◌, if◌then◌else◌, get_elem?, set, replicate,
}
use libsmp.Base.Int.{ℤ, pos, negsuc, add_one}
use libsmp.Errors.{Result, ok, fault}
use libsmp.Device.Avr.Uart.{Registers, UartDevice, rx_interrupt_handler}
use libsmp.Device.Avr.Port.{Port}

-- `__AVR_ATmega328P__` and `__AVR_ATmega2560__`
pub data Chip : Type 0 where
  atmega328p atmega2560 : Chip

-- The four UART modules, with their registers `UCSR0A` and so on, and their vectors.
pub data UartModule : Type 0 where
  uart0 uart1 uart2 uart3 : UartModule

-- `AVR_ENABLE_SERIAL0` and so on
pub record Enabled : Type 0 where
  pub serial0 : Bool
  pub serial1 : Bool
  pub serial2 : Bool
  pub serial3 : Bool

abbrev pub digit : UartModule → ℕ
digit uart0 = 48
digit uart1 = 49
digit uart2 = 50
digit uart3 = 51

-- "serial0" and so on
abbrev pub path_of : UartModule → List ℕ
path_of u = 115 ∷ 101 ∷ 114 ∷ 105 ∷ 97 ∷ 108 ∷ digit u ∷ []

-- `SERIAL_DEVICE_0_INDEX` and so on
abbrev pub serial_device_0_index : Enabled → ℤ
serial_device_0_index e = if e.serial0 then pos 0 else negsuc 0

abbrev pub serial_device_1_index : Enabled → ℤ
serial_device_1_index e =
    let before = serial_device_0_index e in if e.serial1 then add_one before else before

abbrev pub serial_device_2_index : Enabled → ℤ
serial_device_2_index e =
    let before = serial_device_1_index e in if e.serial2 then add_one before else before

abbrev pub serial_device_3_index : Enabled → ℤ
serial_device_3_index e =
    let before = serial_device_2_index e in if e.serial3 then add_one before else before

-- The index that the handler of a module's vector is compiled with, where the vector has a handler.
unfoldable pub rx_isr : Chip → Enabled → UartModule → Option ℤ
unfolding add_one
rx_isr atmega328p e uart0 = if e.serial0 then some (serial_device_0_index e) else none
rx_isr atmega328p e _ = none
rx_isr atmega2560 e uart0 = if e.serial0 then some (serial_device_0_index e) else none
rx_isr atmega2560 e uart1 = if e.serial1 then some (serial_device_1_index e) else none
rx_isr atmega2560 e uart2 = if e.serial2 then some (serial_device_2_index e) else none
rx_isr atmega2560 e uart3 = if e.serial3 then some (serial_device_3_index e) else none

-- `size` is `SMP_SERIAL_DEVICE_AVR_CBUF_SIZE`; `start` is what the registers of the modules hold when
-- the program starts.
module _ (size : ℕ) (start : UartModule → Registers) where
  -- `DEFINE_UART_DEVICE`; the members that it leaves out are zero
  unfoldable pub define_uart_device : UartModule → UartDevice
  define_uart_device u = record {
    name = path_of u;
    regs = start u;
    cbuf = replicate size 0;
    rindex = 0;
    windex = 0;
  }

  abbrev entry : Bool → UartModule → List UartDevice → List UartDevice
  entry enabled u devices = if enabled then define_uart_device u ∷ devices else devices

  unfoldable pub avr_uart_devices : Chip → Enabled → List UartDevice
  avr_uart_devices atmega328p e = entry e.serial0 uart0 []
  avr_uart_devices atmega2560 e =
      entry e.serial0 uart0
        (entry e.serial1 uart1 (entry e.serial2 uart2 (entry e.serial3 uart3 [])))

module _ (size : ℕ) (chip : Chip) (e : Enabled) where
  abbrev pub handle : Port → ℕ → Option UartDevice → ℕ → Result Port
  handle p i none byte = fault
  handle p i (some dev) byte =
      ok (record p { devices = set p.devices i (rx_interrupt_handler size dev byte) })

  -- `DEFINE_RX_ISR`: the handler is given the address of the entry at the index. An interrupt without a
  -- handler, and an address outside the array, are faults.
  unfoldable pub run_isr : Port → Option ℤ → ℕ → Result Port
  run_isr p none byte = fault
  run_isr p (some (negsuc n)) byte = fault
  run_isr p (some (pos i)) byte = handle p i (get_elem? p.devices i) byte

  -- a byte that a module has received
  abbrev pub receive_byte : Result Port → UartModule → ℕ → Result Port
  receive_byte (ok p) u byte = run_isr p (rx_isr chip e u) byte
  receive_byte r u byte = r

  -- bytes that the modules receive, one after the other
  unfoldable pub receive_bytes : Result Port → List (UartModule × ℕ) → Result Port
  receive_bytes r [] = r
  receive_bytes r ((u, byte) ∷ events) = receive_bytes (receive_byte r u byte) events
