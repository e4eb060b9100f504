-- ===== src/Device/Avr/Vectors.antt =====
-- The interrupt vectors and the devices of a chip: src/serial-device-avr.c, lines 51 to 160 and 449 to
-- 470.
use libsmp.Base.{ℕ, ◌≡◌, refl, arith, Bool, true, false, none, some, get_elem?}
use libsmp.Base.Int.{pos}
use libsmp.Device.Config.{Baudrate, same_text}
use libsmp.Device.Avr.Uart.{Registers}
use libsmp.Device.Avr.Port.{Bits, Speed, find_device}
use libsmp.Device.Avr.Chips.{
  Chip, atmega328p, atmega2560, UartModule, uart0, uart1, uart2, uart3, Enabled, path_of, rx_isr,
  define_uart_device, avr_uart_devices,
}

-- The build for the chip has a device for the module.
abbrev pub has : Chip → Enabled → UartModule → Bool
has atmega328p e uart0 = e.serial0
has atmega328p e _ = false
has atmega2560 e uart0 = e.serial0
has atmega2560 e uart1 = e.serial1
has atmega2560 e uart2 = e.serial2
has atmega2560 e uart3 = e.serial3

module _ (bits : Bits) (setbaud : Baudrate → Speed) (size : ℕ) (start : UartModule → Registers)
    (chip : Chip) (e : Enabled) (u : UartModule) where
  -- The module is one of a device: its vector hands the bytes to the entry of the array that is found
  -- by its name, and that has its registers. Or it is not: it has no handler, and no device is found.
  abbrev pub Wired : Bool → Type 0
  Wired true =
      let devices = avr_uart_devices size start chip e in
      let dev = define_uart_device size start u in
      (i : ℕ) × (rx_isr chip e u ≡ some (pos i))
      × (get_elem? devices i ≡ some dev)
      × (find_device bits setbaud devices (path_of u) 0 ≡ some (i, dev))
  Wired false =
      (rx_isr chip e u ≡ none)
      × (find_device bits setbaud (avr_uart_devices size start chip e) (path_of u) 0 ≡ none)

module _ (bits : Bits) (setbaud : Baudrate → Speed) (size : ℕ)
    (start : UartModule → Registers) where
  flags : Bool → Bool → Bool → Bool → Enabled
  flags a b c d = record { serial0 = a; serial1 = b; serial2 = c; serial3 = d }

  wired0 : (a b c d : Bool) → Wired bits setbaud size start atmega2560 (flags a b c d) uart0 a
  unfolding flags rx_isr avr_uart_devices find_device define_uart_device same_text
  wired0 true b c d = (0, refl, refl, refl)
  wired0 false b c d = ground arith

  wired1 : (a b c d : Bool) → Wired bits setbaud size start atmega2560 (flags a b c d) uart1 b
  unfolding flags rx_isr avr_uart_devices find_device define_uart_device same_text
  wired1 true true c d = (1, refl, refl, refl)
  wired1 false true c d = (0, refl, refl, refl)
  wired1 a false c d = ground arith

  wired2 : (a b c d : Bool) → Wired bits setbaud size start atmega2560 (flags a b c d) uart2 c
  unfolding flags rx_isr avr_uart_devices find_device define_uart_device same_text
  wired2 true true true d = (2, refl, refl, refl)
  wired2 true false true d = (1, refl, refl, refl)
  wired2 false true true d = (1, refl, refl, refl)
  wired2 false false true d = (0, refl, refl, refl)
  wired2 a b false d = ground arith

  wired3 : (a b c d : Bool) → Wired bits setbaud size start atmega2560 (flags a b c d) uart3 d
  unfolding flags rx_isr avr_uart_devices find_device define_uart_device same_text
  wired3 true true true true = (3, refl, refl, refl)
  wired3 true true false true = (2, refl, refl, refl)
  wired3 true false true true = (2, refl, refl, refl)
  wired3 true false false true = (1, refl, refl, refl)
  wired3 false true true true = (2, refl, refl, refl)
  wired3 false true false true = (1, refl, refl, refl)
  wired3 false false true true = (1, refl, refl, refl)
  wired3 false false false true = (0, refl, refl, refl)
  wired3 a b c false = ground arith

  small0 : (a b c d : Bool) → Wired bits setbaud size start atmega328p (flags a b c d) uart0 a
  unfolding flags rx_isr avr_uart_devices find_device define_uart_device same_text
  small0 true b c d = (0, refl, refl, refl)
  small0 false b c d = (refl, refl)

  -- On either chip, whichever modules the build enables: the vector of a module that has a device runs
  -- its handler on the entry of the array that is found by the module's name, and that has the
  -- module's registers; a module without one has no handler, and no device is found by its name.
  pub rx_isr-find_device :
      (chip : Chip) (e : Enabled) (u : UartModule)
      → Wired bits setbaud size start chip e u (has chip e u)
  unfolding flags rx_isr avr_uart_devices find_device define_uart_device same_text
  rx_isr-find_device atmega328p e uart0 = small0 e.serial0 e.serial1 e.serial2 e.serial3
  rx_isr-find_device atmega328p e u = ground arith
  rx_isr-find_device atmega2560 e uart0 = wired0 e.serial0 e.serial1 e.serial2 e.serial3
  rx_isr-find_device atmega2560 e uart1 = wired1 e.serial0 e.serial1 e.serial2 e.serial3
  rx_isr-find_device atmega2560 e uart2 = wired2 e.serial0 e.serial1 e.serial2 e.serial3
  rx_isr-find_device atmega2560 e uart3 = wired3 e.serial0 e.serial1 e.serial2 e.serial3
