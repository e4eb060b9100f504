-- ===== src/Device/Avr/ChipTests.antt =====
-- An ATmega2560 with three of its four modules, one of which is open.
use libsmp.Base.{ℕ, ◌≡◌, refl, arith, true, false, some, none, List, [], ◌∷◌}
use libsmp.Base.Int.{pos}
use libsmp.Errors.{ok}
use libsmp.Device.Avr.Uart.{Registers}
use libsmp.Device.Avr.Port.{Port, init, open_port, read_port}
use libsmp.Device.Avr.Chips.{
  atmega2560, UartModule, uart0, uart1, uart2, uart3, Enabled, path_of, rx_isr, avr_uart_devices,
  receive_bytes,
}
use libsmp.Device.Avr.Vectors.{Wired, rx_isr-find_device}
use libsmp.Device.Avr.Modules.{bytes_of}
use libsmp.Device.Avr.Receiving.{read_port-receive_bytes}
use libsmp.Device.Avr.Tests.{registers, bits, setbaud}

abbrev build : Enabled
build = record { serial0 = true; serial1 = false; serial2 = true; serial3 = true }

abbrev start : UartModule → Registers
start u = registers

-- The third module has the second entry.
rx_isr_uart2 : rx_isr atmega2560 build uart2 ≡ some (pos 1)
unfolding rx_isr
rx_isr_uart2 = refl

rx_isr-find_device_case : Wired bits setbaud 4 start atmega2560 build uart2 true
rx_isr-find_device_case = rx_isr-find_device bits setbaud 4 start atmega2560 build uart2

-- The second module is not in the build.
rx_isr_uart1 : rx_isr atmega2560 build uart1 ≡ none
unfolding rx_isr
rx_isr_uart1 = refl

-- Bytes of three modules, in turn.
abbrev events : List (UartModule × ℕ)
events = (uart2, 65) ∷ (uart0, 1) ∷ (uart2, 66) ∷ (uart3, 9) ∷ (uart0, 2) ∷ []

read_port-receive_bytes_example :
    let opened =
      open_port bits setbaud (init (avr_uart_devices 4 start atmega2560 build)) (path_of uart2) in
    (opened.0 ≡ ok tt)
    × (p : Port) × (receive_bytes 4 atmega2560 build (ok opened.1) events ≡ ok p)
    × ((read_port 4 p 8).0 ≡ ok (65 ∷ 66 ∷ []))
unfolding bytes_of
read_port-receive_bytes_example =
    read_port-receive_bytes bits setbaud 4 (omega arith) (omega arith) start atmega2560 build uart2
      events 8 refl refl refl (refl, (refl, (refl, (refl, (refl, tt))))) (omega arith)
