-- ===== src/Device/Avr/Steps.antt =====
-- A read and the interrupts that come while it runs, one access of the indices after the other:
-- src/serial-device-avr.c, lines 154 to 160 and 559 to 579. Both indices are volatile bytes, and the
-- handler runs without being interrupted itself.
use libsmp.Base.{ℕ, zero, suc, ◌+◌, ◌%◌, List, [], ◌∷◌, ◌++◌, ◌==◌, if◌then◌else◌, leb, get_or}
use libsmp.Device.Avr.Uart.{UartDevice, rx_interrupt_handler}

-- Where a read is: in front of the loop's tests, the copy of a byte, the increment of the index and
-- its reset, or behind the loop; with the device, the number of bytes that are still to be read
-- (behind the one in hand) and the bytes in the caller's buffer.
pub data Reading : Type 0 where
  testing copying counting wrapping : UartDevice → ℕ → List ℕ → Reading
  finished : UartDevice → List ℕ → Reading

-- Either the program or the hardware has its turn.
pub data Event : Type 0 where
  turn : Event
  interrupt : ℕ → Event

module _ (size : ℕ) where
  -- one step of the loop of `smp_serial_device_read`
  unfoldable pub step : Reading → Reading
  step (testing dev zero out) = finished dev out
  step (testing dev (suc n) out) =
      if dev.rindex == dev.windex then finished dev out else copying dev n out
  step (copying dev n out) = counting dev n (out ++ (get_or dev.cbuf dev.rindex 0 ∷ []))
  step (counting dev n out) = wrapping (record dev { rindex = (dev.rindex + 1) % 256 }) n out
  step (wrapping dev n out) =
      testing (record dev { rindex = if leb size dev.rindex then 0 else dev.rindex }) n out
  step (finished dev out) = finished dev out

  -- the interrupt for a byte
  unfoldable pub interrupted : Reading → ℕ → Reading
  interrupted (testing dev n out) byte = testing (rx_interrupt_handler size dev byte) n out
  interrupted (copying dev n out) byte = copying (rx_interrupt_handler size dev byte) n out
  interrupted (counting dev n out) byte = counting (rx_interrupt_handler size dev byte) n out
  interrupted (wrapping dev n out) byte = wrapping (rx_interrupt_handler size dev byte) n out
  interrupted (finished dev out) byte = finished (rx_interrupt_handler size dev byte) out

  unfoldable pub play : Reading → List Event → Reading
  play r [] = r
  play r (turn ∷ events) = play (step r) events
  play r (interrupt byte ∷ events) = play (interrupted r byte) events

-- the bytes that arrive, in order
unfoldable pub arrived : List Event → List ℕ
arrived [] = []
arrived (turn ∷ events) = arrived events
arrived (interrupt byte ∷ events) = byte ∷ arrived events

-- how often the program has its turn
unfoldable pub turns : List Event → ℕ
turns [] = 0
turns (turn ∷ events) = suc (turns events)
turns (interrupt byte ∷ events) = turns events
