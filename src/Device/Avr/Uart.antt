-- ===== src/Device/Avr/Uart.antt =====
-- The received bytes of a UART: src/serial-device-avr.c, lines 28 to 47, 154 to 160 and 559 to 579.
use libsmp.Base.{ℕ, zero, suc, ◌+◌, ◌%◌, Bool, List, [], ◌∷◌, ◌==◌, if◌then◌else◌, leb, get_or, set}

-- `UARTDeviceRegisters`: the bits of the control registers, and the two bytes of the baud rate. The
-- data register stands for the bytes that come in and go out.
pub record Registers : Type 0 where
  pub csr_a : ℕ → Bool
  pub csr_b : ℕ → Bool
  pub csr_c : ℕ → Bool
  pub br_l : ℕ
  pub br_h : ℕ

-- `UARTDevice`; the name is a C string.
pub record UartDevice : Type 0 where
  pub name : List ℕ
  pub regs : Registers
  pub cbuf : List ℕ
  pub rindex : ℕ
  pub windex : ℕ

-- `size` is `SMP_SERIAL_DEVICE_AVR_CBUF_SIZE`, an option of the build.
module _ (size : ℕ) where
  -- the increment of an index of type `uint8_t`
  unfoldable pub advance : ℕ → ℕ
  advance i = let j = (i + 1) % 256 in if leb size j then 0 else j

  -- `rx_interrupt_handler`, where the data register has `byte`
  unfoldable pub rx_interrupt_handler : UartDevice → ℕ → UartDevice
  rx_interrupt_handler dev byte = record dev {
    cbuf = set dev.cbuf dev.windex byte;
    windex = advance dev.windex;
  }

  -- the interrupts for bytes that arrive one after the other
  unfoldable pub arrive : UartDevice → List ℕ → UartDevice
  arrive dev [] = dev
  arrive dev (b ∷ bs) = arrive (rx_interrupt_handler dev b) bs

  -- the loop of `smp_serial_device_read` for at most `n` bytes
  unfoldable pub read_loop : ℕ → UartDevice → List ℕ × UartDevice
  read_loop zero dev = ([], dev)
  read_loop (suc n) dev =
      let (bytes, dev') = read_loop n (record dev { rindex = advance dev.rindex }) in
      if dev.rindex == dev.windex then ([], dev) else (get_or dev.cbuf dev.rindex 0 ∷ bytes, dev')
