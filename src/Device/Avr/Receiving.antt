-- ===== src/Device/Avr/Receiving.antt =====
-- From the table of a chip's devices to a read: src/serial-device-avr.c, from the vectors to
-- smp_serial_device_open and smp_serial_device_read.
use libsmp.Base.{
  ℕ, ◌≤◌, ◌<◌, ◌≡◌, refl, arith, true, false, List, [], length, take, All, length-replicate,
}
use libsmp.Errors.{ok}
use libsmp.Device.Config.{Baudrate}
use libsmp.Device.Avr.Uart.{Registers}
use libsmp.Device.Avr.Ring.{Holds}
use libsmp.Device.Avr.Line.{Present-set, get_elem?-set, read_port-Serves}
use libsmp.Device.Avr.Port.{
  Bits, Speed, Port, init, init_registers, init_uart_device, open_port, read_port,
}
use libsmp.Device.Avr.Chips.{
  Chip, UartModule, Enabled, path_of, define_uart_device, avr_uart_devices, receive_bytes,
}
use libsmp.Device.Avr.Vectors.{has, rx_isr-find_device}
use libsmp.Device.Avr.Modules.{bytes_of, Open, receive_bytes-Gets}

module _ (bits : Bits) (setbaud : Baudrate → Speed) (size : ℕ) (above : 0 < size)
    (word : size ≤ 256) (start : UartModule → Registers) (chip : Chip) (e : Enabled) where
  started :
      (u : UartModule)
      → let dev = define_uart_device size start u in
        Holds size above word (record dev { regs = init_registers bits setbaud dev.regs }) []
  unfolding define_uart_device
  started u = record {
    storage = length-replicate size 0;
    read_inside = above;
    write_inside = above;
    fits = above;
    bytes = refl;
  }

  off :
      (u : UartModule)
      → (start u).csr_b bits.txen ≡ false
      → (start u).csr_b bits.rxen ≡ false
      → let dev = define_uart_device size start u in
        init_uart_device bits setbaud dev
        ≡ ok (record dev { regs = init_registers bits setbaud dev.regs })
  unfolding define_uart_device init_uart_device
  off u tx rx = rw (tx, rx) refl

  Open-open_port :
      (u : UartModule)
      → has chip e u ≡ true
      → (start u).csr_b bits.txen ≡ false
      → (start u).csr_b bits.rxen ≡ false
      → let opened =
          open_port bits setbaud (init (avr_uart_devices size start chip e)) (path_of u) in
        (opened.0 ≡ ok tt) × Open bits setbaud size above word start chip e opened.1 u []
  unfolding open_port init
  Open-open_port u h tx rx =
      let (i, isr, at, found) = rw h at (rx_isr-find_device bits setbaud size start chip e u) in
      let dev = define_uart_device size start u in
      let dev' = record dev { regs = init_registers bits setbaud dev.regs } in
      let ready : init_uart_device bits setbaud dev ≡ ok dev' = off u tx rx in
      rw (found, ready)
        (
          refl,
          record {
            index = i;
            its = (isr, at);
            serves = record {
              device = dev';
              opened = refl;
              here = get_elem?-set (avr_uart_devices size start chip e) i dev dev' at;
              holds = started u;
            };
            entries = λ j t. Present-set (avr_uart_devices size start chip e) j i dev' t;
          },
        )

  -- On either chip, whichever modules the build enables, for a module that has a device and whose
  -- transmitter and receiver are off at the start, and any bytes that modules with a device receive,
  -- fewer than the ring's size of them for this module: it can be opened by its name, no interrupt
  -- leaves the array, and a read then gives the first `n` of the bytes of this module, and of no other.
  pub read_port-receive_bytes :
      (u : UartModule) (events : List (UartModule × ℕ)) (n : ℕ)
      → has chip e u ≡ true
      → (start u).csr_b bits.txen ≡ false
      → (start u).csr_b bits.rxen ≡ false
      → All (λ event. has chip e event.0 ≡ true) events
      → length (bytes_of u events) < size
      → let opened =
          open_port bits setbaud (init (avr_uart_devices size start chip e)) (path_of u) in
        (opened.0 ≡ ok tt)
        × (p : Port) × (receive_bytes size chip e (ok opened.1) events ≡ ok p)
        × ((read_port size p n).0 ≡ ok (take n (bytes_of u events)))
  read_port-receive_bytes u events n h tx rx all small =
      let opened = open_port bits setbaud (init (avr_uart_devices size start chip e)) (path_of u) in
      let (success, o) = Open-open_port u h tx rx in
      let (p, done, last) =
        receive_bytes-Gets bits setbaud size above word start chip e events (ok opened.1) u []
          (opened.1, refl, o) all (omega arith) in
      (
        success,
        p,
        done,
        (read_port-Serves size above word n p last.index (bytes_of u events) last.serves).0,
      )
