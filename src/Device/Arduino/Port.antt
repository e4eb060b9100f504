-- ===== src/Device/Arduino/Port.antt =====
-- The functions of src/serial-device-arduino.cpp. A loop that waits for the hardware has fuel, and
-- gives `none` where it goes on.
use libsmp.Base.{
  ℕ, zero, suc, ◌+◌, ◌-◌, ◌%◌, ◌^◌, Bool, true, false, Option, none, some, List, [], ◌∷◌, length,
  ◌==◌, if◌then◌else◌, ltb, leb,
}
use libsmp.Base.Int.{ℤ, pos, negsuc}
use libsmp.Errors.{Result, ok, err, bad_fd, no_device, invalid_param, timedout}
use libsmp.Device.Config.{
  Baudrate, baud_1200, baud_2400, baud_4800, baud_9600, baud_19200, baud_38400, baud_57600,
  baud_115200, baud_230400, baud_460800, baud_921600, baud_1000000, baud_2000000, baud_4000000,
  invalid_baudrate, Parity, parity_none, parity_odd, parity_even, invalid_parity, same_text,
}
use libsmp.Device.Arduino.Core.{Core}

-- `SmpSerialDevice`; -1 is `none`
pub record Port : Type 0 where
  pub fd : Option ℕ

-- the numbers that `available` and `read` give
abbrev pub is_positive : ℤ → Bool
is_positive (pos n) = ltb 0 n
is_positive (negsuc n) = false

abbrev pub is_zero : ℤ → Bool
is_zero (pos n) = n == 0
is_zero (negsuc n) = false

-- `smp_serial_device_init`
unfoldable pub init : Port
init = record { fd = none }

-- `smp_serial_device_get_fd`
unfoldable pub get_fd : Port → Result ℕ
get_fd p = elim p.fd [ none ↦ err bad_fd | some n ↦ ok n ]

-- the loop of `get_device_fd_by_name` over the names from number `i` on
unfoldable pub fd_by_name : List (List ℕ) → List ℕ → ℕ → Option ℕ
fd_by_name [] name i = none
fd_by_name (n ∷ names) name i =
    let rest = fd_by_name names name (i + 1) in if same_text name n then some i else rest

-- the `switch` over the baud rate
unfoldable pub rate_of : Baudrate → Option ℕ
rate_of baud_1200 = some 1200
rate_of baud_2400 = some 2400
rate_of baud_4800 = some 4800
rate_of baud_9600 = some 9600
rate_of baud_19200 = some 19200
rate_of baud_38400 = some 38400
rate_of baud_57600 = some 57600
rate_of baud_115200 = some 115200
rate_of baud_230400 = some 230400
rate_of baud_460800 = some 460800
rate_of baud_921600 = some 921600
rate_of baud_1000000 = some 1000000
rate_of baud_2000000 = some 2000000
rate_of baud_4000000 = some 4000000
rate_of invalid_baudrate = none

-- `devmap` has the names of the board's devices.
module _ {W : Type 0} (core : Core W) (devmap : List (List ℕ)) where
  -- `get_device_from_fd`: as a `size_t`, -1 is no index
  unfoldable pub get_device_from_fd : Option ℕ → Option ℕ
  get_device_from_fd none = none
  get_device_from_fd (some fd) = if leb (length devmap) fd then none else some fd

  -- `while (!(*serial));`
  unfoldable pub await : ℕ → W → ℕ → Option W
  await zero w dev = none
  await (suc fuel) w dev =
      let (ready, w1) = core.is_ready w dev in
      let rest = await fuel w1 dev in if ready then some w1 else rest

  abbrev opened : ℕ → Option W → Option (Result (Unit {0}) × Port × W)
  opened dev none = none
  opened dev (some w) = some (ok tt, record { fd = some dev }, w)

  abbrev open_named : ℕ → Port → W → Option ℕ → Option (Result (Unit {0}) × Port × W)
  open_named fuel p w none = some (err no_device, p, w)
  open_named fuel p w (some dev) = opened dev (await fuel (core.begin w dev 115200) dev)

  -- `smp_serial_device_open`
  unfoldable pub open_port : ℕ → Port → W → List ℕ → Option (Result (Unit {0}) × Port × W)
  open_port fuel p w path = open_named fuel p w (fd_by_name devmap path 0)

  abbrev close_device : Port → W → Option ℕ → Port × W
  close_device p w none = (p, w)
  close_device p w (some dev) = (record { fd = none }, core.end_serial w dev)

  -- `smp_serial_device_close`
  unfoldable pub close_port : Port → W → Port × W
  close_port p w = close_device p w (get_device_from_fd p.fd)

  -- the `switch` over the parity
  unfoldable pub mode_of : Parity → Option ℕ
  mode_of parity_none = some core.serial_8n1
  mode_of parity_odd = some core.serial_8o1
  mode_of parity_even = some core.serial_8e1
  mode_of invalid_parity = none

  abbrev restarted : Option W → Option (Result (Unit {0}) × W)
  restarted none = none
  restarted (some w) = some (ok tt, w)

  abbrev restart : ℕ → W → ℕ → Option ℕ → Option ℕ → Option (Result (Unit {0}) × W)
  restart fuel w dev none mode = some (err invalid_param, w)
  restart fuel w dev (some rate) none = some (err invalid_param, w)
  restart fuel w dev (some rate) (some mode) =
      restarted (await fuel (core.begin_mode (core.end_serial w dev) dev rate mode) dev)

  abbrev configure : ℕ → W → Option ℕ → Baudrate → Parity → Bool → Option (Result (Unit {0}) × W)
  configure fuel w none baudrate parity flow_control = some (err no_device, w)
  configure fuel w (some dev) baudrate parity true = some (err invalid_param, w)
  configure fuel w (some dev) baudrate parity false =
      restart fuel w dev (rate_of baudrate) (mode_of parity)

  -- `smp_serial_device_set_config`
  unfoldable pub set_config :
      ℕ → Port → W → Baudrate → Parity → Bool → Option (Result (Unit {0}) × W)
  set_config fuel p w baudrate parity flow_control =
      configure fuel w (get_device_from_fd p.fd) baudrate parity flow_control

  abbrev write_to : W → Option ℕ → List ℕ → Result ℕ × W
  write_to w none bytes = (err no_device, w)
  write_to w (some dev) bytes = let (n, w1) = core.write w dev bytes in (ok n, w1)

  -- `smp_serial_device_write`
  unfoldable pub write_port : Port → W → List ℕ → Result ℕ × W
  write_port p w bytes = write_to w (get_device_from_fd p.fd) bytes

  -- a byte that was read, or none of them, before the rest
  abbrev pub keep : ℤ × W → List ℕ × W → List ℕ × W
  keep (pos b, w) (bytes, w') = (b % 256 ∷ bytes, w')
  keep (negsuc n, w) rest = ([], w)

  -- the loop of `smp_serial_device_read` for at most `n` bytes
  unfoldable pub read_loop : ℕ → W → ℕ → List ℕ × W
  read_loop zero w dev = ([], w)
  read_loop (suc n) w dev =
      let (count, w1) = core.available w dev in
      let byte = core.read w1 dev in
      let rest = read_loop n byte.1 dev in if is_zero count then ([], w1) else keep byte rest

  abbrev pub read_from : W → Option ℕ → ℕ → Result (List ℕ) × W
  read_from w none n = (err no_device, w)
  read_from w (some dev) n = let (bytes, w1) = read_loop n w dev in (ok bytes, w1)

  -- `smp_serial_device_read`
  unfoldable pub read_port : Port → W → ℕ → Result (List ℕ) × W
  read_port p w n = read_from w (get_device_from_fd p.fd) n

  abbrev pub Waited : Type 0
  Waited = Option (Result (Unit {0}) × W)

  -- the loop without a timeout
  unfoldable pub spin : ℕ → W → ℕ → Waited
  spin zero w dev = none
  spin (suc fuel) w dev =
      let (count, w1) = core.available w dev in
      let rest = spin fuel w1 dev in if is_positive count then some (ok tt, w1) else rest

  abbrev pub last_try : ℤ × W → Waited
  last_try (count, w) = if is_positive count then some (ok tt, w) else some (err timedout, w)

  -- The loop with a timeout, on the clock of 32 bits: it began at `start`, and it is `current`.
  unfoldable pub count_time : ℕ → W → ℕ → ℕ → ℕ → ℕ → Waited
  count_time zero w dev start timeout current = none
  count_time (suc fuel) w dev start timeout current =
      let (count, w1) = core.available w dev in
      let (next, w2) = core.millis w1 in
      let rest = count_time fuel w2 dev start timeout next in
      if ltb ((current + 2 ^ 32 - start) % 2 ^ 32) timeout
      then (if is_positive count then some (ok tt, w1) else rest)
      else last_try (count, w1)

  -- The clock is read three times, and the second one counts.
  unfoldable pub wait_for : ℕ → W → ℕ → ℤ → Waited
  wait_for fuel w dev (negsuc n) = spin fuel w dev
  wait_for fuel w dev (pos timeout) =
      let (unused, w1) = core.millis w in
      let (start, w2) = core.millis w1 in
      let (current, w3) = core.millis w2 in count_time fuel w3 dev start timeout current

  abbrev wait_on : ℕ → W → Option ℕ → ℤ → Waited
  wait_on fuel w none timeout_ms = some (err no_device, w)
  wait_on fuel w (some dev) timeout_ms =
      let (count, w1) = core.available w dev in
      let rest = wait_for fuel w1 dev timeout_ms in
      if is_positive count then some (ok tt, w1) else rest

  -- `smp_serial_device_wait`
  unfoldable pub wait : ℕ → Port → W → ℤ → Waited
  wait fuel p w timeout_ms = wait_on fuel w (get_device_from_fd p.fd) timeout_ms
