-- ===== src/Device/Posix/Port.antt =====
-- The functions of src/serial-device-posix.c, where termios.h and poll.h are there.
use libsmp.Base.{ℕ, Bool, true, false, Option, none, some, List, [], ◌∷◌, ◌==◌, if◌then◌else◌}
use libsmp.Base.Int.{ℤ, pos, negsuc}
use libsmp.Errors.{
  Error, Result, ok, err, invalid_param, bad_message, too_big, no_mem, no_device, timedout, bad_fd,
  not_supported, busy, perm, would_block, io, other, pipe,
}
use libsmp.Device.Config.{
  Baudrate, baud_115200, invalid_baudrate, Parity, parity_none, parity_odd, parity_even,
  invalid_parity, set_bit, clear_bit, baud_1200, baud_2400, baud_4800, baud_9600, baud_19200,
  baud_38400, baud_57600, baud_230400, baud_460800, baud_921600, baud_1000000, baud_2000000,
  baud_4000000,
}
use libsmp.Device.Posix.System.{
  Errno, einval, ebadmsg, e2big, enomem, enoent, etimedout, ebadf, enosys, ebusy, eperm, eagain,
  eio, other_errno, Termios, System,
}

-- `SmpSerialDevice`
pub record Port : Type 0 where
  pub fd : ℤ

unfoldable pub errno_to_smp_error : Errno → Error
errno_to_smp_error einval = invalid_param
errno_to_smp_error ebadmsg = bad_message
errno_to_smp_error e2big = too_big
errno_to_smp_error enomem = no_mem
errno_to_smp_error enoent = no_device
errno_to_smp_error etimedout = timedout
errno_to_smp_error ebadf = bad_fd
errno_to_smp_error enosys = not_supported
errno_to_smp_error ebusy = busy
errno_to_smp_error eperm = perm
errno_to_smp_error eagain = would_block
errno_to_smp_error eio = io
errno_to_smp_error other_errno = other

-- `smp_serial_device_init`
unfoldable pub init : Port
init = record { fd = negsuc 0 }

-- `smp_serial_device_get_fd`
unfoldable pub get_fd : Port → Result ℕ
get_fd p = elim p.fd [ pos n ↦ ok n | negsuc n ↦ err bad_fd ]

-- the `switch` over the baud rate
unfoldable pub speed_of : {W : Type 0} → System W → Baudrate → Option ℕ
speed_of sys baud_1200 = some (sys.speed 1200)
speed_of sys baud_2400 = some (sys.speed 2400)
speed_of sys baud_4800 = some (sys.speed 4800)
speed_of sys baud_9600 = some (sys.speed 9600)
speed_of sys baud_19200 = some (sys.speed 19200)
speed_of sys baud_38400 = some (sys.speed 38400)
speed_of sys baud_57600 = some (sys.speed 57600)
speed_of sys baud_115200 = some (sys.speed 115200)
speed_of sys baud_230400 = some (sys.speed 230400)
speed_of sys baud_460800 = some (sys.speed 460800)
speed_of sys baud_921600 = some (sys.speed 921600)
speed_of sys baud_1000000 = some (sys.speed 1000000)
speed_of sys baud_2000000 = some (sys.speed 2000000)
speed_of sys baud_4000000 = some (sys.speed 4000000)
speed_of sys invalid_baudrate = none

module _ {W : Type 0} (sys : System W) where
  abbrev pub failed {ℓ} : {A : Type ℓ} → W → Result A
  failed w = err (errno_to_smp_error (sys.errno w))

  abbrev pub Opened : Type 0
  Opened = Result ℕ × Port × W

  -- `close (fd); return errno_to_smp_error (errno);`
  unfoldable pub give_up : Port → ℕ → W → Opened
  give_up p fd w = let w' = sys.close_file w (pos fd) in (failed w', p, w')

  abbrev pub configured : Port → ℕ → Option (Unit {0}) × W → Opened
  configured p fd (none, w) = give_up p fd w
  configured p fd (some _, w) = (ok fd, record { fd = pos fd }, w)

  -- 115200 bauds, and no processing of the bytes
  unfoldable pub raw : Termios → Termios
  raw term =
      let speed = sys.speed 115200 in
      sys.cfmakeraw (sys.cfsetospeed (sys.cfsetispeed term speed) speed)

  abbrev pub with_attributes : Port → ℕ → Option Termios × W → Opened
  with_attributes p fd (none, w) = give_up p fd w
  with_attributes p fd (some term, w) = configured p fd (sys.tcsetattr w (pos fd) (raw term))

  abbrev pub with_file : Port → ℕ → Bool × W → Opened
  with_file p fd (false, w) = (ok fd, record { fd = pos fd }, w)
  with_file p fd (true, w) = with_attributes p fd (sys.tcgetattr w (pos fd))

  abbrev pub after_open : Port → Option ℕ × W → Opened
  after_open p (none, w) = (failed w, p, w)
  after_open p (some fd, w) = with_file p fd (sys.isatty w (pos fd))

  -- `smp_serial_device_open`
  unfoldable pub open_port : Port → W → List ℕ → Opened
  open_port p w path = after_open p (sys.open_file w path)

  -- `smp_serial_device_close`
  unfoldable pub close_port : Port → W → Port × W
  close_port p w = (record { fd = negsuc 0 }, sys.close_file w p.fd)

  unfoldable pub set_parity : Termios → Parity → Termios
  set_parity term parity_odd = record term {
    c_cflag = set_bit (set_bit term.c_cflag sys.parenb) sys.parodd;
  }
  set_parity term parity_even = record term {
    c_cflag = clear_bit (set_bit term.c_cflag sys.parenb) sys.parodd;
  }
  set_parity term parity_none = record term { c_cflag = clear_bit term.c_cflag sys.parenb }
  set_parity term invalid_parity = record term { c_cflag = clear_bit term.c_cflag sys.parenb }

  unfoldable pub set_flow_control : Termios → Bool → Termios
  set_flow_control term true = record term {
    c_iflag = set_bit (set_bit term.c_iflag sys.ixon) sys.ixoff;
  }
  set_flow_control term false = record term {
    c_iflag = clear_bit (clear_bit term.c_iflag sys.ixon) sys.ixoff;
  }

  unfoldable pub settings : Termios → ℕ → Parity → Bool → Termios
  unfolding set_parity set_flow_control
  settings term speed parity flow_control =
      set_flow_control (set_parity (sys.cfsetospeed (sys.cfsetispeed term speed) speed) parity)
        flow_control

  -- 0, or the error
  abbrev pub finished : Option (Unit {0}) × W → Result (Unit {0}) × W
  finished (none, w) = (failed w, w)
  finished (some _, w) = (ok tt, w)

  abbrev pub with_speed : Port → Parity → Bool → Termios × W → Option ℕ → Result (Unit {0}) × W
  with_speed p parity flow_control (term, w) none = (err invalid_param, w)
  with_speed p parity flow_control (term, w) (some speed) =
      finished (sys.tcsetattr w p.fd (settings term speed parity flow_control))

  abbrev pub change_attributes :
      Port → Baudrate → Parity → Bool → Option Termios × W → Result (Unit {0}) × W
  change_attributes p baudrate parity flow_control (none, w) = (failed w, w)
  change_attributes p baudrate parity flow_control (some term, w) =
      with_speed p parity flow_control (term, w) (speed_of sys baudrate)

  abbrev pub if_terminal : Port → Baudrate → Parity → Bool → Bool × W → Result (Unit {0}) × W
  if_terminal p baudrate parity flow_control (false, w) = (err not_supported, w)
  if_terminal p baudrate parity flow_control (true, w) =
      change_attributes p baudrate parity flow_control (sys.tcgetattr w p.fd)

  -- `smp_serial_device_set_config`
  unfoldable pub set_config : Port → W → Baudrate → Parity → Bool → Result (Unit {0}) × W
  set_config p w baudrate parity flow_control =
      if_terminal p baudrate parity flow_control (sys.isatty w p.fd)

  abbrev pub count_written : Option ℕ × W → Result ℕ × W
  count_written (none, w) = (failed w, w)
  count_written (some n, w) = (ok n, w)

  -- `smp_serial_device_write`
  unfoldable pub write_port : Port → W → List ℕ → Result ℕ × W
  write_port p w bytes = count_written (sys.write_file w p.fd bytes)

  -- no bytes are the end of the file
  abbrev pub bytes_read : Option (List ℕ) × W → Result (List ℕ) × W
  bytes_read (none, w) = (failed w, w)
  bytes_read (some [], w) = (err pipe, w)
  bytes_read (some (b ∷ bs), w) = (ok (b ∷ bs), w)

  -- `smp_serial_device_read`
  unfoldable pub read_port : Port → W → ℕ → Result (List ℕ) × W
  read_port p w n = bytes_read (sys.read_file w p.fd n)

  abbrev pub polled : Option (ℕ × Bool) × W → Result (Unit {0}) × W
  polled (none, w) = (failed w, w)
  polled (some (n, pollerr), w) =
      if n == 0 then (err timedout, w) else if pollerr then (err pipe, w) else (ok tt, w)

  -- `smp_serial_device_wait`
  unfoldable pub wait : Port → W → ℤ → Result (Unit {0}) × W
  wait p w timeout_ms = polled (sys.poll w p.fd timeout_ms)
