-- ===== src/Device/Posix/Settings.antt =====
-- The attributes that smp_serial_device_set_config asks for.
use libsmp.Base.{ℕ, ◌≡◌, Bool, true, false, ◌&&◌, ◌||◌, ◌==◌, if◌then◌else◌, none, some}
use libsmp.Errors.{Result, err, invalid_param, not_supported}
use libsmp.Device.Config.{Baudrate, Parity, has_parity, is_odd, invalid_baudrate, bits_per_second}
use libsmp.Device.Posix.System.{Termios, System}
use libsmp.Device.Posix.Port.{Port, failed, finished}

-- The attributes `next` are `term` with the speed set by the library and with the parity and the flow
-- control asked for: one flag says whether there is a parity, one, where there is a parity, whether
-- it is odd, and two the flow control; every other flag is as the library left it.
pub record Asked {W : Type 0} (sys : System W) (term : Termios) (speed : ℕ) (parity : Parity)
    (flow : Bool) (next : Termios) : Type 0 where
  pub base : Termios
  pub of_library : base ≡ sys.cfsetospeed (sys.cfsetispeed term speed) speed
  pub cflags :
      (i : ℕ)
      → next.c_cflag i ≡ (
          if has_parity parity && (i == sys.parodd)
          then is_odd parity
          else (if i == sys.parenb then has_parity parity else base.c_cflag i))
  pub iflags :
      (i : ℕ) → next.c_iflag i ≡ (if i == sys.ixon || i == sys.ixoff then flow else base.c_iflag i)
  pub oflags : next.c_oflag ≡ base.c_oflag
  pub lflags : next.c_lflag ≡ base.c_lflag
  pub controls : next.c_cc ≡ base.c_cc

module _ {W : Type 0} (sys : System W) where
  -- The outcome of a change of the settings, in full.
  pub data Changed (p : Port) (w : W) (baudrate : Baudrate) (parity : Parity) (flow : Bool)
      : Result (Unit {0}) × W → Type 0 where
    no_terminal :
        (w1 : W)
        → sys.isatty w p.fd ≡ (false, w1)
        → Changed p w baudrate parity flow (err not_supported, w1)
    no_attributes :
        (w1 w2 : W)
        → sys.isatty w p.fd ≡ (true, w1)
        → sys.tcgetattr w1 p.fd ≡ (none, w2)
        → Changed p w baudrate parity flow (failed sys w2, w2)
    bad_rate :
        (w1 w2 : W) (term : Termios)
        → sys.isatty w p.fd ≡ (true, w1)
        → sys.tcgetattr w1 p.fd ≡ (some term, w2)
        → baudrate ≡ invalid_baudrate
        → Changed p w baudrate parity flow (err invalid_param, w2)
    applied :
        (w1 w2 : W) (term next : Termios) (rate : ℕ)
        → sys.isatty w p.fd ≡ (true, w1)
        → sys.tcgetattr w1 p.fd ≡ (some term, w2)
        → bits_per_second baudrate ≡ some rate
        → Asked sys term (sys.speed rate) parity flow next
        → Changed p w baudrate parity flow (finished sys (sys.tcsetattr w2 p.fd next))
