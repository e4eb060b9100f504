-- ===== src/Device/Windows/Port.antt =====
-- The functions of src/serial-device-win32.c.
use libsmp.Base.{
  ℕ, ◌^◌, ◌-◌, Bool, true, false, Option, none, some, List, length, ltb, if◌then◌else◌,
}
use libsmp.Base.Int.{ℤ, pos, negsuc}
use libsmp.Errors.{
  Error, Result, ok, err, not_found, perm, bad_fd, no_mem, not_supported, no_device, exist,
  invalid_param, busy, other, overflow, pipe, timedout,
}
use libsmp.Device.Config.{
  Baudrate, baud_1200, baud_2400, baud_4800, baud_9600, baud_19200, baud_38400, baud_57600,
  baud_115200, baud_230400, baud_460800, baud_921600, baud_1000000, baud_2000000, baud_4000000,
  invalid_baudrate, Parity, parity_none, parity_odd, parity_even, invalid_parity,
}
use libsmp.Device.Windows.System.{
  WinError, error_file_not_found, error_path_not_found, error_access_denied, error_invalid_access,
  error_invalid_handle, error_not_enough_memory, error_outofmemory, error_not_supported,
  error_dev_not_exist, error_file_exists, error_already_exists, error_invalid_parameter, error_busy,
  error_gen_failure, other_error, Dcb, CommTimeouts, WaitResult, wait_object_0, wait_timeout,
  wait_failed, wait_abandoned, System,
}

-- `SmpSerialDevice`
pub record Port : Type 0 where
  pub handle : Option ℕ

unfoldable pub win_error_to_smp_error : WinError → Error
win_error_to_smp_error error_file_not_found = not_found
win_error_to_smp_error error_path_not_found = not_found
win_error_to_smp_error error_access_denied = perm
win_error_to_smp_error error_invalid_access = perm
win_error_to_smp_error error_invalid_handle = bad_fd
win_error_to_smp_error error_not_enough_memory = no_mem
win_error_to_smp_error error_outofmemory = no_mem
win_error_to_smp_error error_not_supported = not_supported
win_error_to_smp_error error_dev_not_exist = no_device
win_error_to_smp_error error_file_exists = exist
win_error_to_smp_error error_already_exists = exist
win_error_to_smp_error error_invalid_parameter = invalid_param
win_error_to_smp_error error_busy = busy
win_error_to_smp_error error_gen_failure = other
win_error_to_smp_error other_error = other

-- `MAXDWORD`
abbrev pub maxdword : ℕ
maxdword = 2 ^ 32 - 1

-- `smp_serial_device_init`
unfoldable pub init : Port
init = record { handle = none }

-- `smp_serial_device_get_fd`
unfoldable pub get_fd : Port → Option ℕ
get_fd p = p.handle

-- The timeouts that keep a read from blocking.
abbrev pub timeouts : CommTimeouts
timeouts = record {
  read_interval_timeout = maxdword;
  read_total_timeout_multiplier = 0;
  read_total_timeout_constant = 0;
  write_total_timeout_multiplier = 0;
  write_total_timeout_constant = 0;
}

module _ {W : Type 0} (sys : System W) where
  abbrev pub failed {ℓ} : {A : Type ℓ} → W → Result A
  failed w = err (win_error_to_smp_error (sys.last_error w))

  abbrev pub Opened : Type 0
  Opened = Result (Unit {0}) × Port × W

  -- the error, and then `CloseHandle`
  unfoldable pub give_up : Port → ℕ → W → Opened
  give_up p handle w = (failed w, p, sys.close_handle w (some handle))

  -- the settings of a device that was opened
  unfoldable pub initial_settings : Dcb → Dcb
  initial_settings dcb = record dcb {
    baud_rate = sys.cbr 115200;
    f_parity = false;
    f_outx_cts_flow = false;
    f_outx_dsr_flow = false;
    f_dtr_control = sys.dtr_control_disable;
    f_rts_control = sys.rts_control_disable;
    byte_size = 8;
    parity = sys.noparity;
    stop_bits = sys.onestopbit;
    f_outx = false;
    f_inx = false;
  }

  abbrev pub with_timeouts : Port → ℕ → Option (Unit {0}) × W → Opened
  with_timeouts p handle (none, w) = give_up p handle w
  with_timeouts p handle (some _, w) = (ok tt, record { handle = some handle }, w)

  abbrev pub with_settings : Port → ℕ → Option (Unit {0}) × W → Opened
  with_settings p handle (none, w) = give_up p handle w
  with_settings p handle (some _, w) =
      with_timeouts p handle (sys.set_comm_timeouts w (some handle) timeouts)

  abbrev pub with_state : Port → ℕ → Option Dcb × W → Opened
  with_state p handle (none, w) = give_up p handle w
  with_state p handle (some dcb, w) =
      with_settings p handle (sys.set_comm_state w (some handle) (initial_settings dcb))

  abbrev pub after_create : Port → Option ℕ × W → Opened
  after_create p (none, w) = (failed w, p, w)
  after_create p (some handle, w) = with_state p handle (sys.get_comm_state w (some handle))

  -- `smp_serial_device_open`
  unfoldable pub open_port : Port → W → List ℕ → Opened
  open_port p w path = after_create p (sys.create_file w path)

  -- `smp_serial_device_close`
  unfoldable pub close_port : Port → W → Port × W
  close_port p w = (record { handle = none }, sys.close_handle w p.handle)

  -- the `switch` over the baud rate
  unfoldable pub rate_of : Baudrate → Option ℕ
  rate_of baud_1200 = some (sys.cbr 1200)
  rate_of baud_2400 = some (sys.cbr 2400)
  rate_of baud_4800 = some (sys.cbr 4800)
  rate_of baud_9600 = some (sys.cbr 9600)
  rate_of baud_19200 = some (sys.cbr 19200)
  rate_of baud_38400 = some (sys.cbr 38400)
  rate_of baud_57600 = some (sys.cbr 57600)
  rate_of baud_115200 = some (sys.cbr 115200)
  rate_of baud_230400 = some 230400
  rate_of baud_460800 = some 460800
  rate_of baud_921600 = some 921600
  rate_of baud_1000000 = some 1000000
  rate_of baud_2000000 = some 2000000
  rate_of baud_4000000 = some 4000000
  rate_of invalid_baudrate = none

  unfoldable pub set_parity : Dcb → Parity → Dcb
  set_parity dcb parity_even = record dcb { f_parity = true; parity = sys.evenparity }
  set_parity dcb parity_odd = record dcb { f_parity = true; parity = sys.oddparity }
  set_parity dcb parity_none = record dcb { f_parity = false; parity = sys.noparity }
  set_parity dcb invalid_parity = record dcb { f_parity = false; parity = sys.noparity }

  unfoldable pub set_flow_control : Dcb → Bool → Dcb
  set_flow_control dcb flow_control = record dcb { f_outx = flow_control; f_inx = flow_control }

  abbrev pub finished : Option (Unit {0}) × W → Result (Unit {0}) × W
  finished (none, w) = (failed w, w)
  finished (some _, w) = (ok tt, w)

  abbrev pub with_rate : Port → Parity → Bool → Dcb × W → Option ℕ → Result (Unit {0}) × W
  with_rate p parity flow_control (dcb, w) none = (err invalid_param, w)
  with_rate p parity flow_control (dcb, w) (some rate) = finished (
      sys.set_comm_state w p.handle
        (set_flow_control (set_parity (record dcb { baud_rate = rate }) parity) flow_control))

  abbrev pub change_state : Port → Baudrate → Parity → Bool → Option Dcb × W → Result (Unit {0}) × W
  change_state p baudrate parity flow_control (none, w) = (failed w, w)
  change_state p baudrate parity flow_control (some dcb, w) =
      with_rate p parity flow_control (dcb, w) (rate_of baudrate)

  -- `smp_serial_device_set_config`
  unfoldable pub set_config : Port → W → Baudrate → Parity → Bool → Result (Unit {0}) × W
  set_config p w baudrate parity flow_control =
      change_state p baudrate parity flow_control (sys.get_comm_state w p.handle)

  -- a refused access says that the port has been removed
  unfoldable pub transfer_error : WinError → Error
  transfer_error error_access_denied = pipe
  transfer_error e = win_error_to_smp_error e

  abbrev pub transferred {ℓ} : {A : Type ℓ} → Option A × W → Result A × W
  transferred (none, w) = (err (transfer_error (sys.last_error w)), w)
  transferred (some r, w) = (ok r, w)

  -- `smp_serial_device_write`
  unfoldable pub write_port : Port → W → List ℕ → Result ℕ × W
  write_port p w bytes =
      if ltb maxdword (length bytes)
      then (err overflow, w)
      else transferred (sys.write_file w p.handle bytes)

  -- `smp_serial_device_read`
  unfoldable pub read_port : Port → W → ℕ → Result (List ℕ) × W
  read_port p w n =
      if ltb maxdword n then (err overflow, w) else transferred (sys.read_file w p.handle n)

  -- a negative timeout is `INFINITE`
  unfoldable pub timeout_of : ℤ → Option ℕ
  timeout_of (pos n) = some n
  timeout_of (negsuc n) = none

  unfoldable pub wait_error : WinError → Error
  wait_error error_gen_failure = pipe
  wait_error e = other

  abbrev pub waited : WaitResult × W → Result (Unit {0}) × W
  waited (wait_object_0, w) = (ok tt, w)
  waited (wait_timeout, w) = (err timedout, w)
  waited (wait_failed, w) = (err (wait_error (sys.last_error w)), w)
  waited (wait_abandoned, w) = (err other, w)

  -- `smp_serial_device_wait`
  unfoldable pub wait : Port → W → ℤ → Result (Unit {0}) × W
  wait p w timeout_ms = waited (sys.wait_for_single_object w p.handle (timeout_of timeout_ms))
