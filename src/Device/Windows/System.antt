-- ===== src/Device/Windows/System.antt =====
-- What src/serial-device-win32.c calls of the Windows API.
use libsmp.Base.{ℕ, Bool, Option, List}

-- the values of `GetLastError` that the code names, and any other value
pub data WinError : Type 0 where
  error_file_not_found error_path_not_found error_access_denied error_invalid_access : WinError
  error_invalid_handle error_not_enough_memory error_outofmemory error_not_supported : WinError
  error_dev_not_exist error_file_exists error_already_exists error_invalid_parameter : WinError
  error_busy error_gen_failure : WinError
  other_error : WinError

-- `DCB`: the fields that the code sets, and the others
pub record Dcb : Type 0 where
  pub baud_rate : ℕ
  pub f_parity : Bool
  pub f_outx_cts_flow : Bool
  pub f_outx_dsr_flow : Bool
  pub f_dtr_control : ℕ
  pub f_rts_control : ℕ
  pub byte_size : ℕ
  pub parity : ℕ
  pub stop_bits : ℕ
  pub f_outx : Bool
  pub f_inx : Bool
  pub other_fields : ℕ → ℕ

-- `COMMTIMEOUTS`
pub record CommTimeouts : Type 0 where
  pub read_interval_timeout : ℕ
  pub read_total_timeout_multiplier : ℕ
  pub read_total_timeout_constant : ℕ
  pub write_total_timeout_multiplier : ℕ
  pub write_total_timeout_constant : ℕ

-- The values of `WaitForSingleObject`; `wait_abandoned` is any other value as well.
pub data WaitResult : Type 0 where
  wait_object_0 wait_timeout wait_failed wait_abandoned : WaitResult

-- The calls, on a state `W` of the system. A call that fails gives `none`. `INVALID_HANDLE_VALUE` is
-- the handle `none`.
pub record System (W : Type 0) : Type 0 where
  pub last_error : W → WinError
  -- for reading and writing, not shared, of a file that exists
  pub create_file : W → List ℕ → Option ℕ × W
  pub close_handle : W → Option ℕ → W
  pub get_comm_state : W → Option ℕ → Option Dcb × W
  pub set_comm_state : W → Option ℕ → Dcb → Option (Unit {0}) × W
  pub set_comm_timeouts : W → Option ℕ → CommTimeouts → Option (Unit {0}) × W
  pub write_file : W → Option ℕ → List ℕ → Option ℕ × W
  pub read_file : W → Option ℕ → ℕ → Option (List ℕ) × W
  -- with a timeout in milliseconds, or `INFINITE`
  pub wait_for_single_object : W → Option ℕ → Option ℕ → WaitResult × W
  -- the constant of a baud rate, as `CBR_1200`
  pub cbr : ℕ → ℕ
  pub noparity : ℕ
  pub oddparity : ℕ
  pub evenparity : ℕ
  pub onestopbit : ℕ
  pub dtr_control_disable : ℕ
  pub rts_control_disable : ℕ
