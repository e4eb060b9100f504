-- ===== src/Device/Windows/Tests.antt =====
-- A system with one serial port that refuses its timeouts, with an instance of each property of
-- src/serial-device-win32.c.
use libsmp.Base.{
  ℕ, ◌≡◌, refl, arith, Bool, true, false, Option, none, some, List, [], ◌∷◌, ◌==◌, if◌then◌else◌,
}
use libsmp.Errors.{err, invalid_param}
use libsmp.Device.Descriptors.{OneMore}
use libsmp.Device.Windows.System.{
  WinError, error_busy, error_invalid_handle, error_invalid_parameter, error_file_not_found, Dcb,
  wait_timeout, System,
}
use libsmp.Device.Windows.Port.{Port, win_error_to_smp_error, give_up, open_port}
use libsmp.Device.Windows.Lifecycle.{Tracks, Balanced, create-Balanced}

-- The handle 8 is open or not, and the last error.
abbrev World : Type 0
World = Bool × WinError

abbrev create_file : World → List ℕ → Option ℕ × World
create_file (true, e) path = (none, (true, error_busy))
create_file (false, e) [] = (none, (false, error_file_not_found))
create_file (false, e) (c ∷ path) = (some 8, (true, e))

abbrev close_handle : World → Option ℕ → World
close_handle (b, e) none = (b, error_invalid_handle)
close_handle (b, e) (some n) = if n == 8 then (false, error_busy) else (b, error_invalid_handle)

abbrev dcb : Dcb
dcb = record {
  baud_rate = 9600;
  f_parity = false;
  f_outx_cts_flow = true;
  f_outx_dsr_flow = false;
  f_dtr_control = 1;
  f_rts_control = 1;
  byte_size = 7;
  parity = 0;
  stop_bits = 0;
  f_outx = true;
  f_inx = true;
  other_fields = λ i. 0;
}

abbrev system : System World
system = record {
  last_error = λ w. w.1;
  create_file = create_file;
  close_handle = close_handle;
  get_comm_state = λ w handle. (some dcb, w);
  set_comm_state = λ w handle d. (some tt, w);
  set_comm_timeouts = λ w handle t. (none, (w.0, error_invalid_parameter));
  write_file = λ w handle bytes. (none, w);
  read_file = λ w handle n. (none, w);
  wait_for_single_object = λ w handle timeout. (wait_timeout, w);
  cbr = λ n. n;
  noparity = 0;
  oddparity = 1;
  evenparity = 2;
  onestopbit = 0;
  dtr_control_disable = 0;
  rts_control_disable = 0;
}

abbrev is_open : World → ℕ → Bool
is_open (b, e) i = if i == 8 then b else false

creates :
    (w w' : World) (path : List ℕ) (handle : ℕ)
    → create_file w path ≡ (some handle, w')
    → OneMore (is_open w) (is_open w') handle
creates (true, e) w' path handle h = cc h
creates (false, e) w' [] handle h = cc h
creates (false, e) w' (c ∷ path) handle h = record {
  fresh = ground arith;
  open_now = ground arith;
  others = λ i ne. ground arith;
}

creates_nothing :
    (w w' : World) (path : List ℕ)
    → create_file w path ≡ (none, w')
    → (i : ℕ) → is_open w' i ≡ is_open w i
creates_nothing (true, e) w' path h i = ground arith
creates_nothing (false, e) w' [] h i = ground arith
creates_nothing (false, e) w' (c ∷ path) h i = cc h

system-Tracks : Tracks system is_open
system-Tracks = record {
  creates = creates;
  creates_nothing = creates_nothing;
  closes = λ w handle. ground arith;
  closes_one = λ w handle i ne. ground arith;
  gets = λ w handle i. refl;
  sets = λ w handle d i. refl;
  sets_timeouts = λ w handle t i. refl;
}

abbrev closed : Port
closed = record { handle = none }

-- The error is the one of the timeouts, not the one that closing the handle left.
refused :
    open_port system closed (false, error_file_not_found) (67 ∷ [])
    ≡ (err invalid_param, closed, (false, error_busy))
unfolding open_port give_up win_error_to_smp_error
refused = refl

create-Balanced_example :
    Balanced system is_open system-Tracks closed
      (false, error_file_not_found)
      (67 ∷ [])
      (open_port system closed (false, error_file_not_found) (67 ∷ []))
create-Balanced_example =
    create-Balanced system is_open system-Tracks closed (false, error_file_not_found) (67 ∷ [])
