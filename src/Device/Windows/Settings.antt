-- ===== src/Device/Windows/Settings.antt =====
-- The settings that smp_serial_device_set_config asks for on Windows.
use libsmp.Base.{ℕ, ◌≡◌, Bool, none, some, if◌then◌else◌, leb}
use libsmp.Errors.{Result, err, invalid_param}
use libsmp.Device.Config.{Baudrate, Parity, has_parity, is_odd, invalid_baudrate, bits_per_second}
use libsmp.Device.Windows.System.{Dcb, System}
use libsmp.Device.Windows.Port.{Port, failed, finished}

-- The settings `next` are `dcb` with this rate, the parity and the flow control in both directions as
-- asked for, and all else as it was.
pub record Asked {W : Type 0} (sys : System W) (dcb : Dcb) (rate : ℕ) (parity : Parity)
    (flow : Bool) (next : Dcb) : Type 0 where
  pub rate_set : next.baud_rate ≡ rate
  pub parity_checked : next.f_parity ≡ has_parity parity
  pub parity_kind : next.parity ≡ (
      if has_parity parity
      then (if is_odd parity then sys.oddparity else sys.evenparity)
      else sys.noparity)
  pub sending : next.f_outx ≡ flow
  pub receiving : next.f_inx ≡ flow
  pub cts : next.f_outx_cts_flow ≡ dcb.f_outx_cts_flow
  pub dsr : next.f_outx_dsr_flow ≡ dcb.f_outx_dsr_flow
  pub dtr : next.f_dtr_control ≡ dcb.f_dtr_control
  pub rts : next.f_rts_control ≡ dcb.f_rts_control
  pub bits : next.byte_size ≡ dcb.byte_size
  pub stops : next.stop_bits ≡ dcb.stop_bits
  pub others : next.other_fields ≡ dcb.other_fields

module _ {W : Type 0} (sys : System W) where
  -- A rate is given as its constant up to 115200, as `CBR_1200` of 1200, and as a number beyond.
  abbrev pub constant : ℕ → ℕ
  constant rate = if leb rate 115200 then sys.cbr rate else rate

  -- The outcome of a change of the settings, in full.
  pub data Changed (p : Port) (w : W) (baudrate : Baudrate) (parity : Parity) (flow : Bool)
      : Result (Unit {0}) × W → Type 0 where
    no_state :
        (w1 : W)
        → sys.get_comm_state w p.handle ≡ (none, w1)
        → Changed p w baudrate parity flow (failed sys w1, w1)
    bad_rate :
        (w1 : W) (dcb : Dcb)
        → sys.get_comm_state w p.handle ≡ (some dcb, w1)
        → baudrate ≡ invalid_baudrate
        → Changed p w baudrate parity flow (err invalid_param, w1)
    applied :
        (w1 : W) (dcb next : Dcb) (rate : ℕ)
        → sys.get_comm_state w p.handle ≡ (some dcb, w1)
        → bits_per_second baudrate ≡ some rate
        → Asked sys dcb (constant rate) parity flow next
        → Changed p w baudrate parity flow (finished sys (sys.set_comm_state w1 p.handle next))
