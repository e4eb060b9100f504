-- ===== src/Device/Arduino/OpenTests.antt =====
-- A board whose devices answer twice that they are not ready, and one of two serial objects.
use libsmp.Base.{subst, ℕ, ◌+◌, ◌≡◌, refl, arith, true, false, some, List, [], ◌∷◌, leb}
use libsmp.Base.Int.{pos}
use libsmp.Errors.{ok}
use libsmp.Device.Config.{baud_9600, parity_odd, same_text}
use libsmp.Device.Arduino.Core.{Core}
use libsmp.Device.Arduino.Port.{
  Port, init, open_port, set_config, await, fd_by_name, get_device_from_fd, rate_of, mode_of,
}
use libsmp.Device.Arduino.Settings.{ReadyAfter, Configured, set_config-Configured}
use libsmp.Device.Arduino.Boards.{
  other_board, sam_due, HwSerials, SerialObject, serial, names_of, Classes, begin_internal, compat,
}
use libsmp.Device.Arduino.Boards
use libsmp.Device.Arduino.Opening.{Opened, open_port-Opened}

-- The state: how often the device was asked since its last begin, and its last mode.
pub record State : Type 0 where
  pub asks : ℕ
  pub rate : ℕ
  pub mode : ℕ
  pub ends : ℕ

abbrev core : Core State
core = record {
  begin = λ w dev rate. record w { asks = 0; rate = rate; mode = 0 };
  begin_mode = λ w dev rate mode. record w { asks = 0; rate = rate; mode = mode };
  end_serial = λ w dev. record w { ends = w.ends + 1 };
  available = λ w dev. (pos 0, w);
  read = λ w dev. (pos 0, w);
  write = λ w dev bytes. (0, w);
  is_ready = λ w dev. (leb 2 w.asks, record w { asks = w.asks + 1 });
  millis = λ w. (0, w);
  serial_8n1 = 10;
  serial_8o1 = 11;
  serial_8e1 = 12;
}

abbrev state : State
state = record { asks = 0; rate = 0; mode = 0; ends = 0 }

abbrev name : List ℕ
name = 115 ∷ 49 ∷ []

abbrev devmap : List (List ℕ)
devmap = (115 ∷ 48 ∷ []) ∷ name ∷ []

abbrev port : Port
port = record { fd = some 1 }

opens :
    open_port core devmap 3 init state name
    ≡ some (ok tt, port, record state { asks = 3; rate = 115200 })
unfolding open_port fd_by_name await init same_text
opens = refl

opens-Opened : Opened core devmap 2 init state name (open_port core devmap 3 init state name)
opens-Opened =
    open_port-Opened core devmap 2 3 init state name (λ i h. (refl, (refl, refl))) (omega arith)

configures :
    set_config core devmap 3 port state baud_9600 parity_odd false
    ≡ some (ok tt, record { asks = 3; rate = 9600; mode = 11; ends = 1 })
unfolding set_config get_device_from_fd rate_of mode_of await
configures = refl

-- A board with its second and third serial objects; the state is the last call.
abbrev flags : HwSerials
flags = record { hwserial0 = false; hwserial1 = true; hwserial2 = true; hwserial3 = false }

abbrev classes : Classes (List ℕ × SerialObject)
classes = record {
  begin = λ w s rate. (rate ∷ [], s);
  begin_mode = λ w s rate mode. (rate ∷ mode ∷ [], s);
  end_serial = λ w s. w;
  available = λ w s. (pos 0, w);
  read = λ w s. (pos 0, w);
  write = λ w s bytes. (0, w);
  is_ready = λ w s. (true, w);
  millis = λ w. (0, w);
  serial_8n1 = 2240;
  serial_8o1 = 704;
  serial_8e1 = 192;
}

-- Two modes that differ above the low byte reach the object as one.
same_config :
    (compat classes (Boards.devmap sam_due flags)).begin_mode ([], serial) 0 9600 2240
    ≡ (compat classes (Boards.devmap sam_due flags)).begin_mode ([], serial) 0 9600 192
unfolding compat begin_internal Boards.devmap
same_config = refl

-- The second of the two devices is open, and its settings are changed through the wrapper.
abbrev board : Core (List ℕ × SerialObject)
board = compat classes (Boards.devmap other_board flags)

abbrev names : List (List ℕ)
names = names_of (Boards.devmap other_board flags)

ready :
    (dev rate mode : ℕ)
    → get_device_from_fd board names (some 1) ≡ some dev
    → ReadyAfter board 0 (board.begin_mode (board.end_serial ([], serial) dev) dev rate mode) dev
unfolding get_device_from_fd compat Boards.devmap names_of
ready dev rate mode e =
    let same : 1 ≡ dev = cc e in
    subst
      (λ d. ReadyAfter board 0 (board.begin_mode (board.end_serial ([], serial) d) d rate mode) d)
      same refl

set_config-Configured_example :
    Configured board names 0 port
      ([], serial)
      baud_9600
      parity_odd
      false
      (set_config board names 1 port ([], serial) baud_9600 parity_odd false)
set_config-Configured_example =
    set_config-Configured board names 0 1 port ([], serial) baud_9600 parity_odd false ready
      (omega arith)
