-- ===== src/Device/Arduino/Boards.antt =====
-- The serial objects of an Arduino board, the wrapper around them and the map of their names:
-- src/serial-device-arduino.cpp, lines 40 to 147.
use libsmp.Base.{
  ℕ, ◌%◌, ◌^◌, Bool, false, Option, none, some, List, [], ◌∷◌, if◌then◌else◌, get_elem?,
}
use libsmp.Base.Int.{ℤ, pos, negsuc}
use libsmp.Device.Arduino.Core.{Core}

-- `ARDUINO_SAM_DUE`, a Teensy 3.5 or 3.6, and the other boards
pub data Target : Type 0 where
  sam_due teensy other_board : Target

-- `HAVE_HWSERIAL0` and so on, for the other boards
pub record HwSerials : Type 0 where
  pub hwserial0 : Bool
  pub hwserial1 : Bool
  pub hwserial2 : Bool
  pub hwserial3 : Bool

-- `Serial`, `Serial1` and so on, and `teensy_usb_serial`
pub data SerialObject : Type 0 where
  serial serial1 serial2 serial3 serial_usb teensy_usb_serial : SerialObject

-- the names of the map
pub data DeviceName : Type 0 where
  name0 name1 name2 name3 name_usb : DeviceName

-- "serial0" and so on, and "serialUSB"
abbrev pub text_of : DeviceName → List ℕ
text_of name0 = 115 ∷ 101 ∷ 114 ∷ 105 ∷ 97 ∷ 108 ∷ 48 ∷ []
text_of name1 = 115 ∷ 101 ∷ 114 ∷ 105 ∷ 97 ∷ 108 ∷ 49 ∷ []
text_of name2 = 115 ∷ 101 ∷ 114 ∷ 105 ∷ 97 ∷ 108 ∷ 50 ∷ []
text_of name3 = 115 ∷ 101 ∷ 114 ∷ 105 ∷ 97 ∷ 108 ∷ 51 ∷ []
text_of name_usb = 115 ∷ 101 ∷ 114 ∷ 105 ∷ 97 ∷ 108 ∷ 85 ∷ 83 ∷ 66 ∷ []

-- `DeviceMap`; the wrapper stands for the object that it points to
pub record DeviceMap : Type 0 where
  pub name : List ℕ
  pub dev : SerialObject

abbrev entry : DeviceName → SerialObject → DeviceMap
entry n s = record { name = text_of n; dev = s }

abbrev entry_if : Bool → DeviceName → SerialObject → List DeviceMap → List DeviceMap
entry_if have n s rest = if have then entry n s ∷ rest else rest

-- `devmap`
unfoldable pub devmap : Target → HwSerials → List DeviceMap
devmap sam_due h =
    entry name0 serial
    ∷ entry name1 serial1
    ∷ entry name2 serial2
    ∷ entry name3 serial3
    ∷ entry name_usb serial_usb
    ∷ []
devmap teensy h =
    entry name0 teensy_usb_serial
    ∷ entry name1 serial1
    ∷ entry name2 serial2
    ∷ entry name3 serial3
    ∷ []
devmap other_board h = entry_if h.hwserial0 name0 serial (
    entry_if h.hwserial1 name1 serial1
      (entry_if h.hwserial2 name2 serial2 (entry_if h.hwserial3 name3 serial3 [])))

unfoldable pub names_of : List DeviceMap → List (List ℕ)
names_of [] = []
names_of (m ∷ ms) = m.name ∷ names_of ms

-- What the classes of the Arduino core do, on a state `W` of the core.
pub record Classes (W : Type 0) : Type 0 where
  pub begin : W → SerialObject → ℕ → W
  pub begin_mode : W → SerialObject → ℕ → ℕ → W
  pub end_serial : W → SerialObject → W
  pub available : W → SerialObject → ℤ × W
  pub read : W → SerialObject → ℤ × W
  pub write : W → SerialObject → List ℕ → ℕ × W
  pub is_ready : W → SerialObject → Bool × W
  pub millis : W → ℕ × W
  pub serial_8n1 : ℕ
  pub serial_8o1 : ℕ
  pub serial_8e1 : ℕ

-- the call of the object of an entry
abbrev pub reach : {A : Type 0} → A → (SerialObject → A) → Option DeviceMap → A
reach out call none = out
reach out call (some m) = call m.dev

module _ {W : Type 0} (classes : Classes W) where
  -- `begin (baudrate, config)` of the object: `TeensyUSBSerial` takes no config
  unfoldable pub begin_internal : W → SerialObject → ℕ → ℕ → W
  begin_internal w teensy_usb_serial rate mode = classes.begin w teensy_usb_serial rate
  begin_internal w s rate mode = classes.begin_mode w s rate mode

  -- `ArduinoSerialCompat`, behind the map: the calls by number, which the code has tested. A rate is passed
  -- as a `uint32_t`, and a config as a `uint8_t`.
  module _ (maps : List DeviceMap) where
    abbrev pub at : {A : Type 0} → A → ℕ → (SerialObject → A) → A
    at out i call = reach out call (get_elem? maps i)

    unfoldable pub compat : Core W
    compat = record {
      begin = λ w i rate. at w i (λ s. classes.begin w s (rate % 2 ^ 32));
      begin_mode = λ w i rate mode. at w i (λ s. begin_internal w s (rate % 2 ^ 32) (mode % 256));
      end_serial = λ w i. at w i (λ s. classes.end_serial w s);
      available = λ w i. at (pos 0, w) i (λ s. classes.available w s);
      read = λ w i. at (negsuc 0, w) i (λ s. classes.read w s);
      write = λ w i bytes. at (0, w) i (λ s. classes.write w s bytes);
      is_ready = λ w i. at (false, w) i (λ s. classes.is_ready w s);
      millis = classes.millis;
      serial_8n1 = classes.serial_8n1;
      serial_8o1 = classes.serial_8o1;
      serial_8e1 = classes.serial_8e1;
    }
