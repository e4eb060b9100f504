-- ===== src/Device/Arduino/Core.antt =====
-- What src/serial-device-arduino.cpp calls of the Arduino core, through its class
-- `ArduinoSerialCompatIface`: the serial devices of the board by their number in the map of devices.
use libsmp.Base.{ℕ, Bool, List}
use libsmp.Base.Int.{ℤ}

-- The calls, on a state `W` of the core.
pub record Core (W : Type 0) : Type 0 where
  pub begin : W → ℕ → ℕ → W
  pub begin_mode : W → ℕ → ℕ → ℕ → W
  pub end_serial : W → ℕ → W
  pub available : W → ℕ → ℤ × W
  pub read : W → ℕ → ℤ × W
  pub write : W → ℕ → List ℕ → ℕ × W
  -- `operator bool`
  pub is_ready : W → ℕ → Bool × W
  pub millis : W → ℕ × W
  pub serial_8n1 : ℕ
  pub serial_8o1 : ℕ
  pub serial_8e1 : ℕ
