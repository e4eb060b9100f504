-- ===== src/Device/Config.antt =====
-- `SmpSerialBaudrate` and `SmpSerialParity` of include/libsmp.h.
use libsmp.Base.{Option, none, some, List, [], ◌∷◌, ◌&&◌, ℕ, Bool, true, false, ◌==◌, if◌then◌else◌}

-- `invalid_baudrate` is any other value of the C type.
pub data Baudrate : Type 0 where
  baud_1200 baud_2400 baud_4800 baud_9600 baud_19200 baud_38400 baud_57600 : Baudrate
  baud_115200 baud_230400 baud_460800 baud_921600 : Baudrate
  baud_1000000 baud_2000000 baud_4000000 : Baudrate
  invalid_baudrate : Baudrate

pub data Parity : Type 0 where
  parity_none parity_odd parity_even : Parity
  invalid_parity : Parity

-- the rate that an enumerator names, in bits per second
abbrev pub bits_per_second : Baudrate → Option ℕ
bits_per_second baud_1200 = some 1200
bits_per_second baud_2400 = some 2400
bits_per_second baud_4800 = some 4800
bits_per_second baud_9600 = some 9600
bits_per_second baud_19200 = some 19200
bits_per_second baud_38400 = some 38400
bits_per_second baud_57600 = some 57600
bits_per_second baud_115200 = some 115200
bits_per_second baud_230400 = some 230400
bits_per_second baud_460800 = some 460800
bits_per_second baud_921600 = some 921600
bits_per_second baud_1000000 = some 1000000
bits_per_second baud_2000000 = some 2000000
bits_per_second baud_4000000 = some 4000000
bits_per_second invalid_baudrate = none

-- `*r |= bit`, where `r` says which bits are set
abbrev pub set_bit : (ℕ → Bool) → ℕ → ℕ → Bool
set_bit r bit i = if i == bit then true else r i

-- `*r &= ~bit`
abbrev pub clear_bit : (ℕ → Bool) → ℕ → ℕ → Bool
clear_bit r bit i = if i == bit then false else r i

abbrev pub has_parity : Parity → Bool
has_parity parity_odd = true
has_parity parity_even = true
has_parity _ = false

abbrev pub is_odd : Parity → Bool
is_odd parity_odd = true
is_odd _ = false

-- `strcmp (a, b) == 0`
unfoldable pub same_text : List ℕ → List ℕ → Bool
same_text [] [] = true
same_text [] (y ∷ ys) = false
same_text (x ∷ xs) [] = false
same_text (x ∷ xs) (y ∷ ys) = (x == y) && same_text xs ys
