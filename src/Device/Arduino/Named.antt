-- ===== src/Device/Arduino/Named.antt =====
-- Which serial object a name of the map stands for: src/serial-device-arduino.cpp, lines 40 to 167.
use libsmp.Base.{ℕ, ◌≡◌, refl, arith, Bool, true, false, none, some, get_elem?}
use libsmp.Device.Config.{same_text}
use libsmp.Device.Arduino.Port.{fd_by_name}
use libsmp.Device.Arduino.Boards.{
  Target, sam_due, teensy, other_board, HwSerials, SerialObject, serial, serial1, serial2, serial3,
  serial_usb, teensy_usb_serial, DeviceName, name0, name1, name2, name3, name_usb, text_of, devmap,
  names_of,
}

-- the devices that a board has
abbrev pub has : Target → HwSerials → DeviceName → Bool
has sam_due h n = true
has teensy h name_usb = false
has teensy h n = true
has other_board h name0 = h.hwserial0
has other_board h name1 = h.hwserial1
has other_board h name2 = h.hwserial2
has other_board h name3 = h.hwserial3
has other_board h name_usb = false

-- the object of a name
abbrev pub object_of : Target → DeviceName → SerialObject
object_of teensy name0 = teensy_usb_serial
object_of t name0 = serial
object_of t name1 = serial1
object_of t name2 = serial2
object_of t name3 = serial3
object_of t name_usb = serial_usb

abbrev pub Listed : Target → HwSerials → DeviceName → Bool → Type 0
Listed t h n true =
    (i : ℕ) × (fd_by_name (names_of (devmap t h)) (text_of n) 0 ≡ some i)
    × (get_elem? (devmap t h) i ≡ some (record { name = text_of n; dev = object_of t n }))
Listed t h n false = fd_by_name (names_of (devmap t h)) (text_of n) 0 ≡ none

flags : Bool → Bool → Bool → Bool → HwSerials
flags a b c d = record { hwserial0 = a; hwserial1 = b; hwserial2 = c; hwserial3 = d }

listed0 : (a b c d : Bool) → Listed other_board (flags a b c d) name0 a
unfolding flags devmap names_of fd_by_name same_text
listed0 true b c d = (0, refl, refl)
listed0 false b c d = ground arith

listed1 : (a b c d : Bool) → Listed other_board (flags a b c d) name1 b
unfolding flags devmap names_of fd_by_name same_text
listed1 true true c d = (1, refl, refl)
listed1 false true c d = (0, refl, refl)
listed1 a false c d = ground arith

listed2 : (a b c d : Bool) → Listed other_board (flags a b c d) name2 c
unfolding flags devmap names_of fd_by_name same_text
listed2 true true true d = (2, refl, refl)
listed2 true false true d = (1, refl, refl)
listed2 false true true d = (1, refl, refl)
listed2 false false true d = (0, refl, refl)
listed2 a b false d = ground arith

listed3 : (a b c d : Bool) → Listed other_board (flags a b c d) name3 d
unfolding flags devmap names_of fd_by_name same_text
listed3 true true true true = (3, refl, refl)
listed3 true true false true = (2, refl, refl)
listed3 true false true true = (2, refl, refl)
listed3 true false false true = (1, refl, refl)
listed3 false true true true = (2, refl, refl)
listed3 false true false true = (1, refl, refl)
listed3 false false true true = (1, refl, refl)
listed3 false false false true = (0, refl, refl)
listed3 a b c false = ground arith

no_usb : (a b c d : Bool) → Listed other_board (flags a b c d) name_usb false
unfolding flags devmap names_of fd_by_name same_text
no_usb a b c d = ground arith

-- On every board, each device is found first by its own name, and the others by none.
pub devmap-Listed : (t : Target) (h : HwSerials) (n : DeviceName) → Listed t h n (has t h n)
unfolding flags devmap names_of fd_by_name same_text
devmap-Listed sam_due h name0 = (0, refl, refl)
devmap-Listed sam_due h name1 = (1, refl, refl)
devmap-Listed sam_due h name2 = (2, refl, refl)
devmap-Listed sam_due h name3 = (3, refl, refl)
devmap-Listed sam_due h name_usb = (4, refl, refl)
devmap-Listed teensy h name0 = (0, refl, refl)
devmap-Listed teensy h name1 = (1, refl, refl)
devmap-Listed teensy h name2 = (2, refl, refl)
devmap-Listed teensy h name3 = (3, refl, refl)
devmap-Listed teensy h name_usb = refl
devmap-Listed other_board h name0 = listed0 h.hwserial0 h.hwserial1 h.hwserial2 h.hwserial3
devmap-Listed other_board h name1 = listed1 h.hwserial0 h.hwserial1 h.hwserial2 h.hwserial3
devmap-Listed other_board h name2 = listed2 h.hwserial0 h.hwserial1 h.hwserial2 h.hwserial3
devmap-Listed other_board h name3 = listed3 h.hwserial0 h.hwserial1 h.hwserial2 h.hwserial3
devmap-Listed other_board h name_usb = no_usb h.hwserial0 h.hwserial1 h.hwserial2 h.hwserial3
