-- ===== src/Device/Arduino/Tests.antt =====
-- A board whose clock is about to wrap around, with an instance of the property of
-- src/serial-device-arduino.cpp.
use libsmp.Base.{ℕ, ◌+◌, ◌%◌, ◌^◌, ◌≤◌, ◌≡◌, refl, arith, true, some, List, [], ◌∷◌}
use libsmp.Base.Int.{pos}
use libsmp.Errors.{err, timedout}
use libsmp.Device.Arduino.Core.{Core}
use libsmp.Device.Arduino.Port.{wait_for, count_time}
use libsmp.Device.Arduino.Waiting.{
  Clock, EndsBy, began_at, after_rounds, first_round, wait_for-EndsBy,
}

-- The state is the time. A look at the device takes five milliseconds and finds nothing.
abbrev core : Core ℕ
core = record {
  begin = λ w dev rate. w;
  begin_mode = λ w dev rate mode. w;
  end_serial = λ w dev. w;
  available = λ w dev. (pos 0, w + 5);
  read = λ w dev. (pos 0, w);
  write = λ w dev bytes. (0, w);
  is_ready = λ w dev. (true, w);
  millis = λ w. (w % 2 ^ 32, w);
  serial_8n1 = 0;
  serial_8o1 = 1;
  serial_8e1 = 2;
}

abbrev time : ℕ → ℕ
time w = w

core-Clock : Clock core 0 time
core-Clock = record {
  value = λ w. refl;
  millis_later = λ w. omega arith;
  available_later = λ w. omega arith;
  short_round = λ w. omega arith;
  short_millis = λ w. omega arith;
}

abbrev devmap : List (List ℕ)
devmap = (115 ∷ 48 ∷ []) ∷ []

abbrev almost : ℕ
almost = 4_294_967_290

wraps : wait_for core devmap 5 almost 0 (pos 12) ≡ some (err timedout, almost + 20)
unfolding wait_for count_time
wraps = refl

late_enough :
    began_at core devmap 0 time core-Clock almost + 12
    ≤ time (
        after_rounds core devmap 0 time core-Clock 3
          (first_round core devmap 0 time core-Clock almost))
unfolding began_at after_rounds first_round
late_enough = omega arith

wait_for-EndsBy_example :
    EndsBy core devmap 0 time core-Clock
      (began_at core devmap 0 time core-Clock almost + 12)
      (wait_for core devmap 5 almost 0 (pos 12))
wait_for-EndsBy_example =
    wait_for-EndsBy core devmap 0 time core-Clock 3 5 almost 12 (omega arith) late_enough
      (omega arith)
