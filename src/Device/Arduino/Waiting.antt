-- ===== src/Device/Arduino/Waiting.antt =====
-- When the wait for bytes with a timeout ends, on a clock of 32 bits that wraps around.
use libsmp.Base.{
  ℕ, zero, suc, ◌+◌, ◌-◌, ◌%◌, ◌^◌, ◌≤◌, ◌<◌, ◌≡◌, arith, true, false, some, List, inl, inr,
  Bool-cases, ltb, ltb→lt, ltb→le, le→ltb,
}
use libsmp.Base.Int.{pos}
use libsmp.Errors.{ok, err, timedout}
use libsmp.Device.Arduino.Core.{Core}
use libsmp.Device.Arduino.Port.{Waited, is_positive, count_time, last_try, wait_for}

-- What the documentation of the core says of the clock, where `time` is the real time in milliseconds:
-- `millis` gives the time since the start, modulo 2 ^ 32. Time does not go back. And it is assumed that no
-- round of the loop and no reading of the clock takes 2 ^ 31 milliseconds.
pub record Clock {W : Type 0} (core : Core W) (dev : ℕ) (time : W → ℕ) : Type 0 where
  pub value : (w : W) → (core.millis w).0 ≡ time (core.millis w).1 % 2 ^ 32
  pub millis_later : (w : W) → time w ≤ time (core.millis w).1
  pub available_later : (w : W) → time w ≤ time (core.available w dev).1
  pub short_round : (w : W) → time (core.millis (core.available w dev).1).1 < time w + 2 ^ 31
  pub short_millis : (w : W) → time (core.millis w).1 < time w + 2 ^ 31

module _ {W : Type 0} (core : Core W) (devmap : List (List ℕ)) (dev : ℕ) (time : W → ℕ)
    (clock : Clock core dev time) where
  -- the state after `n` rounds of the loop
  unfoldable pub after_rounds : ℕ → W → W
  after_rounds zero w = w
  after_rounds (suc n) w = after_rounds n (core.millis (core.available w dev).1).1

  -- How the wait ends: with data, which the last look found, or with `timedout`, where the last look
  -- found none, and not before the time `deadline`.
  pub data EndsBy (deadline : ℕ) : Waited core devmap → Type 0 where
    has_data :
        (w : W)
        → is_positive (core.available w dev).0 ≡ true
        → EndsBy deadline (some (ok tt, (core.available w dev).1))
    late :
        (w : W)
        → is_positive (core.available w dev).0 ≡ false
        → deadline ≤ time w
        → EndsBy deadline (some (err timedout, (core.available w dev).1))

  last_look :
      (deadline : ℕ) (w : W)
      → deadline ≤ time w
      → EndsBy deadline (last_try core devmap (core.available w dev))
  last_look deadline w le = elim (Bool-cases (is_positive (core.available w dev).0)) [
    | inl e ↦ rw e (has_data w e)
    | inr e ↦ rw e (late w e le)
  ]

  elapsed :
      (now began : ℕ)
      → began ≤ now
      → now < began + 2 ^ 32
      → (now % 2 ^ 32 + 2 ^ 32 - began % 2 ^ 32) % 2 ^ 32 ≡ now - began
  elapsed now began le small = omega arith

  count_time-EndsBy :
      (n fuel : ℕ) (w : W) (began timeout : ℕ)
      → began ≤ time w
      → time w < began + timeout + 2 ^ 31
      → timeout < 2 ^ 31
      → began + timeout ≤ time (after_rounds n w)
      → n < fuel
      → EndsBy
          (began + timeout)
          (count_time core devmap fuel w dev (began % 2 ^ 32) timeout (time w % 2 ^ 32))
  unfolding count_time after_rounds
  count_time-EndsBy n zero w began timeout le near small done enough = absurd (omega arith)
  count_time-EndsBy zero (suc fuel) w began timeout le near small done enough =
      let gone = elapsed (time w) began le (omega arith) in
      rw (gone, le→ltb (time w - began) timeout (omega arith)) (last_look (began + timeout) w done)
  count_time-EndsBy (suc n) (suc fuel) w began timeout le near small done enough =
      let gone = elapsed (time w) began le (omega arith) in
      let w1 = (core.available w dev).1 in
      let later = clock.available_later w in
      let next = clock.millis_later w1 in
      elim (Bool-cases (ltb (time w - began) timeout)) [
        | inr e ↦
            rw (gone, e)
              (last_look (began + timeout) w (omega (arith, ltb→le (time w - began) timeout e)))
        | inl e ↦ elim (Bool-cases (is_positive (core.available w dev).0)) [
          | inl f ↦ rw (gone, e, f) (has_data w f)
          | inr f ↦
              rw (gone, e, f, clock.value w1)
                (count_time-EndsBy n fuel (core.millis w1).1 began timeout (omega arith)
                  (omega (arith, clock.short_round w, ltb→lt (time w - began) timeout e)) small done
                  (omega arith))
        ]
      ]

  -- The time at which the wait begins to count, and the state at its first round.
  unfoldable pub began_at : W → ℕ
  began_at w = time (core.millis (core.millis w).1).1

  unfoldable pub first_round : W → W
  first_round w = (core.millis (core.millis (core.millis w).1).1).1

  -- A wait with a timeout below 2 ^ 31 milliseconds ends within one round more than its timeout takes,
  -- on a clock that gives the time modulo 2 ^ 32 and where no round and no reading of the clock takes
  -- 2 ^ 31 milliseconds: with success only if its last look found bytes, and with `timedout` only if it
  -- found none and at least the timeout has passed, even where the clock wraps around meanwhile.
  pub wait_for-EndsBy :
      (n fuel : ℕ) (w : W) (timeout : ℕ)
      → timeout < 2 ^ 31
      → began_at w + timeout ≤ time (after_rounds n (first_round w))
      → n < fuel
      → EndsBy (began_at w + timeout) (wait_for core devmap fuel w dev (pos timeout))
  unfolding wait_for began_at first_round
  wait_for-EndsBy n fuel w timeout small done enough =
      let w2 = (core.millis (core.millis w).1).1 in
      rw (clock.value (core.millis w).1, clock.value w2)
        (count_time-EndsBy n fuel (core.millis w2).1 (time w2) timeout (clock.millis_later w2)
          (omega (arith, clock.short_millis w2)) small done enough)
