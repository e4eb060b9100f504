-- ===== src/Device/Avr/Uninterrupted.antt =====
-- Where no interrupt comes, the steps of a read are the loop of `smp_serial_device_read`.
use libsmp.Base.{
  ℕ, zero, suc, ◌+◌, ◌*◌, ◌≤◌, ◌≡◌, inl, inr, refl, sym, ap, ◌∙◌, arith, true, false, List, [], ◌∷◌,
  ◌++◌, ◌==◌, get_or, append_assoc, append-nil, replicate, Bool-cases,
}
use libsmp.Device.Avr.Uart.{UartDevice, advance, read_loop}
use libsmp.Device.Avr.Steps.{Reading, testing, copying, finished, turn, step, play}

module _ (size : ℕ) where
  rests :
      (t : ℕ) (dev : UartDevice) (out : List ℕ)
      → play size (finished dev out) (replicate t turn) ≡ finished dev out
  unfolding play step
  rests zero dev out = refl
  rests (suc t) dev out = rests t dev out

  stops :
      (dev : UartDevice) (n : ℕ) (out : List ℕ)
      → (dev.rindex == dev.windex) ≡ true
      → step size (testing dev (suc n) out) ≡ finished dev out
  unfolding step
  stops dev n out e = rw e refl

  goes_on :
      (dev : UartDevice) (n : ℕ) (out : List ℕ)
      → (dev.rindex == dev.windex) ≡ false
      → step size (testing dev (suc n) out) ≡ copying dev n out
  unfolding step
  goes_on dev n out e = rw e refl

  -- Without interrupts the steps are the loop of a read.
  pub play-read_loop :
      (n t : ℕ) (dev : UartDevice) (out : List ℕ)
      → 4 * n + 1 ≤ t
      → play size (testing dev n out) (replicate t turn)
        ≡ finished (read_loop size n dev).1 (out ++ (read_loop size n dev).0)
  unfolding play step read_loop advance
  play-read_loop zero zero dev out h = absurd (omega arith)
  play-read_loop zero (suc t) dev out h = rests t dev out ∙ ap (finished dev) (sym (append-nil out))
  play-read_loop (suc n) (suc (suc (suc (suc t)))) dev out h =
      let after = λ (r : Reading). play size r (replicate (suc (suc (suc t))) turn) in
      elim (Bool-cases (dev.rindex == dev.windex)) [
        | inl e ↦
            ap after (stops dev n out e)
            ∙ rests (suc (suc (suc t))) dev out
            ∙ rw e (ap (finished dev) (sym (append-nil out)))
        | inr e ↦
            let b = get_or dev.cbuf dev.rindex 0 in
            let dev' = record dev { rindex = advance size dev.rindex } in
            ap after (goes_on dev n out e)
            ∙ play-read_loop n t dev' (out ++ (b ∷ [])) (omega arith)
            ∙ rw e (
                ap (finished (read_loop size n dev').1)
                  (append_assoc out (b ∷ []) (read_loop size n dev').0))
      ]
  play-read_loop (suc n) t dev out h = absurd (omega arith)
