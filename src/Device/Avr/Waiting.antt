-- ===== src/Device/Avr/Waiting.antt =====
-- When the wait for bytes ends.
use libsmp.Base.{
  ℕ, zero, suc, ◌+◌, ◌*◌, ◌%◌, ◌^◌, ◌≤◌, ◌<◌, ◌≡◌, ◌≢◌, refl, sym, ap, ◌∙◌, arith, Bool, true,
  false, some, List, [], ◌∷◌, length, if◌then◌else◌, ltb, lt→ltb, le→ltb, ltb→lt, subst, Bool-cases,
  inl, inr,
}
use libsmp.Errors.{ok, err, timedout}
use libsmp.Device.Avr.Uart.{UartDevice, arrive}
use libsmp.Device.Avr.Ring.{Holds, is_empty, not_empty}
use libsmp.Device.Avr.Queue.{Holds-arrive}
use libsmp.Device.Avr.Wait.{count_down, wait_device}

if_same {ℓ} : {A : Type ℓ} (b : Bool) (x : A) → (if b then x else x) ≡ x
if_same true x = refl
if_same false x = refl

module _ (size : ℕ) (pos : 0 < size) (word : size ≤ 256) (arrivals : ℕ → List ℕ) where
  -- The first bytes to arrive are those of round `n`, and they are fewer than `size`.
  pub record FirstAt (k n : ℕ) : Type 0 where
    pub nothing : (j : ℕ) → k ≤ j → j < k + n → arrivals j ≡ []
    pub something : arrivals (k + n) ≢ []
    pub fits : length (arrivals (k + n)) < size

  count_down_empty :
      (fuel k timeout elapsed : ℕ) (dev : UartDevice)
      → Holds size pos word dev []
      → elapsed < timeout
      → elapsed + 5 < 2 ^ 16
      → count_down size arrivals (suc fuel) k timeout elapsed dev
        ≡ count_down size arrivals fuel (k + 1) timeout (elapsed + 5) (arrive size dev (arrivals k))
  unfolding count_down
  count_down_empty fuel k timeout elapsed dev v lt w =
      let no_wrap : (elapsed + 5) % 2 ^ 16 ≡ elapsed + 5 = omega arith in
      rw (lt→ltb elapsed timeout lt, is_empty size pos word dev v, no_wrap) refl

  -- a round without an arrival
  count_down_skip :
      (fuel k timeout elapsed : ℕ) (dev : UartDevice)
      → Holds size pos word dev []
      → arrivals k ≡ []
      → elapsed < timeout
      → elapsed + 5 < 2 ^ 16
      → count_down size arrivals (suc fuel) k timeout elapsed dev
        ≡ count_down size arrivals fuel (k + 1) timeout (elapsed + 5) dev
  unfolding arrive
  count_down_skip fuel k timeout elapsed dev v q lt w =
      count_down_empty fuel k timeout elapsed dev v lt w
      ∙ ap (λ bs. count_down size arrivals fuel (k + 1) timeout (elapsed + 5) (arrive size dev bs))
          q

  count_down_full :
      (fuel k timeout elapsed x : ℕ) (q : List ℕ) (dev : UartDevice)
      → Holds size pos word dev (x ∷ q)
      → count_down size arrivals (suc fuel) k timeout elapsed dev ≡ some (ok tt, dev)
  unfolding count_down
  count_down_full fuel k timeout elapsed x q dev v =
      rw (not_empty size pos word dev x q v) (if_same (ltb elapsed timeout) (some (ok tt, dev)))

  -- the arrival in round `n`, counted from round `k`
  count_down_arrival :
      (n fuel k timeout elapsed : ℕ) (dev : UartDevice)
      → Holds size pos word dev []
      → FirstAt k n
      → elapsed + 5 * n < timeout
      → timeout < 2 ^ 15
      → n + 2 ≤ fuel
      → (dev' : UartDevice) × (count_down size arrivals fuel k timeout elapsed dev
          ≡ some (ok tt, dev'))
        × Holds size pos word dev' (arrivals (k + n))
  count_down_arrival n zero k timeout elapsed dev v f lt w enough = absurd (omega arith)
  count_down_arrival zero (suc zero) k timeout elapsed dev v f lt w enough = absurd (omega arith)
  count_down_arrival zero (suc (suc fuel)) k timeout elapsed dev v f lt w enough =
      let here : k + 0 ≡ k = omega arith in
      by_bytes (arrivals k) refl (rw here at f.something) (rw here at f.fits)
    where
      by_bytes :
          (bs : List ℕ)
          → arrivals k ≡ bs
          → arrivals k ≢ []
          → length (arrivals k) < size
          → (dev' : UartDevice) × (count_down size arrivals (suc (suc fuel)) k timeout elapsed dev
              ≡ some (ok tt, dev'))
            × Holds size pos word dev' (arrivals (k + 0))
      by_bytes [] e ne small = absurd (ne e)
      by_bytes (x ∷ q) e ne small =
          let here : k + 0 ≡ k = omega arith in
          let held = Holds-arrive size pos word (arrivals k) dev [] v (omega arith) in
          (
            arrive size dev (arrivals k),
            count_down_empty (suc fuel) k timeout elapsed dev v (omega arith) (omega arith)
                ∙ count_down_full fuel (k + 1) timeout (elapsed + 5) x q
                    (arrive size dev (arrivals k))
                    (subst (λ t. Holds size pos word (arrive size dev (arrivals k)) t) e held),
            subst (λ i. Holds size pos word (arrive size dev (arrivals k)) (arrivals i)) (sym here)
                held,
          )
  count_down_arrival (suc n) (suc fuel) k timeout elapsed dev v f lt w enough =
      let quiet = f.nothing k (omega arith) (omega arith) in
      let later : k + 1 + n ≡ k + suc n = omega arith in
      let f' : FirstAt (k + 1) n = record {
        nothing = λ j a b. f.nothing j (omega arith) (omega arith);
        something = rw later f.something;
        fits = rw later f.fits;
      } in
      let (dev', e, held) =
        count_down_arrival n fuel (k + 1) timeout (elapsed + 5) dev v f' (omega arith) w
          (omega arith) in
      (
        dev',
        count_down_skip fuel k timeout elapsed dev v quiet (omega arith) (omega arith) ∙ e,
        subst (λ i. Holds size pos word dev' (arrivals i)) later held,
      )

  -- no arrival at all
  count_down_quiet :
      (r fuel k timeout elapsed : ℕ) (dev : UartDevice)
      → Holds size pos word dev []
      → ((j : ℕ) → arrivals j ≡ [])
      → timeout ≤ elapsed + 5 * r
      → elapsed < 2 ^ 15 + 5
      → timeout < 2 ^ 15
      → r + 1 ≤ fuel
      → count_down size arrivals fuel k timeout elapsed dev ≡ some (err timedout, dev)
  unfolding count_down
  count_down_quiet r zero k timeout elapsed dev v q lt w1 w2 enough = absurd (omega arith)
  count_down_quiet zero (suc fuel) k timeout elapsed dev v q lt w1 w2 enough =
      rw (le→ltb elapsed timeout (omega arith), is_empty size pos word dev v) refl
  count_down_quiet (suc r) (suc fuel) k timeout elapsed dev v q lt w1 w2 enough =
      elim (Bool-cases (ltb elapsed timeout)) [
        | inr e ↦ rw (e, is_empty size pos word dev v) refl
        | inl e ↦
            let lt' = ltb→lt elapsed timeout e in
            count_down_skip fuel k timeout elapsed dev v (q k) lt' (omega arith)
            ∙ count_down_quiet r fuel (k + 1) timeout (elapsed + 5) dev v q (omega arith)
                (omega arith) w2 (omega arith)
      ]

  -- A wait of `timeout` milliseconds on a device without bytes ends with success, and with the bytes
  -- to read, if the first ones, fewer than `size`, arrive in the round number `n` of 5 ms and that round
  -- begins before the timeout; the wait then takes at most `n + 2` rounds.
  pub wait_device-arrival :
      (n fuel timeout : ℕ) (dev : UartDevice)
      → Holds size pos word dev []
      → FirstAt 0 n
      → 5 * n < timeout
      → timeout < 2 ^ 15
      → n + 2 ≤ fuel
      → (dev' : UartDevice) × (wait_device size arrivals fuel dev (some timeout)
          ≡ some (ok tt, dev'))
        × Holds size pos word dev' (arrivals n)
  unfolding wait_device
  wait_device-arrival n fuel timeout dev v f lt w enough =
      let (dev', e, held) = count_down_arrival n fuel 0 timeout 0 dev v f (omega arith) w enough in
      let here : 0 + n ≡ n = omega arith in
      (
        dev',
        rw (is_empty size pos word dev v) e,
        subst (λ i. Holds size pos word dev' (arrivals i)) here held,
      )

  -- Where no byte arrives, the wait ends with `timedout`, within one round more than the timeout has
  -- steps of 5 ms, begun ones counted.
  pub wait_device-quiet :
      (r fuel timeout : ℕ) (dev : UartDevice)
      → Holds size pos word dev []
      → ((j : ℕ) → arrivals j ≡ [])
      → timeout ≤ 5 * r
      → timeout < 2 ^ 15
      → r + 1 ≤ fuel
      → wait_device size arrivals fuel dev (some timeout) ≡ some (err timedout, dev)
  unfolding wait_device
  wait_device-quiet r fuel timeout dev v q le w enough =
      rw (is_empty size pos word dev v)
        (count_down_quiet r fuel 0 timeout 0 dev v q (omega arith) (omega arith) w enough)
