-- ===== src/Device/Arduino/Settings.antt =====
-- Opening a device and changing its settings: src/serial-device-arduino.cpp, lines 149 to 192 and 211 to
-- 294.
use libsmp.Base.{
  ℕ, zero, suc, ◌<◌, ◌≡◌, ◌⊎◌, Option-cases, refl, arith, Bool, true, false, Option, none, some,
  List, inl, inr, Bool-cases,
}
use libsmp.Errors.{Result, ok, err, no_device, invalid_param}
use libsmp.Device.Config.{
  Baudrate, Parity, invalid_baudrate, invalid_parity, bits_per_second, parity_none, parity_odd,
  parity_even,
}
use libsmp.Device.Arduino.Core.{Core}
use libsmp.Device.Arduino.Port.{Port, rate_of, get_device_from_fd, await, mode_of, set_config}

module _ {W : Type 0} (core : Core W) where
  -- the state after the device was asked `n` times whether it is ready
  unfoldable pub asked : ℕ → W → ℕ → W
  asked zero w dev = w
  asked (suc n) w dev = asked n (core.is_ready w dev).1 dev

  -- The device answers `n` times that it is not ready, and then that it is.
  abbrev pub ReadyAfter : ℕ → W → ℕ → Type 0
  ReadyAfter zero w dev = (core.is_ready w dev).0 ≡ true
  ReadyAfter (suc n) w dev =
      ((core.is_ready w dev).0 ≡ false) × ReadyAfter n (core.is_ready w dev).1 dev

-- the constant of a parity, of which there are three
pub data Mode {W : Type 0} (core : Core W) : Parity → ℕ → Type 0 where
  no_parity : Mode core parity_none core.serial_8n1
  odd : Mode core parity_odd core.serial_8o1
  even : Mode core parity_even core.serial_8e1

module _ {W : Type 0} (core : Core W) (devmap : List (List ℕ)) where
  pub await_lem :
      (n fuel : ℕ) (w : W) (dev : ℕ)
      → ReadyAfter core n w dev
      → n < fuel
      → await core devmap fuel w dev ≡ some (asked core (suc n) w dev)
  unfolding await asked
  await_lem n zero w dev r b = absurd (omega arith)
  await_lem zero (suc fuel) w dev r b = rw r refl
  await_lem (suc n) (suc fuel) w dev (wait, r) b =
      rw wait (await_lem n fuel (core.is_ready w dev).1 dev r (omega arith))

  -- What a change of the settings ends with. It has no effect where no device is open, or where the
  -- flow control is asked for, or a baud rate or a parity that there is not. Else the device is ended
  -- and begun again with that rate and that mode, and it was asked until it was ready.
  pub data Configured (n : ℕ) (p : Port) (w : W) (baudrate : Baudrate) (parity : Parity)
      (flow_control : Bool) : Option (Result (Unit {0}) × W) → Type 0 where
    not_open :
        get_device_from_fd core devmap p.fd ≡ none
        → Configured n p w baudrate parity flow_control (some (err no_device, w))
    refused :
        (dev : ℕ)
        → get_device_from_fd core devmap p.fd ≡ some dev
        → (flow_control ≡ true) ⊎ ((baudrate ≡ invalid_baudrate) ⊎ (parity ≡ invalid_parity))
        → Configured n p w baudrate parity flow_control (some (err invalid_param, w))
    restarted :
        (dev rate mode : ℕ)
        → get_device_from_fd core devmap p.fd ≡ some dev
        → flow_control ≡ false
        → bits_per_second baudrate ≡ some rate
        → Mode core parity mode
        → Configured n p w baudrate parity flow_control (
            some (
              ok tt,
              asked core (suc n) (core.begin_mode (core.end_serial w dev) dev rate mode) dev,
            ))

  rate_cases :
      (b : Baudrate)
      → ((b ≡ invalid_baudrate) × (rate_of b ≡ none))
        ⊎ ((rate : ℕ) × (bits_per_second b ≡ some rate) × (rate_of b ≡ some rate))
  unfolding rate_of
  rate_cases invalid_baudrate = inl (refl, refl)
  rate_cases _ = inr (_, refl, refl)

  Mode-cases :
      (b : Parity)
      → ((b ≡ invalid_parity) × (mode_of core devmap b ≡ none))
        ⊎ ((mode : ℕ) × Mode core b mode × (mode_of core devmap b ≡ some mode))
  unfolding mode_of
  Mode-cases invalid_parity = inl (refl, refl)
  Mode-cases parity_none = inr (core.serial_8n1, no_parity, refl)
  Mode-cases parity_odd = inr (core.serial_8o1, odd, refl)
  Mode-cases parity_even = inr (core.serial_8e1, even, refl)

  configure-Configured :
      (n fuel : ℕ) (p : Port) (w : W) (baudrate : Baudrate) (parity : Parity) (dev : ℕ)
      → ((rate mode : ℕ)
          → ReadyAfter core n (core.begin_mode (core.end_serial w dev) dev rate mode) dev)
      → n < fuel
      → get_device_from_fd core devmap p.fd ≡ some dev
      → Configured n p w baudrate parity false
          (set_config core devmap fuel p w baudrate parity false)
  unfolding set_config
  configure-Configured n fuel p w baudrate parity dev r b d = elim (rate_cases baudrate) [
    | inl (why, e) ↦ rw (d, e) (refused dev d (inr (inl why)))
    | inr (rate, known, e) ↦ elim (Mode-cases parity) [
      | inl (why, f) ↦ rw (d, e, f) (refused dev d (inr (inr why)))
      | inr (mode, its, f) ↦
          rw
            (
              d,
              e,
              f,
              await_lem n fuel (core.begin_mode (core.end_serial w dev) dev rate mode) dev
                  (r rate mode) b,
            )
            (restarted dev rate mode d refl known its)
    ]
  ]

  -- Where the open device, if there is one, is ready after it was asked `n` times behind a new begin,
  -- and with more fuel than that, a change of the settings ends: with an error and without any call of
  -- the core where no device is open, the flow control is asked for, or the baud rate or the parity is
  -- none; else with success, the device ended and begun again once, with the rate that the enumerator
  -- names, in bits per second, and the constant of the parity.
  pub set_config-Configured :
      (n fuel : ℕ) (p : Port) (w : W) (baudrate : Baudrate) (parity : Parity) (flow_control : Bool)
      → ((dev rate mode : ℕ)
          → get_device_from_fd core devmap p.fd ≡ some dev
          → ReadyAfter core n (core.begin_mode (core.end_serial w dev) dev rate mode) dev)
      → n < fuel
      → Configured n p w baudrate parity flow_control
          (set_config core devmap fuel p w baudrate parity flow_control)
  unfolding set_config
  set_config-Configured n fuel p w baudrate parity flow_control r b =
      elim (Option-cases (get_device_from_fd core devmap p.fd)) [
        | inl d ↦ rw d (not_open d)
        | inr (dev, d) ↦ elim (Bool-cases flow_control) [
          | inl f ↦ rw (d, f) (refused dev d (inl refl))
          | inr f ↦ rw f (
              configure-Configured n fuel p w baudrate parity dev (λ rate mode. r dev rate mode d) b
                d)
        ]
      ]
