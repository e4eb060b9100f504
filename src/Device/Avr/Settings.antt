-- ===== src/Device/Avr/Settings.antt =====
-- What opening, configuring and closing a device leave in its registers.
use libsmp.Base.{ℕ, ◌≡◌, ◌≢◌, refl, arith, true}
use libsmp.Device.Config.{Baudrate, invalid_baudrate, Parity, parity_none, has_parity, is_odd}
use libsmp.Device.Avr.Uart.{Registers}
use libsmp.Device.Avr.Port.{Bits, Speed, set_baudrate, disable, set_parity, configure}

-- Different bits of one register are at different places.
pub record Distinct (bits : Bits) : Type 0 where
  pub enables : bits.rxen ≢ bits.txen
  pub parities : bits.upm0 ≢ bits.upm1

module _ (bits : Bits) (setbaud : Baudrate → Speed) (distinct : Distinct bits) where
  baudrate_keeps :
      (regs : Registers) (baudrate : Baudrate)
      → ((set_baudrate bits setbaud regs baudrate).csr_b ≡ regs.csr_b)
        × ((set_baudrate bits setbaud regs baudrate).csr_c ≡ regs.csr_c)
  unfolding set_baudrate
  baudrate_keeps regs invalid_baudrate = (refl, refl)
  baudrate_keeps regs baudrate = (refl, refl)

  -- Whatever the registers held and whichever settings are asked for, receiver and transmitter are
  -- enabled afterwards, the parity bits are 11 for odd, 10 for even and 00 for any other parity, and
  -- the other bits of the two registers are as they were.
  pub configure_lem :
      (regs : Registers) (baudrate : Baudrate) (parity : Parity)
      → let r = configure bits setbaud regs baudrate parity in
        (r.csr_b bits.rxen ≡ true)
        × (r.csr_b bits.txen ≡ true)
        × (r.csr_c bits.upm1 ≡ has_parity parity)
        × (r.csr_c bits.upm0 ≡ is_odd parity)
        × ((i : ℕ) → i ≢ bits.rxen → i ≢ bits.txen → r.csr_b i ≡ regs.csr_b i)
        × ((i : ℕ) → i ≢ bits.upm0 → i ≢ bits.upm1 → r.csr_c i ≡ regs.csr_c i)
  unfolding configure set_parity
  configure_lem regs baudrate parity_none =
      let k = baudrate_keeps (disable bits setbaud regs) baudrate in
      rw (k.0, k.1)
        (
          ground (arith, distinct.enables),
          ground arith,
          ground (arith, distinct.parities),
          ground (arith, distinct.parities),
          (λ i a b. ground (arith, a, b)),
          (λ i a b. ground (arith, a, b)),
        )
  configure_lem regs baudrate _ =
      let k = baudrate_keeps (disable bits setbaud regs) baudrate in
      rw (k.0, k.1)
        (
          ground (arith, distinct.enables),
          ground arith,
          ground (arith, distinct.parities),
          ground (arith, distinct.parities),
          (λ i a b. ground (arith, a, b)),
          (λ i a b. ground (arith, a, b)),
        )
