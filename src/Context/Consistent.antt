-- ===== src/Context/Consistent.antt =====
-- An open context has an open device, and a closed one has none: opening, closing and a change of the
-- settings, src/context.c, lines 190 to 244.
use libsmp.Base.{
  ℕ, suc, ◌+◌, ◌≡◌, ◌⊎◌, inl, inr, refl, ap, arith, Bool, true, false, Option, none, some, List, [],
  ◌∷◌, if◌then◌else◌, get_elem?, Bool-cases, subst,
}
use libsmp.Errors.{Result, ok, err, fault}
use libsmp.Device.Config.{Baudrate, Parity, same_text}
use libsmp.Device.Avr.Uart.{UartDevice}
use libsmp.Device.Avr.Port.{
  Bits, Speed, Port, device_at, get_device_from_fd, find_device, opened, open_found, open_port,
  close_device, close_port, configure_device, set_config, init_uart_device,
}
use libsmp.Context.State.{Context, open_device, close}
use libsmp.Context.Board.{Board, as_count, open_board, close_board, set_serial_config}
use libsmp.Context.Attached.{Attached, Attached-device, put-Attached}
use libsmp.Device.Avr.Line.{Present, Present-set}

pub if_true {ℓ} : {A : Type ℓ} (b : Bool) (x y : A) → b ≡ true → (if b then x else y) ≡ x
if_true b x y e = ap (λ t. if t then x else y) e

pub if_false {ℓ} : {A : Type ℓ} (b : Bool) (x y : A) → b ≡ false → (if b then x else y) ≡ y
if_false b x y e = ap (λ t. if t then x else y) e

close_opened : (ctx : Context) → (close ctx).opened ≡ false
unfolding close
close_opened ctx = ground arith

module _ (bits : Bits) (setbaud : Baudrate → Speed) where
  found-Present :
      (devices : List UartDevice) (path : List ℕ) (k i : ℕ) (dev : UartDevice)
      → find_device bits setbaud devices path k ≡ some (i, dev)
      → (j : ℕ) × (i ≡ k + j) × (get_elem? devices j ≡ some dev)
  unfolding find_device
  found-Present [] path k i dev e = cc e
  found-Present (d ∷ devices) path k i dev e = elim (Bool-cases (same_text path d.name)) [
    | inl m ↦
        let same = rw m at e in
        let index : k ≡ i = cc same in
        let device : d ≡ dev = cc same in (0, omega (arith, index), ap some device)
    | inr m ↦
        let (j, f, g) = found-Present devices path (k + 1) i dev (rw m at e) in
        (suc j, omega (arith, f), g)
  ]

  -- An open context has an open device of the board; a closed one has none.
  abbrev pub Consistent : Board → Type 0
  Consistent b =
      ((b.ctx.opened ≡ true) × Attached b.port) ⊎ ((b.ctx.opened ≡ false) × (b.port.fd ≡ none))

  opened-Consistent :
      (b : Board) (i : ℕ) (r : Result UartDevice)
      → Present b.port.devices i
      → b.ctx.opened ≡ false
      → b.port.fd ≡ none
      → let o = opened bits setbaud b.port i r in
        Consistent (record { ctx = (open_device b.ctx (as_count o.0)).1; port = o.1 })
  unfolding open_device
  opened-Consistent b i (ok d) v e f =
      rw e (inl (refl, (i, refl, Present-set b.port.devices i i d v)))
  opened-Consistent b i (err x) v e f = rw e (inr (refl, f))
  opened-Consistent b i fault v e f = rw e (inr (refl, f))

  found-Consistent :
      (b : Board) (path : List ℕ) (o : Option (ℕ × UartDevice))
      → find_device bits setbaud b.port.devices path 0 ≡ o
      → b.ctx.opened ≡ false
      → b.port.fd ≡ none
      → let r = open_found bits setbaud b.port o in
        Consistent (record { ctx = (open_device b.ctx (as_count r.0)).1; port = r.1 })
  found-Consistent b path none m e f = unfold open_device in rw e (inr (refl, f))
  found-Consistent b path (some (i, dev)) m e f =
      let (j, index, here) = found-Present b.port.devices path 0 i dev m in
      let same : j ≡ i = omega (arith, index) in
      opened-Consistent b i (init_uart_device bits setbaud dev)
        (subst (Present b.port.devices) same (dev, here)) e f

  pub open-Consistent :
      (b : Board) (path : List ℕ) → Consistent b → Consistent (open_board bits setbaud b path).1
  unfolding open_board open_port
  open-Consistent b path (inl (e, a)) = rw (if_true b.ctx.opened _ _ e) (inl (e, a))
  open-Consistent b path (inr (e, f)) =
      rw (if_false b.ctx.opened _ _ e)
        (found-Consistent b path (find_device bits setbaud b.port.devices path 0) refl e f)

  closed_fd : (p : Port) → Attached p → (close_port bits setbaud p).1.fd ≡ none
  unfolding close_port
  closed_fd p a = ap (λ r. (close_device bits setbaud p r).1.fd) (Attached-device p a)

  pub close-Consistent : (b : Board) → Consistent b → Consistent (close_board bits setbaud b)
  unfolding close_board
  close-Consistent b (inl (e, a)) =
      rw (if_true b.ctx.opened _ _ e) (inr (close_opened b.ctx, closed_fd b.port a))
  close-Consistent b (inr (e, f)) = rw (if_false b.ctx.opened _ _ e) (inr (e, f))

  pub configured_lem :
      (p : Port) (baudrate : Baudrate) (parity : Parity)
      → Attached p
      → ((set_config bits setbaud p baudrate parity).0 ≡ ok tt)
        × Attached (set_config bits setbaud p baudrate parity).1
  unfolding set_config
  configured_lem p baudrate parity a = rw (Attached-device p a) (refl, put-Attached p _ a)

  pub unconfigured_lem :
      (p : Port) (baudrate : Baudrate) (parity : Parity)
      → p.fd ≡ none
      → set_config bits setbaud p baudrate parity ≡ (fault, p)
  unfolding set_config get_device_from_fd
  unconfigured_lem p baudrate parity f =
      ap (λ fd. configure_device bits setbaud p baudrate parity (device_at p.devices fd)) f

  pub configure-Consistent :
      (b : Board) (baudrate : Baudrate) (parity : Parity)
      → Consistent b
      → Consistent (set_serial_config bits setbaud b baudrate parity).1
  unfolding set_serial_config
  configure-Consistent b baudrate parity (inl (e, a)) =
      inl (e, (configured_lem b.port baudrate parity a).1)
  configure-Consistent b baudrate parity (inr (e, f)) =
      rw (unconfigured_lem b.port baudrate parity f) (inr (e, f))
