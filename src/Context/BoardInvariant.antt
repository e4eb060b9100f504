-- ===== src/Context/BoardInvariant.antt =====
-- What a board keeps through all the calls of its context.
use libsmp.Base.{
  ℕ, ◌≡◌, inl, inr, refl, sym, ap, ◌∙◌, Option, none, some, List, [], if◌then◌else◌, get_elem?,
  subst,
}
use libsmp.Errors.{Result, ok, err, fault}
use libsmp.Heap.{Heap}
use libsmp.Message.Store.{Message}
use libsmp.Device.Config.{Baudrate, Parity}
use libsmp.Device.Avr.Port.{
  Bits, Speed, Port, present, device_at, put_at, get_device_from_fd, put_device, find_device,
  opened, open_found, open_port, close_device, close_port, configure_device, set_config,
  init_uart_device, read_from, read_port,
}
use libsmp.Device.Avr.Port
use libsmp.Device.Avr.Line.{interrupts, bytes_in}
use libsmp.Context.Source.{answers_of}
use libsmp.Context.Opened.{process_fd_opened, wait_and_process_opened, limit_opened}
use libsmp.Context.Receive.{wait_and_process}
use libsmp.Device.Avr.Wait.{Waited, waited, wait_found, wait_device, wait_port}
use libsmp.Context.Board.{
  Board, set_serial_config, process_board, Reachable, starts, opens, closes, configures, receives,
  interrupted, sends, limits, waits, send_board, limit_board, wait_board, after_wait,
}
use libsmp.Context.Attached.{
  Attached, Attached-device, put-Attached, answers_of-Attached, replace-Attached, replace_fd,
}
use libsmp.Context.Consistent.{
  if_true, if_false, Consistent, open-Consistent, close-Consistent, configure-Consistent,
  configured_lem, unconfigured_lem,
}

module _ (bits : Bits) (setbaud : Baudrate → Speed) (size : ℕ) where
  process-Consistent :
      (b : Board) (fuel chunk : ℕ) (h : Heap)
      → Consistent bits setbaud b
      → Consistent bits setbaud (process_board size fuel chunk h b)
  unfolding process_board
  process-Consistent b fuel chunk h (inl (e, a)) = rw (if_true b.ctx.opened _ _ e) (
      inl (
        process_fd_opened (answers_of (read_port size) fuel chunk b.port).0 h b.ctx ∙ e,
        answers_of-Attached size fuel chunk b.port a,
      ))
  process-Consistent b fuel chunk h (inr (e, f)) = rw (if_false b.ctx.opened _ _ e) (inr (e, f))

  interrupt-Consistent :
      (b : Board) (i : ℕ) (bytes : List ℕ)
      → Consistent bits setbaud b
      → Consistent bits setbaud (record b { port = interrupts size b.port i bytes })
  unfolding interrupts
  interrupt-Consistent b i bytes (inl (e, a)) = inl (e, replace-Attached size b.port i _ a)
  interrupt-Consistent b i bytes (inr (e, f)) =
      inr (e, replace_fd size b.port i (bytes_in size (get_elem? b.port.devices i) bytes) ∙ f)

  send-Consistent :
      (b : Board) (h : Heap) (msg : Message)
      → Consistent bits setbaud b
      → Consistent bits setbaud (send_board h b msg).1
  unfolding send_board
  send-Consistent b h msg c = c

  limit-Consistent :
      (b : Board) (max : ℕ)
      → Consistent bits setbaud b
      → Consistent bits setbaud (limit_board b max).1
  unfolding limit_board
  limit-Consistent b max (inl (e, a)) = inl (limit_opened b.ctx max ∙ e, a)
  limit-Consistent b max (inr (e, f)) = inr (limit_opened b.ctx max ∙ e, f)

  wait_port-Attached :
      (arrivals : ℕ → List ℕ) (rounds : ℕ) (timeout : Option ℕ) (p p' : Port)
      (r : Result (Unit {0}))
      → Attached p
      → wait_port size arrivals rounds p timeout ≡ some (r, p')
      → Attached p'
  unfolding wait_port
  wait_port-Attached arrivals rounds timeout p p' r a e =
      by_device (wait_device size arrivals rounds a.2.0 timeout)
        (ap (wait_found size arrivals rounds p timeout) (sym (Attached-device p a)) ∙ e)
    where
      by_device : (w : Waited) → waited size arrivals p w ≡ some (r, p') → Attached p'
      by_device none e = cc e
      by_device (some (r', dev)) e =
          let same : record p { devices = put_device p dev } ≡ p' = cc e in
          subst Attached same (put-Attached p dev a)

  wait-Consistent :
      (arrivals : ℕ → List ℕ) (rounds : ℕ) (timeout : Option ℕ) (fuel chunk : ℕ) (h : Heap)
      (b b' : Board)
      → Consistent bits setbaud b
      → wait_board size arrivals rounds timeout fuel chunk h b ≡ some b'
      → Consistent bits setbaud b'
  unfolding wait_board
  wait-Consistent arrivals rounds timeout fuel chunk h b b' (inr (e, f)) w =
      let same : b ≡ b' = cc (sym (if_false b.ctx.opened _ _ e) ∙ w) in
      subst (Consistent bits setbaud) same (inr (e, f))
  wait-Consistent arrivals rounds timeout fuel chunk h b b' (inl (e, a)) w =
      by_wait (wait_port size arrivals rounds b.port timeout) refl
        (sym (if_true b.ctx.opened _ _ e) ∙ w)
    where
      ends :
          (c : Board)
          → (c.ctx.opened ≡ b.ctx.opened)
          → Attached c.port
          → ◌≡◌ {A = Option Board} (some c) (some b')
          → Consistent bits setbaud b'
      ends c o t s =
          let same : c ≡ b' = cc s in subst (Consistent bits setbaud) same (inl (o ∙ e, t))

      by_wait :
          (r : Option (Result (Unit {0}) × Port))
          → wait_port size arrivals rounds b.port timeout ≡ r
          → after_wait size arrivals fuel chunk h b r ≡ some b'
          → Consistent bits setbaud b'
      by_wait none q s = cc s
      by_wait (some (ok u, p)) q s =
          let (answers, port) = answers_of (read_port size) fuel chunk p in
          ends (record { ctx = (wait_and_process h b.ctx (ok tt) answers).3; port = port })
            (wait_and_process_opened (ok tt) answers h b.ctx)
            (answers_of-Attached size fuel chunk p
              (wait_port-Attached arrivals rounds timeout b.port p (ok u) a q))
            s
      by_wait (some (err x, p)) q s =
          ends (record { ctx = (wait_and_process h b.ctx (err x) []).3; port = p })
            (wait_and_process_opened (err x) [] h b.ctx)
            (wait_port-Attached arrivals rounds timeout b.port p (err x) a q) s
      by_wait (some (fault, p)) q s =
          ends (record { ctx = (wait_and_process h b.ctx fault []).3; port = p })
            (wait_and_process_opened fault [] h b.ctx)
            (wait_port-Attached arrivals rounds timeout b.port p fault a q) s

  Reachable-Consistent : (b : Board) → Reachable bits setbaud size b → Consistent bits setbaud b
  Reachable-Consistent b (starts ctx devices) = unfold Port.init in inr (refl, refl)
  Reachable-Consistent b (opens b' path r) =
      open-Consistent bits setbaud b' path (Reachable-Consistent b' r)
  Reachable-Consistent b (closes b' r) =
      close-Consistent bits setbaud b' (Reachable-Consistent b' r)
  Reachable-Consistent b (configures b' baudrate parity r) =
      configure-Consistent bits setbaud b' baudrate parity (Reachable-Consistent b' r)
  Reachable-Consistent b (receives b' fuel chunk h r) =
      process-Consistent b' fuel chunk h (Reachable-Consistent b' r)
  Reachable-Consistent b (sends b' h msg r) = send-Consistent b' h msg (Reachable-Consistent b' r)
  Reachable-Consistent b (limits b' max r) = limit-Consistent b' max (Reachable-Consistent b' r)
  Reachable-Consistent b (waits b' b'' arrivals rounds timeout fuel chunk h r w) =
      wait-Consistent arrivals rounds timeout fuel chunk h b' b (Reachable-Consistent b' r) w
  Reachable-Consistent b (interrupted b' i bytes r) =
      interrupt-Consistent b' i bytes (Reachable-Consistent b' r)

  -- After any sequence of calls of the context (open, close, a change of the settings or of the limit, a
  -- send, a read, a wait that ends) and of interrupts on a board, a change of the serial
  -- settings succeeds if the context is open, and accesses memory in front of the devices of the board
  -- if it is closed: no guard of the context or of the device refuses it.
  pub set_serial_config-Reachable :
      (b : Board) (baudrate : Baudrate) (parity : Parity)
      → Reachable bits setbaud size b
      → (set_serial_config bits setbaud b baudrate parity).0
        ≡ (if b.ctx.opened then ok tt else fault)
  unfolding set_serial_config
  set_serial_config-Reachable b baudrate parity r = by_state (Reachable-Consistent b r)
    where
      by_state :
          Consistent bits setbaud b
          → (set_serial_config bits setbaud b baudrate parity).0
            ≡ (if b.ctx.opened then ok tt else fault)
      by_state (inl (e, a)) =
          (configured_lem bits setbaud b.port baudrate parity a).0
          ∙ sym (if_true b.ctx.opened _ _ e)
      by_state (inr (e, f)) =
          ap (λ t. t.0) (unconfigured_lem bits setbaud b.port baudrate parity f)
          ∙ sym (if_false b.ctx.opened _ _ e)
