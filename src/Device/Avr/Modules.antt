-- ===== src/Device/Avr/Modules.antt =====
-- The open device of a chip, while any of its modules receive bytes: src/serial-device-avr.c, lines 51 to
-- 160.
use libsmp.Base.{
  ℕ, suc, ◌+◌, ◌≤◌, ◌<◌, ◌≡◌, ◌≢◌, refl, ap, ◌∙◌, sym, arith, true, Option, none, some, List, [],
  ◌∷◌, ◌++◌, ◌==◌, if◌then◌else◌, length, get_elem?, set, All, append_assoc, append-nil, Bool-cases,
  length-append, inl, inr, ==_sound, subst,
}
use libsmp.Base.Int.{pos}
use libsmp.Errors.{Result, ok}
use libsmp.Device.Config.{Baudrate}
use libsmp.Device.Avr.Uart.{Registers, UartDevice, rx_interrupt_handler, arrive}
use libsmp.Device.Avr.Queue.{Holds-arrive}
use libsmp.Device.Avr.Line.{Serves, Present, Present-set, get_elem?-set, get_elem?-set_ne}
use libsmp.Device.Avr.Port.{Bits, Speed, Port}
use libsmp.Device.Avr.Chips.{
  Chip, UartModule, uart0, uart1, uart2, uart3, Enabled, digit, rx_isr, define_uart_device,
  avr_uart_devices, run_isr, receive_byte, receive_bytes,
}
use libsmp.Device.Avr.Vectors.{has, rx_isr-find_device}

-- the bytes that the module `u` receives
unfoldable pub bytes_of : UartModule → List (UartModule × ℕ) → List ℕ
bytes_of u [] = []
bytes_of u ((v, byte) ∷ events) =
    let rest = bytes_of u events in if digit u == digit v then byte ∷ rest else rest

module _ (bits : Bits) (setbaud : Baudrate → Speed) (size : ℕ) (above : 0 < size)
    (word : size ≤ 256) (start : UartModule → Registers) (chip : Chip) (e : Enabled) where
  abbrev pub table : List UartDevice
  table = avr_uart_devices size start chip e

  -- The vector of the module runs its handler on the entry number `i`.
  abbrev pub Vector : UartModule → ℕ → Type 0
  Vector u i =
      (rx_isr chip e u ≡ some (pos i))
      × (get_elem? table i ≡ some (define_uart_device size start u))

  vector : (u : UartModule) → has chip e u ≡ true → (i : ℕ) × Vector u i
  vector u h =
      let (i, isr, at, found) = rw h at (rx_isr-find_device bits setbaud size start chip e u) in
      (i, (isr, at))

  -- two modules have two entries
  apart : (u v : UartModule) (i j : ℕ) → Vector u i → Vector v j → digit u ≢ digit v → i ≢ j
  unfolding define_uart_device
  apart u v i j (_, a) (_, b) n same = n (ap digit_of (sym a ∙ ap (get_elem? table) same ∙ b))
    where
      last : List ℕ → ℕ
      last (_ ∷ _ ∷ _ ∷ _ ∷ _ ∷ _ ∷ d ∷ _) = d
      last _ = 0

      digit_of : Option UartDevice → ℕ
      digit_of none = 0
      digit_of (some dev) = last dev.name

  -- The device of the module `u` is open and holds the bytes `q`, and all entries are there.
  pub record Open (p : Port) (u : UartModule) (q : List ℕ) : Type 0 where
    pub index : ℕ
    pub its : Vector u index
    pub serves : Serves size above word p index q
    pub entries : (j : ℕ) → Present table j → Present p.devices j

  -- A run has ended well, and the module `u` has the bytes `q`.
  abbrev pub Gets : Result Port → UartModule → List ℕ → Type 0
  Gets r u q = (p : Port) × (r ≡ ok p) × Open p u q

  same_module : (u v : UartModule) → digit u ≡ digit v → u ≡ v
  same_module uart0 uart0 h = refl
  same_module uart1 uart1 h = refl
  same_module uart2 uart2 h = refl
  same_module uart3 uart3 h = refl
  same_module _ _ h = absurd (omega (arith, h))

  own_byte :
      (p : Port) (u : UartModule) (q : List ℕ) (byte : ℕ)
      → Open p u q
      → length q + 1 < size
      → Gets (receive_byte size chip e (ok p) u byte) u (q ++ (byte ∷ []))
  unfolding run_isr arrive
  own_byte p u q byte o small =
      let dev = o.serves.device in
      let dev' = rx_interrupt_handler size dev byte in
      let p' : Port = record p { devices = set p.devices o.index dev' } in
      (
        p',
        rw (o.its.0, o.serves.here) refl,
        record {
          index = o.index;
          its = o.its;
          serves = record {
            device = dev';
            opened = o.serves.opened;
            here = get_elem?-set p.devices o.index dev dev' o.serves.here;
            holds = Holds-arrive size above word (byte ∷ []) dev q o.serves.holds small;
          };
          entries = λ j t. Present-set p.devices j o.index dev' (o.entries j t);
        },
      )

  others_byte :
      (p : Port) (u v : UartModule) (q : List ℕ) (byte : ℕ)
      → Open p u q
      → has chip e v ≡ true
      → digit u ≢ digit v
      → Gets (receive_byte size chip e (ok p) v byte) u q
  unfolding run_isr
  others_byte p u v q byte o h n =
      let (j, (isr, at)) = vector v h in
      let (dev, there) = o.entries j (define_uart_device size start v, at) in
      let dev' = rx_interrupt_handler size dev byte in
      (
        record p { devices = set p.devices j dev' },
        rw (isr, there) refl,
        record {
          index = o.index;
          its = o.its;
          serves = record {
            device = o.serves.device;
            opened = o.serves.opened;
            here =
                get_elem?-set_ne p.devices o.index j dev' (apart u v o.index j o.its (isr, at) n)
                ∙ o.serves.here;
            holds = o.serves.holds;
          };
          entries = λ k t. Present-set p.devices k j dev' (o.entries k t);
        },
      )

  next_byte :
      (p : Port) (u v : UartModule) (q : List ℕ) (byte : ℕ) (events : List (UartModule × ℕ))
      → Open p u q
      → has chip e v ≡ true
      → length q + length (bytes_of u ((v, byte) ∷ events)) < size
      → (q' : List ℕ) × Gets (receive_byte size chip e (ok p) v byte) u q'
        × (q' ++ bytes_of u events ≡ q ++ bytes_of u ((v, byte) ∷ events))
  unfolding bytes_of
  next_byte p u v q byte events o h small = elim (Bool-cases (digit u == digit v)) [
    | inl same ↦
        let v_is_u = same_module u v (==_sound (digit u) (digit v) same) in
        let fits : length q + suc (length (bytes_of u events)) < size = rw same at small in
        rw same (
          q ++ (byte ∷ []),
          subst (λ w. Gets (receive_byte size chip e (ok p) w byte) u (q ++ (byte ∷ []))) v_is_u
              (own_byte p u q byte o (omega arith)),
          append_assoc q (byte ∷ []) (bytes_of u events),
        )
    | inr other ↦ rw other (q, others_byte p u v q byte o h (λ s. ground (arith, s, other)), refl)
  ]

  pub receive_bytes-Gets :
      (events : List (UartModule × ℕ)) (r : Result Port) (u : UartModule) (q : List ℕ)
      → Gets r u q
      → All (λ event. has chip e event.0 ≡ true) events
      → length q + length (bytes_of u events) < size
      → Gets (receive_bytes size chip e r events) u (q ++ bytes_of u events)
  unfolding receive_bytes bytes_of
  receive_bytes-Gets [] r u q g h small = rw append-nil g
  receive_bytes-Gets ((v, byte) ∷ events) r u q (p, done, o) (here, h) small =
      let (q', g, same) = next_byte p u v q byte events o here small in
      let split = length-append {0} q' (bytes_of u events) in
      let whole = length-append {0} q (bytes_of u ((v, byte) ∷ events)) in
      rw (done, sym same)
        (receive_bytes-Gets events (receive_byte size chip e (ok p) v byte) u q' g h
          (omega (arith, split, whole, ap length same)))
