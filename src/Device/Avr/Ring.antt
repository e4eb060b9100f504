-- ===== src/Device/Avr/Ring.antt =====
-- The ring of received bytes behaves as a queue that is emptied by an overflow.
use libsmp.Base.{
  ℕ, zero, suc, ◌+◌, ◌-◌, ◌≤◌, ◌<◌, ◌≡◌, ◌≢◌, ◌⊎◌, inl, inr, refl, sym, ap, ◌∙◌, arith, true, false,
  List, [], ◌∷◌, ◌++◌, length, ◌==◌, if◌then◌else◌, ltb, get_or, set, take, drop, get_or-set_self,
  get_or-set_ne, length-set, length-append, Bool-cases, ==_refl, ne→==, ltb→lt, ltb→le,
}
use libsmp.Device.Avr.Uart.{UartDevice, advance, rx_interrupt_handler, read_loop}

-- `size` indices, which fit a `uint8_t`
module _ (size : ℕ) (pos : 0 < size) (word : size ≤ 256) where
  -- An index moves to the next one, or from the last to the first.
  advance_cases :
      (i : ℕ)
      → i < size
      → ((advance size i ≡ i + 1) × (i + 1 < size)) ⊎ ((advance size i ≡ 0) × (i + 1 ≡ size))
  unfolding advance
  advance_cases i h = ground arith

  -- the index `n` places behind `h`, for `n` up to `size`
  abbrev place : ℕ → ℕ → ℕ
  place h n = if ltb (h + n) size then h + n else h + n - size

  advance-place : (h n : ℕ) → h < size → n < size → place (advance size h) n ≡ place h (suc n)
  advance-place h n a b = ground (arith, advance_cases h a)

  -- The indices from `h` up to `w` hold the bytes `q`.
  abbrev pub Segment : List ℕ → ℕ → List ℕ → ℕ → Type 0
  Segment buf h [] w = h ≡ w
  Segment buf h (x ∷ q) w = (get_or buf h 0 ≡ x) × Segment buf (advance size h) q w

  Segment-place :
      (buf : List ℕ) (h : ℕ) (q : List ℕ) (w : ℕ)
      → h < size
      → length q < size
      → Segment buf h q w
      → w ≡ place h (length q)
  Segment-place buf h [] w a b s = ground arith
  Segment-place buf h (x ∷ q) w a b (e, s) =
      Segment-place buf (advance size h) q w (ground (arith, advance_cases h a)) (omega arith) s
      ∙ advance-place h (length q) a (omega arith)

  place_ne : (h n : ℕ) → h < size → suc n < size → h ≢ place h (suc n)
  place_ne h n a b = ground arith

  -- A store behind the last byte does not change the bytes.
  Segment-set :
      (buf : List ℕ) (h : ℕ) (q : List ℕ) (w byte : ℕ)
      → h < size
      → length q < size
      → Segment buf h q w
      → Segment (set buf w byte) h q w
  Segment-set buf h [] w byte a b s = s
  Segment-set buf h (x ∷ q) w byte a b (e, s) =
      let apart : w ≢ h =
        λ same. place_ne h (length q) a b (sym same ∙ Segment-place buf h (x ∷ q) w a b (e, s)) in
      (
        get_or-set_ne buf byte 0 apart ∙ e,
        Segment-set buf (advance size h) q w byte (ground (arith, advance_cases h a)) (omega arith)
            s,
      )

  Segment-snoc :
      (buf : List ℕ) (h : ℕ) (q : List ℕ) (w byte : ℕ)
      → get_or buf w 0 ≡ byte
      → Segment buf h q w
      → Segment buf h (q ++ (byte ∷ [])) (advance size w)
  Segment-snoc buf h [] w byte e s = (rw s e, ap (advance size) s)
  Segment-snoc buf h (x ∷ q) w byte e (f, s) = (f, Segment-snoc buf (advance size h) q w byte e s)

  -- The device holds the received bytes `q` that were not read yet.
  pub record Holds (dev : UartDevice) (q : List ℕ) : Type 0 where
    pub storage : length dev.cbuf ≡ size
    pub read_inside : dev.rindex < size
    pub write_inside : dev.windex < size
    pub fits : length q < size
    pub bytes : Segment dev.cbuf dev.rindex q dev.windex

  -- What a received byte does to the bytes that wait: it joins them, but the byte number `size` makes
  -- them all disappear.
  unfoldable pub receive : List ℕ → ℕ → List ℕ
  receive q byte = if ltb (length q + 1) size then q ++ (byte ∷ []) else []

  Holds-joined :
      (dev : UartDevice) (q : List ℕ) (byte : ℕ)
      → Holds dev q
      → length q + 1 < size
      → Holds (rx_interrupt_handler size dev byte) (q ++ (byte ∷ []))
  unfolding rx_interrupt_handler
  Holds-joined dev q byte v small = record {
    storage = length-set dev.cbuf dev.windex byte ∙ v.storage;
    read_inside = v.read_inside;
    write_inside = ground (arith, advance_cases dev.windex v.write_inside);
    fits = omega (arith, length-append {0} q (byte ∷ []));
    bytes =
        Segment-snoc (set dev.cbuf dev.windex byte) dev.rindex q dev.windex byte
          (get_or-set_self dev.cbuf dev.windex byte 0 (omega (arith, v.storage, v.write_inside)))
          (Segment-set dev.cbuf dev.rindex q dev.windex byte v.read_inside v.fits v.bytes);
  }

  Holds-lost :
      (dev : UartDevice) (q : List ℕ) (byte : ℕ)
      → Holds dev q
      → length q + 1 ≡ size
      → Holds (rx_interrupt_handler size dev byte) []
  unfolding rx_interrupt_handler
  Holds-lost dev q byte v full = record {
    storage = length-set dev.cbuf dev.windex byte ∙ v.storage;
    read_inside = v.read_inside;
    write_inside = ground (arith, advance_cases dev.windex v.write_inside);
    fits = pos;
    bytes = ground (
      arith,
      advance_cases dev.windex v.write_inside,
      v.read_inside,
      v.write_inside,
      Segment-place dev.cbuf dev.rindex q dev.windex v.read_inside v.fits v.bytes,
    );
  }

  -- The interrupt handler refines `receive`.
  pub Holds-rx_interrupt_handler :
      (dev : UartDevice) (q : List ℕ) (byte : ℕ)
      → Holds dev q
      → Holds (rx_interrupt_handler size dev byte) (receive q byte)
  unfolding receive
  Holds-rx_interrupt_handler dev q byte v = elim (Bool-cases (ltb (length q + 1) size)) [
    | inl e ↦ rw e (Holds-joined dev q byte v (ltb→lt (length q + 1) size e))
    | inr e ↦ rw e (Holds-lost dev q byte v (omega (arith, ltb→le (length q + 1) size e, v.fits)))
  ]

  pub Holds-tail :
      (dev : UartDevice) (x : ℕ) (q : List ℕ)
      → Holds dev (x ∷ q)
      → Holds (record dev { rindex = advance size dev.rindex }) q
  Holds-tail dev x q v = record {
    storage = v.storage;
    read_inside = ground (arith, advance_cases dev.rindex v.read_inside);
    write_inside = v.write_inside;
    fits = omega (arith, v.fits);
    bytes = v.bytes.1;
  }

  pub not_empty :
      (dev : UartDevice) (x : ℕ) (q : List ℕ)
      → Holds dev (x ∷ q)
      → (dev.rindex == dev.windex) ≡ false
  not_empty dev x q v = ne→== dev.rindex dev.windex (λ same.
      place_ne dev.rindex (length q) v.read_inside v.fits
        (same ∙ Segment-place dev.cbuf dev.rindex (x ∷ q) dev.windex v.read_inside v.fits v.bytes))

  pub is_empty : (dev : UartDevice) → Holds dev [] → (dev.rindex == dev.windex) ≡ true
  is_empty dev v = ap (λ i. i == dev.windex) v.bytes ∙ ==_refl dev.windex

  -- A read of at most `n` bytes takes the first `n` bytes that wait, and leaves the others.
  pub read_loop_lem :
      (n : ℕ) (dev : UartDevice) (q : List ℕ)
      → Holds dev q
      → ((read_loop size n dev).0 ≡ take n q) × Holds (read_loop size n dev).1 (drop n q)
  unfolding read_loop
  read_loop_lem zero dev q v = (refl, v)
  read_loop_lem (suc n) dev [] v = rw (is_empty dev v) (refl, v)
  read_loop_lem (suc n) dev (x ∷ q) v =
      let (out, rest) =
        read_loop_lem n (record dev { rindex = advance size dev.rindex }) q
          (Holds-tail dev x q v) in
      rw (not_empty dev x q v, v.bytes.0, out) (refl, rest)
