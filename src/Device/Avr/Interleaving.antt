-- ===== src/Device/Avr/Interleaving.antt =====
-- Interrupts that come in the middle of a read neither lose, repeat nor reorder bytes.
use libsmp.Base.{
  ℕ, zero, suc, ◌+◌, ◌*◌, ◌≤◌, ◌<◌, ◌≡◌, inl, inr, refl, sym, ap, ◌∙◌, arith, min, List, [], ◌∷◌,
  ◌++◌, length, leb, if◌then◌else◌, ◌==◌, get_or, length-append, append_assoc, append-nil, lt→ltb,
  Bool-cases,
}
use libsmp.Device.Avr.Uart.{UartDevice, rx_interrupt_handler, advance}
use libsmp.Device.Avr.Ring.{
  Holds, receive, Holds-rx_interrupt_handler, Holds-tail, not_empty, is_empty,
}
use libsmp.Device.Avr.Steps.{
  Reading, testing, copying, counting, wrapping, finished, Event, turn, interrupt, step,
  interrupted, play, arrived, turns,
}

module _ (size : ℕ) (pos : 0 < size) (word : size ≤ 256) where
  -- A read of `n` bytes of which `sent` reached the device, `count` of them before the read: what the
  -- caller has, followed by what the ring holds behind the byte in hand, is what reached the device.
  abbrev Good : ℕ → ℕ → List ℕ → Reading → Type 0
  Good n count sent (testing dev k out) =
      (q : List ℕ) × Holds size pos word dev q × (out ++ q ≡ sent) × (length out + k ≡ n)
  Good n count sent (copying dev k out) =
      (x : ℕ) × (q : List ℕ) × Holds size pos word dev (x ∷ q)
      × (out ++ (x ∷ q) ≡ sent)
      × (length out + suc k ≡ n)
  Good n count sent (counting dev k out) =
      (x : ℕ) × (q : List ℕ) × Holds size pos word dev (x ∷ q)
      × (out ++ q ≡ sent)
      × (length out + k ≡ n)
      × (1 ≤ length out)
  Good n count sent (wrapping dev k out) =
      (q : List ℕ) × Holds size pos word
        (record dev { rindex = if leb size dev.rindex then 0 else dev.rindex }) q
      × (out ++ q ≡ sent)
      × (length out + k ≡ n)
  Good n count sent (finished dev out) =
      (q : List ℕ) × Holds size pos word dev q
      × (out ++ q ≡ sent)
      × (length out ≤ n)
      × (min n count ≤ length out)

  joined :
      (dev : UartDevice) (q : List ℕ) (byte : ℕ)
      → Holds size pos word dev q
      → length q + 1 < size
      → Holds size pos word (rx_interrupt_handler size dev byte) (q ++ (byte ∷ []))
  unfolding receive
  joined dev q byte v small =
      rw (lt→ltb (length q + 1) size small) at
        (Holds-rx_interrupt_handler size pos word dev q byte v)

  behind :
      (out q : List ℕ) {sent : List ℕ} (byte : ℕ)
      → out ++ q ≡ sent
      → out ++ (q ++ (byte ∷ [])) ≡ sent ++ (byte ∷ [])
  behind out q byte e = sym (append_assoc out q (byte ∷ [])) ∙ ap (λ t. t ++ (byte ∷ [])) e

  count_behind :
      (out q : List ℕ) {sent : List ℕ} → out ++ q ≡ sent → length out + length q ≡ length sent
  count_behind out q e = sym (length-append out q) ∙ ap length e

  interrupted-Good :
      (r : Reading) (n count : ℕ) (sent : List ℕ) (byte : ℕ)
      → Good n count sent r
      → length sent + 1 < size
      → Good n count (sent ++ (byte ∷ [])) (interrupted size r byte)
  unfolding interrupted rx_interrupt_handler
  interrupted-Good (testing dev k out) n count sent byte (q, v, e, c) small = (
    q ++ (byte ∷ []),
    joined dev q byte v (omega (arith, count_behind out q e)),
    behind out q byte e,
    c,
  )
  interrupted-Good (copying dev k out) n count sent byte (x, q, v, e, c) small = (
    x,
    q ++ (byte ∷ []),
    joined dev (x ∷ q) byte v (omega (arith, count_behind out (x ∷ q) e)),
    behind out (x ∷ q) byte e,
    c,
  )
  interrupted-Good (counting dev k out) n count sent byte (x, q, v, e, c, some_out) small = (
    x,
    q ++ (byte ∷ []),
    joined dev (x ∷ q) byte v (omega (arith, count_behind out q e)),
    behind out q byte e,
    c,
    some_out,
  )
  interrupted-Good (wrapping dev k out) n count sent byte (q, v, e, c) small = (
    q ++ (byte ∷ []),
    joined (record dev { rindex = if leb size dev.rindex then 0 else dev.rindex }) q byte v
        (omega (arith, count_behind out q e)),
    behind out q byte e,
    c,
  )
  interrupted-Good (finished dev out) n count sent byte (q, v, e, c, d) small = (
    q ++ (byte ∷ []),
    joined dev q byte v (omega (arith, count_behind out q e)),
    behind out q byte e,
    c,
    d,
  )

  -- the loop's tests
  testing-Good :
      (dev : UartDevice) (k : ℕ) (out q : List ℕ) (n count : ℕ) (sent : List ℕ)
      → Holds size pos word dev q
      → out ++ q ≡ sent
      → length out + k ≡ n
      → count ≤ length sent
      → Good n count sent (step size (testing dev k out))
  unfolding step
  testing-Good dev zero out q n count sent v e c few = (q, v, e, omega arith, omega arith)
  testing-Good dev (suc k) out [] n count sent v e c few =
      rw (is_empty size pos word dev v)
        ([], v, e, omega arith, omega (arith, count_behind out [] e))
  testing-Good dev (suc k) out (x ∷ q) n count sent v e c few =
      rw (not_empty size pos word dev x q v) (x, q, v, e, c)

  step-Good :
      (r : Reading) (n count : ℕ) (sent : List ℕ)
      → Good n count sent r
      → count ≤ length sent
      → Good n count sent (step size r)
  unfolding step advance
  step-Good (testing dev k out) n count sent (q, v, e, c) few =
      testing-Good dev k out q n count sent v e c few
  step-Good (copying dev k out) n count sent (x, q, v, e, c) few = (
    x,
    q,
    v,
    ap (λ b. (out ++ (b ∷ [])) ++ q) v.bytes.0 ∙ append_assoc out (x ∷ []) q ∙ e,
    omega (arith, length-append {0} out (get_or dev.cbuf dev.rindex 0 ∷ [])),
    omega (arith, length-append {0} out (get_or dev.cbuf dev.rindex 0 ∷ [])),
  )
  step-Good (counting dev k out) n count sent (x, q, v, e, c, some_out) few =
      (q, Holds-tail size pos word dev x q v, e, c)
  step-Good (wrapping dev k out) n count sent (q, v, e, c) few = (q, v, e, c)
  step-Good (finished dev out) n count sent g few = g

  -- turns that a read takes at most
  abbrev left : Reading → ℕ
  left (testing dev k out) = 4 * k + 1
  left (copying dev k out) = 4 * k + 4
  left (counting dev k out) = 4 * k + 3
  left (wrapping dev k out) = 4 * k + 2
  left (finished dev out) = 0

  left-step : (r : Reading) (t : ℕ) → left r ≤ suc t → left (step size r) ≤ t
  unfolding step
  left-step (testing dev zero out) t h = omega arith
  left-step (testing dev (suc k) out) t h = elim (Bool-cases (dev.rindex == dev.windex)) [
    | inl e ↦ rw e (omega arith)
    | inr e ↦ rw e (omega arith)
  ]
  left-step (copying dev k out) t h = omega arith
  left-step (counting dev k out) t h = omega arith
  left-step (wrapping dev k out) t h = omega arith
  left-step (finished dev out) t h = omega arith

  left-interrupted : (r : Reading) (byte : ℕ) → left (interrupted size r byte) ≡ left r
  unfolding interrupted
  left-interrupted (testing dev k out) byte = refl
  left-interrupted (copying dev k out) byte = refl
  left-interrupted (counting dev k out) byte = refl
  left-interrupted (wrapping dev k out) byte = refl
  left-interrupted (finished dev out) byte = refl

  play-Good :
      (events : List Event) (r : Reading) (n count : ℕ) (sent : List ℕ)
      → Good n count sent r
      → count ≤ length sent
      → length sent + length (arrived events) < size
      → left r ≤ turns events
      → (dev : UartDevice) × (out : List ℕ) × (play size r events ≡ finished dev out)
        × Good n count (sent ++ arrived events) (finished dev out)
  unfolding play arrived turns
  play-Good [] (testing dev k out) n count sent g few small h = absurd (omega arith)
  play-Good [] (copying dev k out) n count sent g few small h = absurd (omega arith)
  play-Good [] (counting dev k out) n count sent g few small h = absurd (omega arith)
  play-Good [] (wrapping dev k out) n count sent g few small h = absurd (omega arith)
  play-Good [] (finished dev out) n count sent g few small h =
      (dev, out, refl, rw (append-nil sent) g)
  play-Good (turn ∷ events) r n count sent g few small h =
      play-Good events (step size r) n count sent (step-Good r n count sent g few) few small
        (left-step r (turns events) h)
  play-Good (interrupt byte ∷ events) r n count sent g few small h =
      let longer = length-append {0} sent (byte ∷ []) in
      rw append_assoc at (
        play-Good events (interrupted size r byte) n count (sent ++ (byte ∷ []))
          (interrupted-Good r n count sent byte g (omega arith)) (omega arith) (omega arith)
          (omega (arith, left-interrupted r byte)))

  -- A read of `n` bytes and interrupts that come anywhere in it, fewer than the ring has room for with
  -- the bytes `q` that wait before: it ends after at most `4 * n + 1` turns of the program. What it
  -- read, followed by what waits afterwards, is `q` followed by the bytes that arrived, in their order:
  -- none is lost, repeated or made up. It reads at most `n` bytes, and all of `q` that it can.
  pub play-finished :
      (events : List Event) (dev : UartDevice) (q : List ℕ) (n : ℕ)
      → Holds size pos word dev q
      → length q + length (arrived events) < size
      → 4 * n + 1 ≤ turns events
      → (dev' : UartDevice) × (out : List ℕ) × (rest : List ℕ) × (play size
            (testing dev n [])
            events
          ≡ finished dev' out)
        × Holds size pos word dev' rest
        × (out ++ rest ≡ q ++ arrived events)
        × (length out ≤ n)
        × (min n (length q) ≤ length out)
  play-finished events dev q n v small h =
      let (dev', out, done, g) =
        play-Good events (testing dev n []) n (length q) q (q, v, refl, omega arith) (omega arith)
          small h in
      let (rest, v', e, most, least) = g in (dev', out, rest, done, v', e, most, least)
