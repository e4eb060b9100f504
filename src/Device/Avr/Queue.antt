-- ===== src/Device/Avr/Queue.antt =====
-- Interrupts and reads in any order refine a queue of bytes.
use libsmp.Base.{
  ℕ, ◌+◌, ◌≤◌, ◌<◌, ◌≡◌, refl, arith, List, [], ◌∷◌, ◌++◌, length, take, drop, lt→ltb,
  length-append, append_assoc, append-nil,
}
use libsmp.Device.Avr.Uart.{UartDevice, rx_interrupt_handler, read_loop, arrive}
use libsmp.Device.Avr.Ring.{Holds, receive, Holds-rx_interrupt_handler, read_loop_lem}

-- A byte arrives, or the program reads at most a number of bytes.
pub data Step : Type 0 where
  arrival : ℕ → Step
  fetch : ℕ → Step

module _ (size : ℕ) where
  -- the bytes that each read gives, and the device at the end
  unfoldable pub run : UartDevice → List Step → List (List ℕ) × UartDevice
  run dev [] = ([], dev)
  run dev (arrival byte ∷ steps) = run (rx_interrupt_handler size dev byte) steps
  run dev (fetch n ∷ steps) =
      let (bytes, dev1) = read_loop size n dev in
      let (reads, dev2) = run dev1 steps in (bytes ∷ reads, dev2)

module _ (size : ℕ) (pos : 0 < size) (word : size ≤ 256) where
  -- the same for the queue of the bytes that wait
  unfoldable pub run_queue : List ℕ → List Step → List (List ℕ) × List ℕ
  run_queue q [] = ([], q)
  run_queue q (arrival byte ∷ steps) = run_queue (receive size pos word q byte) steps
  run_queue q (fetch n ∷ steps) =
      let (reads, q') = run_queue (drop n q) steps in (take n q ∷ reads, q')

  -- Interrupts and reads in any order give what they give on the queue of the bytes that wait: an
  -- arriving byte joins the queue, or, if it is the byte number `size`, empties it, and a read of `n`
  -- bytes takes the first `n` of them.
  pub run-run_queue :
      (steps : List Step) (dev : UartDevice) (q : List ℕ)
      → Holds size pos word dev q
      → ((run size dev steps).0 ≡ (run_queue q steps).0)
        × Holds size pos word (run size dev steps).1 (run_queue q steps).1
  unfolding run run_queue
  run-run_queue [] dev q v = (refl, v)
  run-run_queue (arrival byte ∷ steps) dev q v =
      run-run_queue steps (rx_interrupt_handler size dev byte) (receive size pos word q byte)
        (Holds-rx_interrupt_handler size pos word dev q byte v)
  run-run_queue (fetch n ∷ steps) dev q v =
      let (out, left) = read_loop_lem size pos word n dev q v in
      let (reads, last) = run-run_queue steps (read_loop size n dev).1 (drop n q) left in
      (rw (out, reads) refl, last)

  -- Bytes that arrive wait in their order, if they are fewer than `size` with those that wait already.
  pub Holds-arrive :
      (bs : List ℕ) (dev : UartDevice) (q : List ℕ)
      → Holds size pos word dev q
      → length q + length bs < size
      → Holds size pos word (arrive size dev bs) (q ++ bs)
  unfolding arrive receive
  Holds-arrive [] dev q v small = rw append-nil v
  Holds-arrive (b ∷ bs) dev q v small =
      let next =
        rw (lt→ltb (length q + 1) size (omega arith)) at
          (Holds-rx_interrupt_handler size pos word dev q b v) in
      rw append_assoc at (
        Holds-arrive bs (rx_interrupt_handler size dev b) (q ++ (b ∷ [])) next
          (omega (arith, length-append {0} q (b ∷ []))))
