-- ===== src/Context/Arriving.antt =====
-- smp_context_process_fd of src/context.c while bytes keep arriving at the device of
-- src/serial-device-avr.c.
use libsmp.Base.{
  ℕ, zero, suc, ◌+◌, ◌≤◌, ◌<◌, ◌≡◌, ap, ◌∙◌, arith, true, inl, List, [], ◌∷◌, ◌++◌, length,
  append_assoc, length-append,
}
use libsmp.Errors.{ok}
use libsmp.Heap.{Heap}
use libsmp.Device.Avr.Ring.{Holds}
use libsmp.Device.Avr.Live.{LiveDevice, live_read, to_arrive, Took, live_read-Took}
use libsmp.Context.State.{Context}
use libsmp.Context.Receive.{process_chunk, process_reads, process_fd}
use libsmp.Context.Chunks.{returns_zero, process_reads-chunk, process_fd-process_reads}
use libsmp.Context.Source.{answers_of, goes_on, stops, ends}

module _ (size : ℕ) (pos : 0 < size) (word : size ≤ 256) where
  -- What the loop of reads does, with at most `n` bytes in each, for at most `fuel` rounds: it handles
  -- the bytes `handled`, and leaves the bytes `rest` in the device.
  pub record Served (fuel n : ℕ) (h : Heap) (ctx : Context) (l : LiveDevice)
      (q handled rest : List ℕ) (l' : LiveDevice) : Type 0 where
    pub outcome :
        process_reads h ctx (answers_of (live_read size) fuel n l).0
        ≡ returns_zero (process_chunk h ctx handled)
    pub at_end : (answers_of (live_read size) fuel n l).1 ≡ l'
    pub left : Holds size pos word l'.device rest
    pub in_order : handled ++ (rest ++ to_arrive l'.coming) ≡ q ++ to_arrive l.coming
    pub all_waiting : length q ≤ length handled

  abbrev Serves : ℕ → ℕ → Heap → Context → LiveDevice → List ℕ → Type 0
  Serves fuel n h ctx l q =
      (handled : List ℕ) × (rest : List ℕ) × (l' : LiveDevice) × Served fuel n h ctx l q handled
        rest l'

  nothing_read :
      (fuel m : ℕ) (h : Heap) (ctx : Context) (l l1 : LiveDevice) (q rest : List ℕ)
      → Took size pos word l q (suc m) [] rest l1
      → Served (suc fuel) (suc m) h ctx l q [] rest l1
  unfolding answers_of
  nothing_read fuel m h ctx l l1 q rest t =
      let answer = live_read size l (suc m) in
      let none_left = inl (ap (λ a. a.0) t.answer) in
      let over = stops answer (answers_of (live_read size) fuel (suc m) answer.1) none_left in
      record {
        outcome = ap (λ a. process_reads h ctx a.0) over ∙ ends h ctx answer.0 none_left;
        at_end = ap (λ a. a.1) over ∙ ap (λ a. a.1) t.answer;
        left = t.left;
        in_order = t.in_order;
        all_waiting = omega (arith, t.waiting);
      }

  bytes_read :
      (fuel m : ℕ) (h : Heap) (ctx : Context) (l l1 l2 : LiveDevice) (b : ℕ)
      (bs q rest handled rest' : List ℕ)
      → Took size pos word l q (suc m) (b ∷ bs) rest l1
      → (let (events, h1, ctx1) = process_chunk h ctx (b ∷ bs) in
          Served fuel (suc m) h1 ctx1 l1 rest handled rest' l2)
      → Served (suc fuel) (suc m) h ctx l q ((b ∷ bs) ++ handled) rest' l2
  unfolding answers_of
  bytes_read fuel m h ctx l l1 l2 b bs q rest handled rest' t r =
      let answer = live_read size l (suc m) in
      let reads = λ (a : LiveDevice). answers_of (live_read size) fuel (suc m) a in
      let more =
        goes_on answer (reads answer.1) b bs (ap (λ a. a.0) t.answer)
        ∙ ap (λ a. (ok (b ∷ bs) ∷ (reads a).0, (reads a).1)) (ap (λ a. a.1) t.answer) in
      record {
        outcome =
            ap (λ a. process_reads h ctx a.0) more
            ∙ process_reads-chunk b bs handled (reads l1).0 h ctx r.outcome;
        at_end = ap (λ a. a.1) more ∙ r.at_end;
        left = r.left;
        in_order =
            append_assoc (b ∷ bs) handled (rest' ++ to_arrive l2.coming)
            ∙ ap (λ t. (b ∷ bs) ++ t) r.in_order
            ∙ t.in_order;
        all_waiting = omega (arith, t.kept, r.all_waiting, length-append {0} (b ∷ bs) handled);
      }

  by_bytes :
      (fuel m : ℕ) (h : Heap) (ctx : Context) (l l1 : LiveDevice) (q out rest : List ℕ)
      → Took size pos word l q (suc m) out rest l1
      → length q + length (to_arrive l.coming) < size
      → length q + length (to_arrive l.coming) < suc fuel
      → ((h1 : Heap) (ctx1 : Context)
          → Holds size pos word l1.device rest
          → length rest + length (to_arrive l1.coming) < size
          → length rest + length (to_arrive l1.coming) < fuel
          → Serves fuel (suc m) h1 ctx1 l1 rest)
      → Serves (suc fuel) (suc m) h ctx l q
  by_bytes fuel m h ctx l l1 q [] rest t small enough next =
      ([], rest, l1, nothing_read fuel m h ctx l l1 q rest t)
  by_bytes fuel m h ctx l l1 q (b ∷ bs) rest t small enough next =
      let (events, h1, ctx1) = process_chunk h ctx (b ∷ bs) in
      let count : suc (length bs) + (length rest + length (to_arrive l1.coming))
          ≡ length q + length (to_arrive l.coming) =
        omega (
          arith,
          ap length t.in_order,
          length-append {0} bs (rest ++ to_arrive l1.coming),
          length-append {0} rest (to_arrive l1.coming),
          length-append {0} q (to_arrive l.coming),
        ) in
      let (handled, rest', l2, r) = next h1 ctx1 t.left (omega arith) (omega arith) in
      (
        (b ∷ bs) ++ handled,
        rest',
        l2,
        bytes_read fuel m h ctx l l1 l2 b bs q rest handled rest' t r,
      )

  serves :
      (fuel m : ℕ) (h : Heap) (ctx : Context) (l : LiveDevice) (q : List ℕ)
      → Holds size pos word l.device q
      → length q + length (to_arrive l.coming) < size
      → length q + length (to_arrive l.coming) < fuel
      → Serves fuel (suc m) h ctx l q
  serves zero m h ctx l q v small enough = absurd (omega arith)
  serves (suc fuel) m h ctx l q v small enough =
      let (out, rest, l1, t) = live_read-Took size pos word l q (suc m) v small in
      by_bytes fuel m h ctx l l1 q out rest t small enough
        (λ h1 ctx1 v1 s1 e1. serves fuel m h1 ctx1 l1 rest v1 s1 e1)

  -- Bytes may arrive at any point of the reads of `smp_context_process_fd`, on an open context, as long
  -- as all of them with the bytes `q` that wait before are fewer than the device's ring has: whatever the
  -- size of the chunks, the call ends within one round more than there are bytes, and returns 0 after it
  -- has done what it does with bytes `handled`. These, followed by the bytes that wait afterwards and
  -- those that are still to arrive, are `q` followed by all that arrive, in order, so that no byte is
  -- lost, repeated or handled out of order, and they have all of `q`.
  pub process_fd-Arriving :
      (fuel m : ℕ) (h : Heap) (ctx : Context) (l : LiveDevice) (q : List ℕ)
      → Holds size pos word l.device q
      → length q + length (to_arrive l.coming) < size
      → length q + length (to_arrive l.coming) < fuel
      → ctx.opened ≡ true
      → (handled : List ℕ) × (rest : List ℕ) × (l' : LiveDevice) × (process_fd h ctx
            (answers_of (live_read size) fuel (suc m) l).0
          ≡ returns_zero (process_chunk h ctx handled))
        × ((answers_of (live_read size) fuel (suc m) l).1 ≡ l')
        × Holds size pos word l'.device rest
        × (handled ++ (rest ++ to_arrive l'.coming) ≡ q ++ to_arrive l.coming)
        × (length q ≤ length handled)
  process_fd-Arriving fuel m h ctx l q v small enough e =
      let (handled, rest, l', r) = serves fuel m h ctx l q v small enough in
      (
        handled,
        rest,
        l',
        process_fd-process_reads h ctx (answers_of (live_read size) fuel (suc m) l).0 e ∙ r.outcome,
        r.at_end,
        r.left,
        r.in_order,
        r.all_waiting,
      )
