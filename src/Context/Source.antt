-- ===== src/Context/Source.antt =====
-- The loop of smp_context_process_fd of src/context.c over a device: what it asks of
-- smp_serial_device_read of src/serial-device.h, and what it does then.
use libsmp.Base.{
  ℕ, zero, suc, ◌<◌, ◌≡◌, ◌⊎◌, inl, inr, sym, ap, ◌∙◌, arith, true, List, [], ◌∷◌, length, take,
  drop, take-append-drop, length-drop,
}
use libsmp.Errors.{Result, ok, err, fault, would_block}
use libsmp.Heap.{Heap}
use libsmp.Context.State.{Context}
use libsmp.Context.Receive.{process_chunk, process_reads, process_fd}
use libsmp.Context.Chunks.{returns_zero, process_reads-chunk, process_fd-process_reads}

-- A device in the states `S` as a source of bytes: in a state in which the bytes `q` wait, a read gives
-- the first of them and leaves the others, or it says in one of two ways that there are none.
pub record Source (S : Type 0) : Type 1 where
  pub read : S → ℕ → Result (List ℕ) × S
  pub Waits : S → List ℕ → Type 0
  pub some_bytes :
      (s : S) (m b : ℕ) (bs : List ℕ)
      → Waits s (b ∷ bs)
      → ((read s (suc m)).0 ≡ ok (b ∷ take m bs)) × Waits (read s (suc m)).1 (drop m bs)
  pub no_bytes :
      (s : S) (m : ℕ)
      → Waits s []
      → (((read s (suc m)).0 ≡ ok []) ⊎ ((read s (suc m)).0 ≡ err would_block))
        × Waits (read s (suc m)).1 []

abbrev pub and_then :
    {S : Type 0} → Result (List ℕ) × S → List (Result (List ℕ)) × S → List (Result (List ℕ)) × S
and_then (ok [], s) rest = (ok [] ∷ [], s)
and_then (ok (b ∷ bs), s) (answers, s') = (ok (b ∷ bs) ∷ answers, s')
and_then (err e, s) rest = (err e ∷ [], s)
and_then (fault, s) rest = (fault ∷ [], s)

-- What the device answers to the reads of at most `chunk` bytes in the loop of
-- `smp_context_process_fd`, for at most `fuel` rounds: the last answer is the one that ends the loop.
unfoldable pub answers_of :
    {S : Type 0} → (S → ℕ → Result (List ℕ) × S) → ℕ → ℕ → S → List (Result (List ℕ)) × S
answers_of read zero chunk s = ([], s)
answers_of read (suc fuel) chunk s =
    let answer = read s chunk in and_then answer (answers_of read fuel chunk answer.1)

pub goes_on :
    {S : Type 0} (answer : Result (List ℕ) × S) (rest : List (Result (List ℕ)) × S) (b : ℕ)
    (bs : List ℕ)
    → answer.0 ≡ ok (b ∷ bs)
    → and_then answer rest ≡ (ok (b ∷ bs) ∷ rest.0, rest.1)
goes_on (r, s) rest b bs e = ap (λ t. and_then (t, s) rest) e

pub stops :
    {S : Type 0} (answer : Result (List ℕ) × S) (rest : List (Result (List ℕ)) × S)
    → (answer.0 ≡ ok []) ⊎ (answer.0 ≡ err would_block)
    → and_then answer rest ≡ (answer.0 ∷ [], answer.1)
stops (r, s) rest (inl e) = ap (λ t. and_then (t, s) rest) e ∙ ap (λ t. (t ∷ [], s)) (sym e)
stops (r, s) rest (inr e) = ap (λ t. and_then (t, s) rest) e ∙ ap (λ t. (t ∷ [], s)) (sym e)

pub ends :
    (h : Heap) (ctx : Context) (r : Result (List ℕ))
    → (r ≡ ok []) ⊎ (r ≡ err would_block)
    → process_reads h ctx (r ∷ []) ≡ returns_zero (process_chunk h ctx [])
unfolding process_reads process_chunk
ends h ctx r (inl e) = ap (λ t. process_reads h ctx (t ∷ [])) e
ends h ctx r (inr e) = ap (λ t. process_reads h ctx (t ∷ [])) e

module _ {S : Type 0} (source : Source S) where
  reads :
      (fuel m : ℕ) (s : S) (q : List ℕ) (h : Heap) (ctx : Context)
      → source.Waits s q
      → length q < fuel
      → (process_reads h ctx (answers_of source.read fuel (suc m) s).0
          ≡ returns_zero (process_chunk h ctx q))
        × source.Waits (answers_of source.read fuel (suc m) s).1 []
  unfolding answers_of
  reads zero m s q h ctx w enough = absurd (omega arith)
  reads (suc fuel) m s [] h ctx w enough =
      let (e, w') = source.no_bytes s m w in
      let answer = source.read s (suc m) in
      rw (stops answer (answers_of source.read fuel (suc m) answer.1) e) (ends h ctx answer.0 e, w')
  reads (suc fuel) m s (b ∷ bs) h ctx w enough =
      let (e, w') = source.some_bytes s m b bs w in
      let answer = source.read s (suc m) in
      let (events, h1, ctx1) = process_chunk h ctx (b ∷ take m bs) in
      let (rest, left) =
        reads fuel m answer.1 (drop m bs) h1 ctx1 w' (omega (arith, length-drop {0} m bs)) in
      rw (goes_on answer (answers_of source.read fuel (suc m) answer.1) b (take m bs) e) (
        process_reads-chunk b (take m bs) (drop m bs) _ h ctx rest
            ∙ ap (λ t. returns_zero (process_chunk h ctx (b ∷ t))) (take-append-drop m bs),
        left,
      )

  -- An open context, over a device in which the bytes `q` wait: whatever the size of the chunks,
  -- `smp_context_process_fd` ends within one round more than there are bytes, returns 0 after it has
  -- done what it does with these bytes in order, and leaves no bytes in the device.
  pub process_fd-Source :
      (fuel m : ℕ) (s : S) (q : List ℕ) (h : Heap) (ctx : Context)
      → source.Waits s q
      → length q < fuel
      → ctx.opened ≡ true
      → (process_fd h ctx (answers_of source.read fuel (suc m) s).0
          ≡ returns_zero (process_chunk h ctx q))
        × source.Waits (answers_of source.read fuel (suc m) s).1 []
  process_fd-Source fuel m s q h ctx w enough e =
      let (done, left) = reads fuel m s q h ctx w enough in
      (process_fd-process_reads h ctx (answers_of source.read fuel (suc m) s).0 e ∙ done, left)
