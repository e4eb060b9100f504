-- ===== src/Context/Chunks.antt =====
-- The loop of `smp_context_process_fd`: how the device cuts the bytes into chunks does not matter.
use libsmp.Base.{
  ℕ, ◌≡◌, refl, ap, sym, ◌∙◌, List, [], ◌∷◌, ◌++◌, some, append_assoc, true, if◌then◌else◌,
}
use libsmp.Errors.{Result, ok, err, would_block, bad_fd}
use libsmp.Heap.{Heap}
use libsmp.Context.State.{Context}
use libsmp.Context.Receive.{
  Handled, Ended, process_chunk, process_chunk_byte, process_reads, process_fd,
}

pub process_chunk-append :
    (bs cs : List ℕ) (h : Heap) (ctx : Context)
    → process_chunk h ctx (bs ++ cs) ≡ (
        let (events, h1, ctx1) = process_chunk h ctx bs in
        let (events', h2, ctx2) = process_chunk h1 ctx1 cs in (events ++ events', h2, ctx2))
unfolding process_chunk
process_chunk-append [] cs h ctx = refl
process_chunk-append (b ∷ bs) cs h ctx =
    let (events, h1, ctx1) = process_chunk_byte h ctx b in
    let (events', h2, ctx2) = process_chunk h1 ctx1 bs in
    let (events'', h3, ctx3) = process_chunk h2 ctx2 cs in
    rw (process_chunk-append bs cs h1 ctx1)
      (ap (λ t. (t, h3, ctx3)) (sym (append_assoc events events' events'')))

-- the answers of a device that has the chunks, none of them empty, and then has no more bytes
unfoldable pub answers : List (ℕ × List ℕ) → List (Result (List ℕ))
answers [] = err would_block ∷ []
answers ((b, bs) ∷ chunks) = ok (b ∷ bs) ∷ answers chunks

unfoldable pub bytes_of : List (ℕ × List ℕ) → List ℕ
bytes_of [] = []
bytes_of ((b, bs) ∷ chunks) = (b ∷ bs) ++ bytes_of chunks

-- what happens, with 0 for the value returned
abbrev pub returns_zero : Handled → Ended
returns_zero (events, h, ctx) = (some (ok tt), events, h, ctx)

-- A chunk, and then answers that amount to the bytes `cs`.
pub process_reads-chunk :
    (b : ℕ) (bs cs : List ℕ) (rs : List (Result (List ℕ))) (h : Heap) (ctx : Context)
    → (let (events, h1, ctx1) = process_chunk h ctx (b ∷ bs) in
        process_reads h1 ctx1 rs ≡ returns_zero (process_chunk h1 ctx1 cs))
    → process_reads h ctx (ok (b ∷ bs) ∷ rs) ≡ returns_zero (process_chunk h ctx ((b ∷ bs) ++ cs))
unfolding process_reads
process_reads-chunk b bs cs rs h ctx e = rw (e, process_chunk-append (b ∷ bs) cs h ctx) refl

reads :
    (chunks : List (ℕ × List ℕ)) (h : Heap) (ctx : Context)
    → process_reads h ctx (answers chunks) ≡ returns_zero (process_chunk h ctx (bytes_of chunks))
unfolding answers bytes_of
reads [] h ctx = unfold process_chunk process_reads in refl
reads ((b, bs) ∷ chunks) h ctx =
    let (events, h1, ctx1) = process_chunk h ctx (b ∷ bs) in
    process_reads-chunk b bs (bytes_of chunks) (answers chunks) h ctx (reads chunks h1 ctx1)

pub process_fd-process_reads :
    (h : Heap) (ctx : Context) (rs : List (Result (List ℕ)))
    → ctx.opened ≡ true
    → process_fd h ctx rs ≡ process_reads h ctx rs
unfolding process_fd
process_fd-process_reads h ctx rs e =
    ap (λ b. if b then process_reads h ctx rs else (some (err bad_fd), [], h, ctx)) e

-- On an open context, a call that reads some chunks and then finds that there are no more bytes
-- returns 0, and what happens is what happens for all the bytes at once.
pub process_fd-chunks :
    (chunks : List (ℕ × List ℕ)) (h : Heap) (ctx : Context)
    → ctx.opened ≡ true
    → process_fd h ctx (answers chunks) ≡ returns_zero (process_chunk h ctx (bytes_of chunks))
process_fd-chunks chunks h ctx e =
    process_fd-process_reads h ctx (answers chunks) e ∙ reads chunks h ctx
