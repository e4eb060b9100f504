-- ===== src/Context/Opened.antt =====
-- What a context receives does not open or close it: smp_context_process_fd of src/context.c.
use libsmp.Base.{ℕ, ◌≡◌, refl, ap, ◌∙◌, arith, Option, none, some, List, [], ◌∷◌}
use libsmp.Errors.{Result, ok, err, fault, would_block}
use libsmp.Heap.{Heap}
use libsmp.Message.Store.{Message}
use libsmp.Message.Codec.{build_from_buffer}
use libsmp.Serial.Decoder.{process_byte}
use libsmp.Context.State.{Context, set_decoder_maximum_capacity}
use libsmp.Context.Receive.{
  process_fd, wait_and_process, process_reads, process_chunk, process_chunk_byte,
  process_serial_frame, into_static, frame_out,
}
use libsmp.Context.Delivery.{in_static}
use libsmp.Context.Memory.{in_fresh}
use libsmp.Context.WellFormed.{allocated_same}

into_static_opened :
    (ctx : Context) (r : Result (Unit {0}) × Heap × Message)
    → (into_static ctx r).2.opened ≡ ctx.opened
unfolding into_static
into_static_opened ctx (ok u, h, m) = refl
into_static_opened ctx (err e, h, m) = refl
into_static_opened ctx (fault, h, m) = refl

frame_opened :
    (h : Heap) (ctx : Context) (frame : List ℕ) (o : Option Message)
    → ctx.msg_rx ≡ o
    → (process_serial_frame h ctx frame).2.opened ≡ ctx.opened
frame_opened h ctx frame none e =
    ap (λ r. r.2.opened) (in_fresh h ctx frame e) ∙ ap (λ c. c.opened) (allocated_same ctx frame _)
frame_opened h ctx frame (some m) e =
    ap (λ r. r.2.opened) (in_static h ctx frame m e)
    ∙ into_static_opened ctx (build_from_buffer h m frame)

frame_out_opened :
    (h : Heap) (ctx : Context) (o : Option (List ℕ)) → (frame_out h ctx o).2.opened ≡ ctx.opened
unfolding frame_out
frame_out_opened h ctx none = refl
frame_out_opened h ctx (some frame) = frame_opened h ctx frame ctx.msg_rx refl

chunk_opened :
    (bs : List ℕ) (h : Heap) (ctx : Context) → (process_chunk h ctx bs).2.opened ≡ ctx.opened
unfolding process_chunk process_chunk_byte
chunk_opened [] h ctx = refl
chunk_opened (b ∷ bs) h ctx =
    let (out, h1, d) = process_byte h ctx.decoder b in
    let ctx1 = record ctx { decoder = d } in
    chunk_opened bs (frame_out h1 ctx1 out.frame).1 (frame_out h1 ctx1 out.frame).2
    ∙ frame_out_opened h1 ctx1 out.frame

reads_opened :
    (rs : List (Result (List ℕ))) (h : Heap) (ctx : Context)
    → (process_reads h ctx rs).3.opened ≡ ctx.opened
unfolding process_reads
reads_opened [] h ctx = refl
reads_opened (ok [] ∷ rs) h ctx = refl
reads_opened (ok (b ∷ bs) ∷ rs) h ctx = reads_opened rs _ _ ∙ chunk_opened (b ∷ bs) h ctx
reads_opened (err would_block ∷ rs) h ctx = refl
reads_opened (err _ ∷ rs) h ctx = refl
reads_opened (fault ∷ rs) h ctx = refl

pub process_fd_opened :
    (rs : List (Result (List ℕ))) (h : Heap) (ctx : Context)
    → (process_fd h ctx rs).3.opened ≡ ctx.opened
unfolding process_fd
process_fd_opened rs h ctx = ground (arith, reads_opened rs h ctx)

pub wait_and_process_opened :
    (ready : Result (Unit {0})) (rs : List (Result (List ℕ))) (h : Heap) (ctx : Context)
    → (wait_and_process h ctx ready rs).3.opened ≡ ctx.opened
unfolding wait_and_process
wait_and_process_opened (ok u) rs h ctx = ground (arith, process_fd_opened rs h ctx)
wait_and_process_opened (err e) rs h ctx = ground arith
wait_and_process_opened fault rs h ctx = ground arith

pub limit_opened :
    (ctx : Context) (max : ℕ) → (set_decoder_maximum_capacity ctx max).1.opened ≡ ctx.opened
unfolding set_decoder_maximum_capacity
limit_opened ctx max = ground arith
