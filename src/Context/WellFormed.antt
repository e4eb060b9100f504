-- ===== src/Context/WellFormed.antt =====
-- The structure of a context, and that what it receives keeps it: smp_context_process_fd and
-- smp_context_wait_and_process of src/context.c.
use libsmp.Base.{ℕ, ◌≡◌, refl, arith, Bool, true, false, Option, none, some, List, [], ◌∷◌, subst}
use libsmp.Errors.{Result, ok, err, fault, would_block}
use libsmp.Heap.{Heap}
use libsmp.Serial.Decoder.{Decoder}
use libsmp.Serial.Storage
use libsmp.Serial.Invariant.{process_byte-IsValid}
use libsmp.Message.Store.{Message, clear}
use libsmp.Message.Invariant.{
  clear-IsValid, build_from_buffer-IsValid, new_from_static_with_id-IsValid,
}
use libsmp.Message.Invariant
use libsmp.Message.Codec.{build_from_buffer}
use libsmp.Buffer.{Buffer}
use libsmp.Context.Delivery.{in_static}
use libsmp.Context.Memory.{in_fresh}
use libsmp.Context.State.{Context}
use libsmp.Context.Receive.{
  process_fd, process_reads, process_chunk, process_chunk_byte, process_serial_frame, into_static,
  into_fresh, allocated, frame_out, wait_and_process,
}

-- The message of the context, where it has one, has the slots that it says. A context has buffers and a
-- message of its caller, all of them, or it has none and allocates what it needs.
abbrev pub Holding : Bool → Option Buffer → Option Buffer → Option Message → Type 0
Holding true (some b) (some b') (some m) = Invariant.IsValid m
Holding false none none none = Unit {0}
Holding _ _ _ _ = ⊥

pub record IsValid (ctx : Context) : Type 0 where
  pub decoder : Storage.IsValid ctx.decoder
  pub holding : Holding ctx.statically_allocated ctx.msg_tx ctx.serial_tx ctx.msg_rx

Holding-message :
    (static : Bool) (x y : Option Buffer) (m : Message)
    → Holding static x y (some m)
    → Invariant.IsValid m × ((m' : Message) → Invariant.IsValid m' → Holding static x y (some m'))
Holding-message true (some b) (some b') m v = (v, λ m' v'. v')
Holding-message true (some b) none m v = absurd v
Holding-message true none y m v = absurd v
Holding-message false none none m v = absurd v
Holding-message false none (some b') m v = absurd v
Holding-message false (some b) y m v = absurd v

pub decoder-IsValid :
    (ctx : Context) (d : Decoder)
    → IsValid ctx
    → Storage.IsValid d
    → IsValid (record ctx { decoder = d })
decoder-IsValid ctx d v w = record { decoder = w; holding = v.holding }

into_static-IsValid :
    (ctx : Context) (m : Message) (r : Result (Unit {0}) × Heap × Message)
    → IsValid ctx
    → ctx.msg_rx ≡ some m
    → Invariant.IsValid r.2
    → IsValid (into_static ctx r).2
unfolding into_static
into_static-IsValid ctx m (r, h, m') v e w =
    let held =
      subst (λ o. Holding ctx.statically_allocated ctx.msg_tx ctx.serial_tx o) e v.holding in
    let (old, next) = Holding-message ctx.statically_allocated ctx.msg_tx ctx.serial_tx m held in
    by_result r (next m' w) (next (clear m') (clear-IsValid m'))
  where
    by_result :
        (r : Result (Unit {0}))
        → Holding ctx.statically_allocated ctx.msg_tx ctx.serial_tx (some m')
        → Holding ctx.statically_allocated ctx.msg_tx ctx.serial_tx (some (clear m'))
        → IsValid (into_static ctx (r, h, m')).2
    by_result (ok u) a b = record { decoder = v.decoder; holding = b }
    by_result (err x) a b = record { decoder = v.decoder; holding = a }
    by_result fault a b = record { decoder = v.decoder; holding = a }

into_fresh_same :
    (ctx : Context) (r : Result (Unit {0}) × Heap × Message) → (into_fresh ctx r).2 ≡ ctx
unfolding into_fresh
into_fresh_same ctx (ok u, h, m) = refl
into_fresh_same ctx (err x, h, m) = refl
into_fresh_same ctx (fault, h, m) = refl

pub allocated_same :
    (ctx : Context) (frame : List ℕ) (r : Option Message × Heap) → (allocated ctx frame r).2 ≡ ctx
unfolding allocated
allocated_same ctx frame (none, h) = refl
allocated_same ctx frame (some m, h) = into_fresh_same ctx (build_from_buffer h m frame)

process_serial_frame-IsValid :
    (h : Heap) (ctx : Context) (frame : List ℕ)
    → IsValid ctx
    → IsValid (process_serial_frame h ctx frame).2
process_serial_frame-IsValid h ctx frame v = by_message ctx.msg_rx refl
  where
    by_message :
        (o : Option Message) → ctx.msg_rx ≡ o → IsValid (process_serial_frame h ctx frame).2
    by_message none e = rw (in_fresh h ctx frame e, allocated_same) v
    by_message (some m) e =
        let held =
          subst (λ o. Holding ctx.statically_allocated ctx.msg_tx ctx.serial_tx o) e v.holding in
        let (old, next) =
          Holding-message ctx.statically_allocated ctx.msg_tx ctx.serial_tx m held in
        rw (in_static h ctx frame m e) (
          into_static-IsValid ctx m (build_from_buffer h m frame) v e
            (build_from_buffer-IsValid h m frame old))

frame_out-IsValid :
    (h : Heap) (ctx : Context) (o : Option (List ℕ)) → IsValid ctx → IsValid (frame_out h ctx o).2
unfolding frame_out
frame_out-IsValid h ctx none v = v
frame_out-IsValid h ctx (some frame) v = process_serial_frame-IsValid h ctx frame v

process_chunk-IsValid :
    (bs : List ℕ) (h : Heap) (ctx : Context) → IsValid ctx → IsValid (process_chunk h ctx bs).2
unfolding process_chunk process_chunk_byte
process_chunk-IsValid [] h ctx v = v
process_chunk-IsValid (b ∷ bs) h ctx v = process_chunk-IsValid bs _ _ (
    frame_out-IsValid _ _ _
      (decoder-IsValid ctx _ v (process_byte-IsValid h ctx.decoder b v.decoder)))

process_reads-IsValid :
    (rs : List (Result (List ℕ))) (h : Heap) (ctx : Context)
    → IsValid ctx
    → IsValid (process_reads h ctx rs).3
unfolding process_reads
process_reads-IsValid [] h ctx v = v
process_reads-IsValid (ok [] ∷ rs) h ctx v = v
process_reads-IsValid (ok (b ∷ bs) ∷ rs) h ctx v =
    process_reads-IsValid rs _ _ (process_chunk-IsValid (b ∷ bs) h ctx v)
process_reads-IsValid (err would_block ∷ rs) h ctx v = v
process_reads-IsValid (err _ ∷ rs) h ctx v = v
process_reads-IsValid (fault ∷ rs) h ctx v = v

pub process_fd-IsValid :
    (rs : List (Result (List ℕ))) (h : Heap) (ctx : Context)
    → IsValid ctx
    → IsValid (process_fd h ctx rs).3
unfolding process_fd
process_fd-IsValid rs h ctx v = ground (arith, process_reads-IsValid rs h ctx v)

pub waited-IsValid :
    (ready : Result (Unit {0})) (rs : List (Result (List ℕ))) (h : Heap) (ctx : Context)
    → IsValid ctx
    → IsValid (wait_and_process h ctx ready rs).3
unfolding wait_and_process
waited-IsValid (ok u) rs h ctx v = ground (arith, process_fd-IsValid rs h ctx v)
waited-IsValid (err e) rs h ctx v = ground arith
waited-IsValid fault rs h ctx v = ground arith
