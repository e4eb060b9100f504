-- ===== src/Context/Receive.antt =====
-- Messages in: src/context.c, lines 49 to 90, 352 to 390 and 399 to 412.
use libsmp.Base.{ℕ, Option, none, some, List, [], ◌∷◌, ◌++◌, if◌then◌else◌}
use libsmp.Errors.{Error, Result, ok, err, fault, no_mem, would_block, bad_fd}
use libsmp.Heap.{Heap}
use libsmp.Serial.Decoder.{process_byte}
use libsmp.Message.Store.{Message, clear, free_message}
use libsmp.Message.Store
use libsmp.Message.Codec.{build_from_buffer}
use libsmp.Context.State.{Context}

-- What the user sees: the calls of the two callbacks, with the message as it is at that moment.
-- After `undefined` nothing is known: the code read outside the frame.
pub data Event : Type 0 where
  new_message : Message → Event
  error : Error → Event
  undefined : Event

-- `smp_context_notify_new_message`
unfoldable pub notify_new_message : Context → Message → List Event
notify_new_message ctx msg = if ctx.cbs.has_new_message_cb then new_message msg ∷ [] else []

-- `smp_context_notify_error`
unfoldable pub notify_error : Context → Error → List Event
notify_error ctx e = if ctx.cbs.has_error_cb then error e ∷ [] else []

abbrev pub Handled : Type 0
Handled = List Event × Heap × Context

-- A frame in the message of the context. It is cleared only after a success.
unfoldable pub into_static : Context → Result (Unit {0}) × Heap × Message → Handled
into_static ctx (ok _, h, m) = (notify_new_message ctx m, h, record ctx { msg_rx = some (clear m) })
into_static ctx (err e, h, m) = (notify_error ctx e, h, record ctx { msg_rx = some m })
into_static ctx (fault, h, m) = (undefined ∷ [], h, record ctx { msg_rx = some m })

-- A frame in a message that was allocated for it. It is freed only after a success.
unfoldable pub into_fresh : Context → Result (Unit {0}) × Heap × Message → Handled
into_fresh ctx (ok _, h, m) = (notify_new_message ctx m, free_message h m, ctx)
into_fresh ctx (err e, h, m) = (notify_error ctx e, h, ctx)
into_fresh ctx (fault, h, m) = (undefined ∷ [], h, ctx)

unfoldable pub allocated : Context → List ℕ → Option Message × Heap → Handled
allocated ctx frame (none, h) = (notify_error ctx no_mem, h, ctx)
allocated ctx frame (some m, h) = into_fresh ctx (build_from_buffer h m frame)

-- `smp_context_process_serial_frame`
unfoldable pub process_serial_frame : Heap → Context → List ℕ → Handled
process_serial_frame h ctx frame = elim ctx.msg_rx [
  | some m ↦ into_static ctx (build_from_buffer h m frame)
  | none ↦ allocated ctx frame (Store.new h)
]

unfoldable pub report : Context → Result (Unit {0}) → List Event
report ctx (ok _) = []
report ctx (err e) = notify_error ctx e
report ctx fault = undefined ∷ []

unfoldable pub frame_out : Heap → Context → Option (List ℕ) → Handled
frame_out h ctx none = ([], h, ctx)
frame_out h ctx (some frame) = process_serial_frame h ctx frame

-- One byte in the loop of `smp_context_process_fd`.
unfoldable pub process_chunk_byte : Heap → Context → ℕ → Handled
process_chunk_byte h ctx byte =
    let (out, h1, d) = process_byte h ctx.decoder byte in
    let ctx1 = record ctx { decoder = d } in
    let (events, h2, ctx2) = frame_out h1 ctx1 out.frame in
    (report ctx1 out.ret ++ events, h2, ctx2)

-- the loop over the bytes of a chunk
unfoldable pub process_chunk : Heap → Context → List ℕ → Handled
process_chunk h ctx [] = ([], h, ctx)
process_chunk h ctx (b ∷ bs) =
    let (events, h1, ctx1) = process_chunk_byte h ctx b in
    let (events', h2, ctx2) = process_chunk h1 ctx1 bs in (events ++ events', h2, ctx2)

-- How the loop ends: with a value, or the device has given no answer to the last read so far.
abbrev pub Ended : Type 0
Ended = Option (Result (Unit {0})) × List Event × Heap × Context

-- The loop of `smp_context_process_fd` over the answers of the device, in order: the bytes of a
-- chunk, none of them at the end of the file, or an error.
unfoldable pub process_reads : Heap → Context → List (Result (List ℕ)) → Ended
process_reads h ctx [] = (none, [], h, ctx)
process_reads h ctx (ok [] ∷ rs) = (some (ok tt), [], h, ctx)
process_reads h ctx (ok (b ∷ bs) ∷ rs) =
    let (events, h1, ctx1) = process_chunk h ctx (b ∷ bs) in
    let (ret, events', h2, ctx2) = process_reads h1 ctx1 rs in (ret, events ++ events', h2, ctx2)
process_reads h ctx (err would_block ∷ rs) = (some (ok tt), [], h, ctx)
process_reads h ctx (err e ∷ rs) = (some (err e), [], h, ctx)
process_reads h ctx (fault ∷ rs) = (some fault, [], h, ctx)

-- `smp_context_process_fd`
unfoldable pub process_fd : Heap → Context → List (Result (List ℕ)) → Ended
process_fd h ctx rs =
    let r = process_reads h ctx rs in if ctx.opened then r else (some (err bad_fd), [], h, ctx)

abbrev waited : Result (Unit {0}) → Ended → Heap → Context → Ended
waited (ok _) r h ctx = r
waited (err e) r h ctx = (some (err e), [], h, ctx)
waited fault r h ctx = (some fault, [], h, ctx)

-- `smp_context_wait_and_process`, where the wait of the device gives `ready`
unfoldable pub wait_and_process :
    Heap → Context → Result (Unit {0}) → List (Result (List ℕ)) → Ended
wait_and_process h ctx ready rs =
    let r = process_fd h ctx rs in
    if ctx.opened then waited ready r h ctx else (some (err bad_fd), [], h, ctx)
