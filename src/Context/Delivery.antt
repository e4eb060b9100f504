-- ===== src/Context/Delivery.antt =====
-- What one end sends, the other end receives.
use libsmp.Base.{
  ℕ, zero, suc, ◌+◌, ◌^◌, ◌≤◌, ◌<◌, ◌≡◌, refl, ap, ◌∙◌, arith, Option, none, some, List, [], ◌∷◌,
  ◌++◌, append-nil, length, replicate, All, drop,
}
use libsmp.Heap.{Heap}
use libsmp.Serial.Decoder.{Decoder, Output, process_byte, run}
use libsmp.Serial.Reading.{silent, delivers}
use libsmp.Message.Store.{Message, clear, free_message}
use libsmp.Message.Store
use libsmp.Message.Codec.{build_from_buffer}
use libsmp.Context.State.{Context}
use libsmp.Serial.Frame.{frame_of, escape, escape_byte, compute_checksum}
use libsmp.Serial.RoundTrip.{IsIdle, on_start}
use libsmp.Serial.Capacity.{CanHold, Keeps}
use libsmp.Serial.Link.{IsIdle-frame}
use libsmp.Message.Value.{Value}
use libsmp.Message.Format.{payload_of, message_bytes}
use libsmp.Message.Encoding.{IsSendable}
use libsmp.Message.RoundTrip.{packed, build_from_buffer-message_bytes}
use libsmp.Context.Announced.{announced}
use libsmp.Context.Receive.{
  notify_new_message, into_static, allocated, process_chunk, process_chunk_byte, frame_out, report,
  process_serial_frame, Handled,
}

run_silent :
    (h h' : Heap) (d d' : Decoder) (bs : List ℕ) {out : Output} {outs : List Output}
    → run h d bs ≡ (out ∷ outs, h', d')
    → (b : ℕ) × (rest : List ℕ) × (bs ≡ b ∷ rest)
      × ((process_byte h d b).0 ≡ out)
      × (run (process_byte h d b).1 (process_byte h d b).2 rest ≡ (outs, h', d'))
unfolding run
run_silent h h' d d' [] e = ground arith
run_silent h h' d d' (b ∷ rest) e = (b, rest, refl, ground arith, ground arith)

chunk_byte_silent :
    (h : Heap) (ctx : Context) (b : ℕ)
    → (process_byte h ctx.decoder b).0 ≡ silent
    → process_chunk_byte h ctx b ≡ (
      [],
      (process_byte h ctx.decoder b).1,
      record ctx { decoder = (process_byte h ctx.decoder b).2 },
    )
unfolding process_chunk_byte frame_out report
chunk_byte_silent h ctx b e = rw e refl

chunk_byte_delivers :
    (h : Heap) (ctx : Context) (b : ℕ) (p : List ℕ)
    → (process_byte h ctx.decoder b).0 ≡ delivers p
    → process_chunk_byte h ctx b
      ≡ process_serial_frame
          (process_byte h ctx.decoder b).1
          (record ctx { decoder = (process_byte h ctx.decoder b).2 })
          p
unfolding process_chunk_byte frame_out report
chunk_byte_delivers h ctx b p e = rw e refl

run_nothing :
    (h h' : Heap) (d d' : Decoder) (bs : List ℕ)
    → run h d bs ≡ ([], h', d')
    → (bs ≡ []) × (h ≡ h') × (d ≡ d')
unfolding run
run_nothing h h' d d' [] e = (refl, ap (λ r. r.1) e, ap (λ r. r.2) e)
run_nothing h h' d d' (b ∷ bs) e = ground arith

only_those : (r : Handled) → ◌≡◌ {A = Handled} (r.0 ++ [], r.1, r.2) r
only_those (events, h, ctx) = ap (λ t. (t, h, ctx)) (append-nil events)

-- Bytes of which only the last delivers a frame are those up to it, and the frame handled.
process_chunk-run :
    (n : ℕ) (bs p : List ℕ) (h h' : Heap) (ctx : Context) (d' : Decoder)
    → run h ctx.decoder bs ≡ (replicate n silent ++ (delivers p ∷ []), h', d')
    → process_chunk h ctx bs ≡ process_serial_frame h' (record ctx { decoder = d' }) p
unfolding process_chunk
process_chunk-run zero bs p h h' ctx d' e =
    let (b, rest, split, out, done) = run_silent h h' ctx.decoder d' bs e in
    let (none_left, same_h, same_d) = run_nothing _ h' _ d' rest done in
    rw (split, chunk_byte_delivers h ctx b p out, none_left, same_h, same_d)
      (only_those (process_serial_frame h' (record ctx { decoder = d' }) p))
process_chunk-run (suc n) bs p h h' ctx d' e =
    let (b, rest, split, out, more) = run_silent h h' ctx.decoder d' bs e in
    rw (split, chunk_byte_silent h ctx b out)
      (process_chunk-run n rest p (process_byte h ctx.decoder b).1 h'
        (record ctx { decoder = (process_byte h ctx.decoder b).2 }) d' more)

-- The context after a frame: its decoder is `d` and its message `msg`.
abbrev pub after : Context → Decoder → Option Message → Context
after ctx d msg = record ctx { decoder = d; msg_rx = msg }

pub frame_in :
    (h : Heap) (ctx : Context) (p : List ℕ)
    → IsIdle ctx.decoder
    → CanHold h ctx.decoder (length p + 1)
    → (h' : Heap) × (d' : Decoder) × (process_chunk h ctx (frame_of p)
        ≡ process_serial_frame h' (record ctx { decoder = d' }) p)
      × IsIdle d'
      × Keeps h ctx.decoder h' d'
unfolding on_start
frame_in h ctx p i c =
    let (h', d', e, i', k) = IsIdle-frame p h ctx.decoder i c in
    (
      h',
      d',
      process_chunk-run (suc (length (escape p ++ escape_byte (compute_checksum p)))) (frame_of p) p
          h h' ctx d' e,
      i',
      k,
    )

pub in_static :
    (h : Heap) (ctx : Context) (frame : List ℕ) (m : Message)
    → ctx.msg_rx ≡ some m
    → process_serial_frame h ctx frame ≡ into_static ctx (build_from_buffer h m frame)
unfolding process_serial_frame
in_static h ctx frame m e =
    ap
      (λ r. elim r [
        | some m' ↦ into_static ctx (build_from_buffer h m' frame)
        | none ↦ allocated ctx frame (Store.new h)
      ])
      e

-- A frame in the message of the context.
pub process_chunk-Keeps :
    (h : Heap) (ctx : Context) (id : ℕ) (vs : List Value) (m : Message)
    → IsIdle ctx.decoder
    → CanHold h ctx.decoder (length (message_bytes id vs) + 1)
    → ctx.msg_rx ≡ some m
    → m.capacity ≡ length m.values
    → length (packed vs) ≤ m.capacity
    → All IsSendable vs
    → id < 2 ^ 32
    → length (payload_of vs) < 2 ^ 32
    → (h' : Heap) × (d' : Decoder) × IsIdle d'
      × Keeps h ctx.decoder h' d'
      × (process_chunk h ctx (frame_of (message_bytes id vs)) ≡ (
        announced ctx
            (record m { msgid = id; values = packed vs ++ drop (length (packed vs)) m.values }),
        h',
        after ctx d' (some (clear m)),
      ))
unfolding into_static clear notify_new_message
process_chunk-Keeps h ctx id vs m i c e k r s a w =
    let (h', d', done, i', g) = frame_in h ctx (message_bytes id vs) i c in
    (
      h',
      d',
      i',
      g,
      done
          ∙ in_static h' (record ctx { decoder = d' }) (message_bytes id vs) m e
          ∙ ap (into_static (record ctx { decoder = d' }))
              (build_from_buffer-message_bytes id vs h' m s a w k r),
    )

-- An idle context with a message of its own, which has enough slots, and with room in its decoder,
-- on the frame of an encoded message (values that can be sent, an id and a payload below 2 ^ 32):
-- the one event is the notification of a new message, which holds the id and the values that were
-- encoded, without the empty ones; afterwards the decoder is idle and the message is cleared.
pub process_chunk-static :
    (h : Heap) (ctx : Context) (id : ℕ) (vs : List Value) (m : Message)
    → IsIdle ctx.decoder
    → CanHold h ctx.decoder (length (message_bytes id vs) + 1)
    → ctx.msg_rx ≡ some m
    → m.capacity ≡ length m.values
    → length (packed vs) ≤ m.capacity
    → All IsSendable vs
    → id < 2 ^ 32
    → length (payload_of vs) < 2 ^ 32
    → (h' : Heap) × (d' : Decoder) × IsIdle d'
      × (process_chunk h ctx (frame_of (message_bytes id vs)) ≡ (
        announced ctx
            (record m { msgid = id; values = packed vs ++ drop (length (packed vs)) m.values }),
        h',
        after ctx d' (some (clear m)),
      ))
process_chunk-static h ctx id vs m i c e k r s a w =
    let (h', d', i', g, done) = process_chunk-Keeps h ctx id vs m i c e k r s a w in
    (h', d', i', done)
