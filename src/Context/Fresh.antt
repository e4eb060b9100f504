-- ===== src/Context/Fresh.antt =====
-- A frame that reaches a context without a message of its own.
use libsmp.Base.{
  ℕ, ◌+◌, ◌^◌, ◌*◌, ◌⊎◌, ◌<◌, ◌≡◌, refl, ap, ◌∙◌, true, false, none, some, List, length, replicate,
  All,
}
use libsmp.Heap.{Heap, alloc}
use libsmp.Serial.Decoder.{Decoder}
use libsmp.Serial.Frame.{frame_of}
use libsmp.Serial.RoundTrip.{IsIdle}
use libsmp.Serial.Capacity.{CanHold}
use libsmp.Message.Value.{Value, empty}
use libsmp.Message.Store.{Message, new_with_id, free_message}
use libsmp.Message.Store
use libsmp.Message.Format.{payload_of, message_bytes}
use libsmp.Message.Encoding.{IsSendable}
use libsmp.Message.RoundTrip.{packed}
use libsmp.Message.Growth.{holding, build_from_buffer-grows}
use libsmp.Context.State.{Context}
use libsmp.Context.Announced.{announced}
use libsmp.Context.Receive.{notify_new_message, into_fresh, allocated, process_chunk}
use libsmp.Context.Delivery.{after, frame_in}
use libsmp.Context.Memory.{in_fresh}

-- a message from `smp_message_new`
abbrev pub fresh : Message
fresh = record { msgid = 0; values = replicate 8 empty; capacity = 8; statically_allocated = false }

new_granted :
    (h : Heap)
    → ((i n : ℕ) → h.grant i n ≡ true)
    → (h' : Heap) × (Store.new h ≡ (some fresh, h')) × (h'.grant ≡ h.grant)
unfolding Store.new new_with_id alloc
new_granted h g = (
  (Store.new h).1,
  rw (g h.calls 32, g (h.calls + 1) 192) refl,
  rw (g h.calls 32, g (h.calls + 1) 192) refl,
)

-- A context that allocates its messages, where the allocator grants every request, idle and with room
-- in its decoder, on the frame of an encoded message (any number of values that can be sent, an id and
-- a payload below 2 ^ 32): the one event is the notification of a new message, which holds the id and
-- the values that were encoded, without the empty ones, and no other value; its capacity is 8, or less
-- than twice the number of values. Afterwards the decoder is idle and the context still has no message.
pub process_chunk-fresh :
    (h : Heap) (ctx : Context) (id : ℕ) (vs : List Value)
    → IsIdle ctx.decoder
    → CanHold h ctx.decoder (length (message_bytes id vs) + 1)
    → ctx.msg_rx ≡ none
    → ((i n : ℕ) → h.grant i n ≡ true)
    → All IsSendable vs
    → id < 2 ^ 32
    → length (payload_of vs) < 2 ^ 32
    → (h' : Heap) × (d' : Decoder) × (j : ℕ) × IsIdle d'
      × (process_chunk h ctx (frame_of (message_bytes id vs))
          ≡ (announced ctx (holding id (packed vs) j), h', after ctx d' ctx.msg_rx))
      × ((length (packed vs) + j ≡ 8) ⊎ (length (packed vs) + j < 2 * length (packed vs)))
unfolding allocated into_fresh notify_new_message free_message
process_chunk-fresh h ctx id vs i c e g s a w =
    let frame = message_bytes id vs in
    let (h1, d', done, i', same) = frame_in h ctx frame i c in
    let ctx1 = record ctx { decoder = d' } in
    let granted = λ (j n : ℕ). ap (λ f. f j n) same.same_grant ∙ g j n in
    let (h2, made, kept) = new_granted h1 granted in
    let (h3, j, whole, bound) =
      build_from_buffer-grows id 0 vs h2 8 (λ l n. ap (λ f. f l n) kept ∙ granted l n) s a w in
    (
      free_message h3 (holding id (packed vs) j),
      d',
      j,
      i',
      done ∙ in_fresh h1 ctx1 frame e ∙ ap (allocated ctx1 frame) made ∙ ap (into_fresh ctx1) whole,
      bound,
    )
