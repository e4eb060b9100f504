-- ===== src/Context/Stream.antt =====
-- Many messages to one context.
use libsmp.Base.{
  ℕ, ◌+◌, ◌^◌, ◌≤◌, ◌<◌, ◌≡◌, refl, sym, ap, ◌∙◌, some, Option, List, [], ◌∷◌, ◌++◌, length, All,
  All-mono, drop, length-replicate,
}
use libsmp.Heap.{Heap}
use libsmp.Serial.Decoder.{Decoder}
use libsmp.Serial.Frame.{frame_of}
use libsmp.Serial.RoundTrip.{IsIdle}
use libsmp.Serial.Capacity.{CanHold, Keeps, Keeps-CanHold}
use libsmp.Message.Value.{Value, empty}
use libsmp.Message.Store.{Message, clear}
use libsmp.Message.Format.{payload_of, message_bytes}
use libsmp.Message.Encoding.{IsSendable}
use libsmp.Message.RoundTrip.{packed}
use libsmp.Context.State.{Context}
use libsmp.Context.Announced.{announced}
use libsmp.Context.Receive.{Event, notify_new_message, process_chunk}
use libsmp.Context.Chunks.{process_chunk-append}
use libsmp.Context.Delivery.{after, process_chunk-Keeps}

-- A message that can be sent, and fits the decoder and the message of a context.
pub record Fits (h : Heap) (d : Decoder) (capacity : ℕ) (message : ℕ × List Value) : Type 0 where
  pub room : CanHold h d (length (message_bytes message.0 message.1) + 1)
  pub slots : length (packed message.1) ≤ capacity
  pub sendable : All IsSendable message.1
  pub id_word : message.0 < 2 ^ 32
  pub payload_word : length (payload_of message.1) < 2 ^ 32

-- the frames of the messages, one after the other
unfoldable pub frames_of : List (ℕ × List Value) → List ℕ
frames_of [] = []
frames_of ((id, vs) ∷ messages) = frame_of (message_bytes id vs) ++ frames_of messages

-- the notifications of the messages, each of them in the cleared message `m`
unfoldable pub events_of : Context → Message → List (ℕ × List Value) → List Event
events_of ctx m [] = []
events_of ctx m ((id, vs) ∷ messages) =
    announced ctx
      (record m { msgid = id; values = packed vs ++ drop (length (packed vs)) m.values })
    ++ events_of ctx m messages

events_same :
    (ctx : Context) (d : Decoder) (o : Option Message) (m : Message)
    (messages : List (ℕ × List Value))
    → events_of (after ctx d o) m messages ≡ events_of ctx m messages
unfolding events_of notify_new_message
events_same ctx d o m [] = refl
events_same ctx d o m ((id, vs) ∷ messages) =
    ap
      (λ t.
        announced ctx
          (record m { msgid = id; values = packed vs ++ drop (length (packed vs)) m.values })
        ++ t)
      (events_same ctx d o m messages)

Fits-Keeps :
    {h h' : Heap} {d d' : Decoder} {capacity : ℕ} (message : ℕ × List Value)
    → Keeps h d h' d'
    → Fits h d capacity message
    → Fits h' d' capacity message
Fits-Keeps message k f = record {
  room = Keeps-CanHold (length (message_bytes message.0 message.1) + 1) k f.room;
  slots = f.slots;
  sendable = f.sendable;
  id_word = f.id_word;
  payload_word = f.payload_word;
}

slots_of : (m : Message) → clear m ≡ m → m.capacity ≡ length m.values
unfolding clear
slots_of m c = sym (length-replicate {0} m.capacity empty) ∙ ap (λ x. length x.values) c

-- Frames of encoded messages, one after the other, that reach an idle context with a message of its
-- own, which is cleared, where each of them can be sent and fits the decoder and that message, are
-- notified in their order and nothing else: each one with the id and the values that were encoded,
-- without the empty ones, and with no value left from the one before. Afterwards the decoder is idle
-- and the message is cleared.
pub process_chunk-stream :
    (messages : List (ℕ × List Value)) (h : Heap) (ctx : Context) (m : Message)
    → IsIdle ctx.decoder
    → ctx.msg_rx ≡ some m
    → clear m ≡ m
    → All (Fits h ctx.decoder m.capacity) messages
    → (h' : Heap) × (d' : Decoder) × IsIdle d'
      × (process_chunk h ctx (frames_of messages)
          ≡ (events_of ctx m messages, h', after ctx d' (some m)))
unfolding frames_of events_of
process_chunk-stream [] h ctx m i e c f =
    (h, ctx.decoder, i, unfold process_chunk in ap (λ o. ([], h, record ctx { msg_rx = o })) e)
process_chunk-stream ((id, vs) ∷ messages) h ctx m i e c (f, fs) =
    let size : m.capacity ≡ length m.values = slots_of m c in
    let (h1, d1, i1, k, done) =
      process_chunk-Keeps h ctx id vs m i f.room e size f.slots f.sendable f.id_word
        f.payload_word in
    let ctx1 = after ctx d1 (some m) in
    let (h2, d2, i2, rest) =
      process_chunk-stream messages h1 ctx1 m i1 refl c
        (All-mono messages (λ q g. Fits-Keeps q k g) fs) in
    (
      h2,
      d2,
      i2,
      rw
          (
            process_chunk-append (frame_of (message_bytes id vs)) (frames_of messages) h ctx,
            done,
            c,
            rest,
            events_same ctx d1 (some m) m messages,
          )
          refl,
    )
