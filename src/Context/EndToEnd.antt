-- ===== src/Context/EndToEnd.antt =====
-- A message from one context to another, over a line that keeps the bytes.
use libsmp.Base.{
  ℕ, ◌+◌, ◌^◌, ◌≤◌, ◌<◌, ◌≡◌, sym, ap, ◌∙◌, true, some, List, length, All, drop, ◌++◌,
}
use libsmp.Errors.{Result}
use libsmp.Heap.{Heap}
use libsmp.Serial.Frame.{frame_of, compute_payload_size}
use libsmp.Serial.RoundTrip.{IsIdle}
use libsmp.Serial.Capacity.{CanHold}
use libsmp.Serial.Decoder.{Decoder}
use libsmp.Message.Store.{Message, clear}
use libsmp.Message.Format.{payload_of, message_bytes}
use libsmp.Message.Encoding.{IsSendable}
use libsmp.Message.RoundTrip.{packed}
use libsmp.Buffer.{Buffer}
use libsmp.Context.State.{Context}
use libsmp.Context.Send.{send_message}
use libsmp.Context.Announced.{announced}
use libsmp.Context.Receive.{process_fd, process_chunk}
use libsmp.Context.Chunks.{answers, bytes_of, returns_zero, process_fd-chunks}
use libsmp.Context.Delivery.{after, process_chunk-static}
use libsmp.Context.Sending.{IsSized, send_message_lem}

-- An open context with buffers of its own that are large enough for the message, which can be sent.
pub record IsSender (tx : Context) (msg : Message) (msg_tx serial_tx : Buffer) : Type 0 where
  pub opened : tx.opened ≡ true
  pub msg_buffer : tx.msg_tx ≡ some msg_tx
  pub serial_buffer : tx.serial_tx ≡ some serial_tx
  pub msg_sized : IsSized msg_tx
  pub serial_sized : IsSized serial_tx
  pub sendable : All IsSendable msg.values
  pub id_word : msg.msgid < 2 ^ 32
  pub payload_word : length (payload_of msg.values) < 2 ^ 32
  pub msg_room : 8 + length (payload_of msg.values) ≤ msg_tx.maxsize
  pub not_empty : 0 < serial_tx.maxsize
  pub serial_room : compute_payload_size (message_bytes msg.msgid msg.values) ≤ serial_tx.maxsize

-- An open context, idle, with room for the message in its decoder and in its own message `m`.
pub record IsReceiver (h : Heap) (rx : Context) (msg m : Message) : Type 0 where
  pub opened : rx.opened ≡ true
  pub idle : IsIdle rx.decoder
  pub room : CanHold h rx.decoder (length (message_bytes msg.msgid msg.values) + 1)
  pub own : rx.msg_rx ≡ some m
  pub valid : m.capacity ≡ length m.values
  pub slots : length (packed msg.values) ≤ m.capacity

some-injective : {a b : List ℕ} → some a ≡ some b → a ≡ b
some-injective e = cc e

-- Where the sender and the receiver are as `IsSender` and `IsReceiver` say, what the sender hands
-- to its device, cut into non-empty chunks in any way and read by the receiver until no more bytes
-- are there, gives exactly one notification of a new message (a call, if the callback is set), with
-- the id and the values that were sent, without the empty ones, and the receiver returns 0; it is
-- idle again, and its message is cleared.
pub send-receive :
    (h h' : Heap) (tx rx : Context) (msg m : Message) (msg_tx serial_tx : Buffer)
    (write : List ℕ → Result ℕ) (chunks : List (ℕ × List ℕ))
    → IsSender tx msg msg_tx serial_tx
    → IsReceiver h' rx msg m
    → (send_message h tx msg write).written ≡ some (bytes_of chunks)
    → (h'' : Heap) × (d' : Decoder) × IsIdle d'
      × (process_fd h' rx (answers chunks)
          ≡ returns_zero (
            announced rx (record m {
              msgid = msg.msgid;
              values = packed msg.values ++ drop (length (packed msg.values)) m.values;
            }),
            h'',
            after rx d' (some (clear m)),
          ))
send-receive h h' tx rx msg m b sb write chunks s r e =
    let frame = frame_of (message_bytes msg.msgid msg.values) in
    let sent : (send_message h tx msg write).written ≡ some frame =
      (send_message_lem h tx msg write b sb s.opened s.msg_buffer s.serial_buffer s.msg_sized
        s.serial_sized s.sendable s.payload_word s.msg_room s.not_empty s.serial_room).0 in
    let same : bytes_of chunks ≡ frame = some-injective (sym e ∙ sent) in
    let (h'', d', i, done) =
      process_chunk-static h' rx msg.msgid msg.values m r.idle r.room r.own r.valid r.slots
        s.sendable s.id_word s.payload_word in
    (
      h'',
      d',
      i,
      process_fd-chunks chunks h' rx r.opened
          ∙ ap (λ t. returns_zero (process_chunk h' rx t)) same
          ∙ ap returns_zero done,
    )
