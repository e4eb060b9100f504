-- ===== src/Context/LifeTests.antt =====
-- The life of a context in storage of its caller, and a context that allocates its messages.
use libsmp.Base.{
  ℕ, ◌≡◌, refl, arith, ◌^◌, ◌<◌, ◌+◌, ◌*◌, ◌⊎◌, All, true, false, inl, inr, List, [], ◌∷◌, none,
  some, length, replicate,
}
use libsmp.Errors.{Result, ok, err, timedout}
use libsmp.Heap.{Heap}
use libsmp.Serial.Decoder.{Decoder}
use libsmp.Serial.Decoder
use libsmp.Message.Store
use libsmp.Message.Store.{Message, clear, new_from_static_with_id}
use libsmp.Message.Value.{Value, scalar, uint8, empty, is_none, type_of, type_size, to_code}
use libsmp.Context.State.{Context, init, new_from_static, open_device}
use libsmp.Context.Announced.{announced}
use libsmp.Context.Receive.{process_fd, process_chunk}
use libsmp.Context.Life.{Reachable, takes_storage, goes_on, opens, receives}
use libsmp.Context.LifeInvariant.{Reachable-IsValid}
use libsmp.Context.WellFormed.{IsValid}
use libsmp.Context.Tests.{heap, decoder, decoder-IsIdle, buffer, msg, msg-IsSendable, ctx, dynamic}
use libsmp.Context.Stream.{Fits, frames_of, events_of, process_chunk-stream}
use libsmp.Context.Fresh.{process_chunk-fresh}
use libsmp.Message.Growth.{holding}
use libsmp.Context.Delivery.{after}
use libsmp.Base.Bytes.{to_le}
use libsmp.Serial.Frame.{frame_of}
use libsmp.Serial.RoundTrip.{IsIdle}
use libsmp.Message.Format.{payload_of, message_bytes, argument, data_of}
use libsmp.Message.RoundTrip.{packed}
use libsmp.Message.Encoding.{IsSendable}

abbrev storage : Message
storage = record {
  msgid = 0;
  values = replicate 2 empty;
  capacity = 2;
  statically_allocated = true;
}

abbrev created : Context
created = record ctx { opened = false; msg_rx = some storage }

created-Reachable : Reachable heap created
unfolding new_from_static init Store.new_from_static new_from_static_with_id Decoder.new_from_static
    Decoder.init
created-Reachable =
    takes_storage heap ctx.cbs decoder decoder (replicate 32 0) 48 32 32 2 72 storage buffer buffer
      created refl (omega arith) refl refl refl

-- It is opened, and gets bytes that are no frame.
abbrev opened : Context
opened = record created { opened = true }

opened-Reachable : Reachable heap opened
unfolding open_device
opened-Reachable = goes_on heap heap created opened created-Reachable (opens (ok 3))

abbrev answers : List (Result (List ℕ))
answers = ok (7 ∷ 16 ∷ 27 ∷ []) ∷ err timedout ∷ []

Reachable-IsValid_example : IsValid (process_fd heap opened answers).3
Reachable-IsValid_example =
    Reachable-IsValid (process_fd heap opened answers).2 (process_fd heap opened answers).3 (
      goes_on heap (process_fd heap opened answers).2 opened (process_fd heap opened answers).3
        opened-Reachable (receives answers))

-- more values than a new message has slots for
abbrev nine : List Value
nine = replicate 9 (scalar uint8 5)

nine-IsSendable : All IsSendable nine
unfolding is_none type_of type_size
nine-IsSendable =
    let one : IsSendable (scalar uint8 5) = inr (refl, (tt, omega arith)) in
    (one, (one, (one, (one, (one, (one, (one, (one, (one, tt)))))))))

process_chunk-fresh_example :
    (h' : Heap) × (d' : Decoder) × (j : ℕ) × IsIdle d'
    × (process_chunk heap dynamic (frame_of (message_bytes 16 nine))
        ≡ (announced dynamic (holding 16 (packed nine) j), h', after dynamic d' none))
    × ((length (packed nine) + j ≡ 8) ⊎ (length (packed nine) + j < 2 * length (packed nine)))
unfolding payload_of message_bytes argument data_of is_none type_of type_size to_code to_le packed
process_chunk-fresh_example =
    process_chunk-fresh heap dynamic 16 nine decoder-IsIdle (inl (omega arith)) refl (λ i n. refl)
      nine-IsSendable (omega arith) (omega arith)

message-Fits : (id : ℕ) → id < 2 ^ 32 → Fits heap decoder 2 (id, msg.values)
unfolding payload_of message_bytes argument data_of is_none type_of type_size to_code to_le packed
message-Fits id small = record {
  room = inl (omega arith);
  slots = omega arith;
  sendable = msg-IsSendable;
  id_word = small;
  payload_word = omega arith;
}

storage-clear : clear storage ≡ storage
unfolding clear
storage-clear = refl

process_chunk-stream_example :
    (h' : Heap) × (d' : Decoder) × IsIdle d'
    × (process_chunk heap opened (frames_of ((16, msg.values) ∷ (27, msg.values) ∷ [])) ≡ (
      events_of opened storage ((16, msg.values) ∷ (27, msg.values) ∷ []),
      h',
      after opened d' (some storage),
    ))
process_chunk-stream_example =
    process_chunk-stream ((16, msg.values) ∷ (27, msg.values) ∷ []) heap opened storage
      decoder-IsIdle refl storage-clear
      (message-Fits 16 (omega arith), (message-Fits 27 (omega arith), tt))
