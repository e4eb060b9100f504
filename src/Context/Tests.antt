-- ===== src/Context/Tests.antt =====
-- A context at each end of a line, with an instance of each property of src/context.c and
-- src/buffer.c.
use libsmp.Base.{
  ℕ, ◌≡◌, refl, arith, true, false, inl, inr, List, [], ◌∷◌, ◌++◌, none, some, length, replicate,
  drop, All,
}
use libsmp.Base.Bytes.{to_le}
use libsmp.Errors.{Result, ok, err, io}
use libsmp.Heap.{Heap, alloc}
use libsmp.Serial.Frame.{
  frame_of, escape, escape_byte, compute_checksum, checksum_from, compute_payload_size, count_magic,
  is_magic_byte,
}
use libsmp.Serial.Decoder.{wait_header, Decoder}
use libsmp.Serial.RoundTrip.{IsIdle}
use libsmp.Message.Value.{empty, scalar, uint8, is_none, type_of, type_size, to_code}
use libsmp.Message.Store.{Message, clear, new_with_id}
use libsmp.Message.Store
use libsmp.Message.Codec.{build_from_buffer}
use libsmp.Message.Format.{payload_of, message_bytes, argument, data_of}
use libsmp.Message.Encoding.{IsSendable}
use libsmp.Message.RoundTrip.{packed}
use libsmp.Buffer.{Buffer, IsBalanced, new_allocate, free_buffer-new_allocate}
use libsmp.Context.State.{Context}
use libsmp.Context.Send.{send_message}
use libsmp.Context.Announced.{announced}
use libsmp.Context.Receive.{process_chunk, process_fd, process_serial_frame}
use libsmp.Context.Chunks.{answers, bytes_of, returns_zero}
use libsmp.Context.Delivery.{after, process_chunk-static}
use libsmp.Context.Answer.{Returns}
use libsmp.Context.Sending.{send_message_lem, send_message-live}
use libsmp.Context.EndToEnd.{send-receive}
use libsmp.Context.Memory.{left_by, process_serial_frame-live}

abbrev pub heap : Heap
heap = record { grant = λ i n. true; junk = λ i. 170; calls = 0; live = 3 }

abbrev pub decoder : Decoder
decoder = record {
  state = wait_header;
  buf = replicate 32 0;
  bufsize = 32;
  offset = 0;
  maxsize = 32;
  statically_allocated = true;
}

pub decoder-IsIdle : IsIdle decoder
decoder-IsIdle = record {
  valid = record { storage = refl; within = tt; word = omega arith };
  state = refl;
}

abbrev pub buffer : Buffer
buffer = record {
  data' = replicate 32 0;
  maxsize = 32;
  free_func = none;
  statically_allocated = true;
}

abbrev pub msg : Message
msg = record {
  msgid = 16;
  values = scalar uint8 255 ∷ empty ∷ [];
  capacity = 2;
  statically_allocated = true;
}

pub msg-IsSendable : All IsSendable msg.values
unfolding is_none type_of type_size
msg-IsSendable = (inr (refl, (tt, omega arith)), (inl refl, tt))

abbrev pub ctx : Context
ctx = record {
  decoder = decoder;
  cbs = record { has_new_message_cb = true; has_error_cb = true };
  opened = true;
  statically_allocated = true;
  msg_tx = some buffer;
  serial_tx = some buffer;
  msg_rx = some msg;
}

-- a context that allocates what it needs
abbrev pub dynamic : Context
dynamic = record ctx { msg_tx = none; serial_tx = none; msg_rx = none }

-- a device that takes all the bytes
abbrev device : List ℕ → Result ℕ
device bytes = ok (length bytes)

send_message_lem_example :
    let sent = send_message heap ctx msg device in
    let frame = frame_of (message_bytes 16 msg.values) in
    (sent.written ≡ some frame)
    × (sent.heap ≡ heap)
    × Returns (length frame) (device frame) sent.ret
unfolding payload_of message_bytes argument data_of is_none type_of type_size to_code to_le
    compute_payload_size count_magic is_magic_byte
send_message_lem_example =
    send_message_lem heap ctx msg device buffer buffer refl refl refl refl refl msg-IsSendable
      (omega arith) (omega arith) (omega arith) (omega arith)

send_message-live_example : (send_message heap dynamic msg (λ bytes. err io)).heap.live ≡ 3
send_message-live_example = send_message-live heap dynamic msg (λ bytes. err io)

process_chunk-static_example :
    (h' : Heap) × (d' : Decoder) × IsIdle d'
    × (process_chunk heap ctx (frame_of (message_bytes 16 msg.values)) ≡ (
      announced ctx (record msg {
        msgid = 16;
        values = packed msg.values ++ drop (length (packed msg.values)) msg.values;
      }),
      h',
      after ctx d' (some (clear msg)),
    ))
unfolding payload_of message_bytes argument data_of is_none type_of type_size to_code to_le packed
process_chunk-static_example =
    process_chunk-static heap ctx 16 msg.values msg decoder-IsIdle (inl (omega arith)) refl refl
      (omega arith) msg-IsSendable (omega arith) (omega arith)

-- a frame that is too short for a message
process_serial_frame-live_example :
    (process_serial_frame heap dynamic (1 ∷ [])).1.live
    ≡ left_by
        (build_from_buffer
          (Store.new heap).1
          (record msg {
            msgid = 0;
            values = replicate 8 empty;
            capacity = 8;
            statically_allocated = false;
          })
          (1 ∷ [])).0
        3
unfolding Store.new new_with_id alloc
process_serial_frame-live_example = process_serial_frame-live heap dynamic (1 ∷ []) refl refl

free_buffer-new_allocate_case : IsBalanced heap 5 (new_allocate heap 5)
free_buffer-new_allocate_case = free_buffer-new_allocate heap 5

-- the frame of the message, in two chunks
abbrev chunks : List (ℕ × List ℕ)
chunks = (16, 27 ∷ 16 ∷ 0 ∷ 0 ∷ []) ∷ (0, 2 ∷ 0 ∷ 0 ∷ 0 ∷ 1 ∷ 27 ∷ 255 ∷ 236 ∷ 255 ∷ []) ∷ []

chunks-sent : (send_message heap ctx msg device).written ≡ some (bytes_of chunks)
unfolding bytes_of frame_of escape escape_byte compute_checksum checksum_from payload_of
    message_bytes argument data_of is_none type_of type_size to_code to_le is_magic_byte
chunks-sent = send_message_lem_example.0

send-receive_example :
    (h'' : Heap) × (d' : Decoder) × IsIdle d'
    × (process_fd heap ctx (answers chunks)
        ≡ returns_zero (
          announced ctx (record msg {
            msgid = 16;
            values = packed msg.values ++ drop (length (packed msg.values)) msg.values;
          }),
          h'',
          after ctx d' (some (clear msg)),
        ))
unfolding payload_of message_bytes argument data_of is_none type_of type_size to_code to_le packed
    compute_payload_size count_magic is_magic_byte
send-receive_example =
    send-receive heap heap ctx ctx msg msg buffer buffer device chunks
      (record {
        opened = refl;
        msg_buffer = refl;
        serial_buffer = refl;
        msg_sized = refl;
        serial_sized = refl;
        sendable = msg-IsSendable;
        id_word = omega arith;
        payload_word = omega arith;
        msg_room = omega arith;
        not_empty = omega arith;
        serial_room = omega arith;
      })
      (record {
        opened = refl;
        idle = decoder-IsIdle;
        room = inl (omega arith);
        own = refl;
        valid = refl;
        slots = omega arith;
      })
      chunks-sent
