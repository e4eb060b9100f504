-- ===== src/Context/OverAvr.antt =====
-- smp_context_process_fd of src/context.c over the device of src/serial-device-avr.c.
use libsmp.Base.{
  ℕ, suc, ◌+◌, ◌^◌, ◌≤◌, ◌<◌, ◌≡◌, ap, ◌∙◌, arith, true, some, List, [], ◌∷◌, ◌++◌, length, drop,
  All, inl,
}
use libsmp.Heap.{Heap}
use libsmp.Serial.Frame.{frame_of}
use libsmp.Serial.RoundTrip.{IsIdle}
use libsmp.Serial.Capacity.{CanHold}
use libsmp.Serial.Decoder.{Decoder}
use libsmp.Message.Store.{Message, clear}
use libsmp.Message.Value.{Value}
use libsmp.Message.Format.{payload_of, message_bytes}
use libsmp.Message.Encoding.{IsSendable}
use libsmp.Message.RoundTrip.{packed}
use libsmp.Device.Avr.Port.{Port, read_port}
use libsmp.Device.Avr.Line.{Serves, interrupts, read_port-Serves, interrupts-Serves}
use libsmp.Context.State.{Context}
use libsmp.Context.Announced.{announced}
use libsmp.Context.Receive.{process_fd}
use libsmp.Context.Chunks.{returns_zero}
use libsmp.Context.Source.{Source, answers_of, process_fd-Source}
use libsmp.Context.Delivery.{after, process_chunk-static}

module _ (size : ℕ) (pos : 0 < size) (word : size ≤ 256) where
  -- The device number `i` of a board, where it is open.
  abbrev pub avr_source : ℕ → Source Port
  avr_source i = record {
    read = read_port size;
    Waits = λ p q. Serves size pos word p i q;
    some_bytes = λ p m b bs s. read_port-Serves size pos word (suc m) p i (b ∷ bs) s;
    no_bytes =
        λ p m s. let (e, s') = read_port-Serves size pos word (suc m) p i [] s in (inl e, s');
  }

  -- A frame that arrives byte by byte at the open device of a board, which holds no other byte, with
  -- fewer bytes than the device's ring has, and that is the frame of an encoded message (values that
  -- can be sent, an id and a payload below 2 ^ 32): `smp_context_process_fd`, on an open and idle
  -- context with a message of its own, which has enough slots, and with room in its decoder, returns 0
  -- and notifies the user of that message, with the values but the empty ones, and nothing else.
  pub interrupts-process_fd :
      (fuel m : ℕ) (p : Port) (i : ℕ) (h : Heap) (ctx : Context) (id : ℕ) (vs : List Value)
      (msg : Message)
      → Serves size pos word p i []
      → length (frame_of (message_bytes id vs)) < size
      → length (frame_of (message_bytes id vs)) < fuel
      → ctx.opened ≡ true
      → IsIdle ctx.decoder
      → CanHold h ctx.decoder (length (message_bytes id vs) + 1)
      → ctx.msg_rx ≡ some msg
      → msg.capacity ≡ length msg.values
      → length (packed vs) ≤ msg.capacity
      → All IsSendable vs
      → id < 2 ^ 32
      → length (payload_of vs) < 2 ^ 32
      → (h' : Heap) × (d' : Decoder) × IsIdle d'
        × (process_fd h ctx
              (answers_of
                (read_port size)
                fuel
                (suc m)
                (interrupts size p i (frame_of (message_bytes id vs)))).0
            ≡ returns_zero (
              announced ctx (record msg {
                msgid = id;
                values = packed vs ++ drop (length (packed vs)) msg.values;
              }),
              h',
              after ctx d' (some (clear msg)),
            ))
  interrupts-process_fd fuel m p i h ctx id vs msg s ring enough o idle c e r k a w l =
      let frame = frame_of (message_bytes id vs) in
      let (h', d', i', done) = process_chunk-static h ctx id vs msg idle c e r k a w l in
      let s' = interrupts-Serves size pos word frame p i [] s (omega (arith, ring)) in
      let (all, left) =
        process_fd-Source (avr_source i) fuel m (interrupts size p i frame) frame h ctx s' enough
          o in
      (h', d', i', all ∙ ap returns_zero done)
