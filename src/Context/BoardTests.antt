-- ===== src/Context/BoardTests.antt =====
-- A context over the device of a board, with an instance of the property that joins them.
use libsmp.Base.{
  ℕ, ◌≤◌, List, ◌≡◌, refl, arith, true, false, inl, [], ◌∷◌, ◌++◌, none, some, length, replicate,
  drop, if◌then◌else◌,
}
use libsmp.Base.Bytes.{to_le}
use libsmp.Heap.{Heap}
use libsmp.Serial.Frame.{
  frame_of, escape, escape_byte, is_magic_byte, compute_checksum, checksum_from,
}
use libsmp.Serial.Decoder.{Decoder}
use libsmp.Serial.RoundTrip.{IsIdle}
use libsmp.Message.Value.{is_none, type_of, type_size, to_code}
use libsmp.Message.Store.{clear}
use libsmp.Message.Format.{payload_of, message_bytes, argument, data_of}
use libsmp.Message.RoundTrip.{packed}
use libsmp.Device.Avr.Uart.{UartDevice, advance, rx_interrupt_handler}
use libsmp.Device.Avr.Ring.{Holds}
use libsmp.Device.Avr.Steps.{turn, interrupt, step, interrupted, play, arrived}
use libsmp.Device.Avr.Live.{LiveDevice, live_read, to_arrive}
use libsmp.Context.Arriving.{process_fd-Arriving}
use libsmp.Device.Avr.Port.{Port, read_port}
use libsmp.Device.Avr.Line.{Serves, interrupts}
use libsmp.Errors.{ok, fault}
use libsmp.Device.Config.{baud_9600, parity_odd, same_text}
use libsmp.Device.Avr.Reopen.{open_port-close_port}
use libsmp.Device.Avr.Port
use libsmp.Device.Avr.Tests.{bits, setbaud}
use libsmp.Context.Board.{Board, open_board, set_serial_config, starts, opens}
use libsmp.Context.BoardInvariant.{set_serial_config-Reachable}
use libsmp.Context.Announced.{announced}
use libsmp.Context.Receive.{process_fd, process_chunk}
use libsmp.Context.Chunks.{returns_zero}
use libsmp.Context.Delivery.{after}
use libsmp.Context.Source.{answers_of, process_fd-Source}
use libsmp.Context.OverAvr.{avr_source, interrupts-process_fd}
use libsmp.Context.Tests.{heap, decoder-IsIdle, msg, msg-IsSendable, ctx}

-- a device whose indices are about to wrap around
abbrev device : UartDevice
device = record {
  name = 117 ∷ 48 ∷ [];
  regs = record { csr_a = λ i. false; csr_b = λ i. true; csr_c = λ i. false; br_l = 8; br_h = 0 };
  cbuf = replicate 32 0;
  rindex = 30;
  windex = 30;
}

abbrev board : Port
board = record { devices = device ∷ []; fd = some 0 }

board-Serves : Serves 32 (omega arith) (omega arith) board 0 []
board-Serves = record {
  device = device;
  opened = refl;
  here = refl;
  holds = record {
    storage = refl;
    read_inside = omega arith;
    write_inside = omega arith;
    fits = omega arith;
    bytes = refl;
  };
}

interrupts-process_fd_example :
    (h' : Heap) × (d' : Decoder) × IsIdle d'
    × (process_fd heap ctx
          (answers_of
            (read_port 32)
            20
            3
            (interrupts 32 board 0 (frame_of (message_bytes 16 msg.values)))).0
        ≡ returns_zero (
          announced ctx (record msg {
            msgid = 16;
            values = packed msg.values ++ drop (length (packed msg.values)) msg.values;
          }),
          h',
          after ctx d' (some (clear msg)),
        ))
unfolding frame_of escape escape_byte is_magic_byte compute_checksum checksum_from payload_of
    message_bytes argument data_of is_none type_of type_size to_code to_le packed
interrupts-process_fd_example =
    interrupts-process_fd 32 (omega arith) (omega arith) 20 2 board 0 heap ctx 16 msg.values msg
      board-Serves (omega arith) (omega arith) refl decoder-IsIdle (inl (omega arith)) refl refl
      (omega arith) msg-IsSendable (omega arith) (omega arith)

-- The context is opened on a device that was not enabled, and then its settings are changed.
abbrev opened_board : Board
opened_board =
    let idle = record device { regs = record device.regs { csr_b = λ i. false } } in
    (open_board bits setbaud
      (record { ctx = record ctx { opened = false }; port = Port.init (idle ∷ []) })
      (117 ∷ 48 ∷ [])).1

set_serial_config-Reachable_example :
    (set_serial_config bits setbaud opened_board baud_9600 parity_odd).0
    ≡ (if opened_board.ctx.opened then ok tt else fault)
set_serial_config-Reachable_example =
    let idle = record device { regs = record device.regs { csr_b = λ i. false } } in
    set_serial_config-Reachable bits setbaud 32 opened_board baud_9600 parity_odd
      (opens _ (117 ∷ 48 ∷ []) (starts ctx (idle ∷ [])))

-- Three bytes wait, the last of them in the first place of the ring.
abbrev waiting : Port
waiting = record board {
  devices = record device { cbuf = 255 ∷ replicate 29 0 ++ (16 ∷ 1 ∷ []); windex = 1 } ∷ [];
}

waiting-Serves : Serves 32 (omega arith) (omega arith) waiting 0 (16 ∷ 1 ∷ 255 ∷ [])
unfolding advance
waiting-Serves = record {
  device = record device { cbuf = 255 ∷ replicate 29 0 ++ (16 ∷ 1 ∷ []); windex = 1 };
  opened = refl;
  here = refl;
  holds = record {
    storage = refl;
    read_inside = omega arith;
    write_inside = omega arith;
    fits = omega arith;
    bytes = (refl, (refl, (refl, refl)));
  };
}

process_fd-Source_example :
    (process_fd heap ctx (answers_of (read_port 32) 4 2 waiting).0
      ≡ returns_zero (process_chunk heap ctx (16 ∷ 1 ∷ 255 ∷ [])))
    × Serves 32 (omega arith) (omega arith) (answers_of (read_port 32) 4 2 waiting).1 0 []
process_fd-Source_example =
    process_fd-Source (avr_source 32 (omega arith) (omega arith) 0) 4 1 waiting (16 ∷ 1 ∷ 255 ∷ [])
      heap ctx waiting-Serves (omega arith) refl

-- Bytes arrive in each read of at most three, the last one when the read has found no byte.
abbrev live : LiveDevice
live = record {
  device = device;
  coming =
      (interrupt 16 ∷ turn ∷ turn ∷ interrupt 27 ∷ turn ∷ turn ∷ interrupt 7 ∷ [])
      ∷ (interrupt 8 ∷ turn ∷ turn ∷ turn ∷ turn ∷ interrupt 9 ∷ [])
      ∷ (turn ∷ interrupt 5 ∷ [])
      ∷ [];
}

live-answers :
    (answers_of (live_read 32) 9 3 live).0 ≡ ok (16 ∷ 27 ∷ 7 ∷ []) ∷ ok (8 ∷ 9 ∷ []) ∷ ok [] ∷ []
unfolding answers_of live_read play step interrupted rx_interrupt_handler advance
live-answers = refl

process_fd-Arriving_example :
    (handled : List ℕ) × (rest : List ℕ) × (l' : LiveDevice) × (process_fd heap ctx
        (answers_of (live_read 32) 9 3 live).0
      ≡ returns_zero (process_chunk heap ctx handled))
    × ((answers_of (live_read 32) 9 3 live).1 ≡ l')
    × Holds 32 (omega arith) (omega arith) l'.device rest
    × (handled ++ (rest ++ to_arrive l'.coming) ≡ to_arrive live.coming)
    × (0 ≤ length handled)
unfolding to_arrive arrived board-Serves
process_fd-Arriving_example =
    process_fd-Arriving 32 (omega arith) (omega arith) 9 2 heap ctx live [] board-Serves.holds
      (omega arith) (omega arith) refl

-- a byte that was received before the device is closed
abbrev stale : Port
stale = record {
  devices = record device { cbuf = replicate 30 0 ++ (42 ∷ 0 ∷ []); rindex = 30; windex = 31 } ∷ [];
  fd = some 0;
}

stale-Serves : Serves 32 (omega arith) (omega arith) stale 0 (42 ∷ [])
unfolding advance
stale-Serves = record {
  device = record device { cbuf = replicate 30 0 ++ (42 ∷ 0 ∷ []); rindex = 30; windex = 31 };
  opened = refl;
  here = refl;
  holds = record {
    storage = refl;
    read_inside = omega arith;
    write_inside = omega arith;
    fits = omega arith;
    bytes = (refl, refl);
  };
}

open_port-close_port_example :
    ((Port.close_port bits setbaud stale).0 ≡ ok tt)
    × ((Port.close_port bits setbaud stale).1.fd ≡ none)
    × ((Port.open_port bits setbaud (Port.close_port bits setbaud stale).1 (117 ∷ 48 ∷ [])).0
        ≡ ok tt)
    × ((Port.open_port bits setbaud (Port.close_port bits setbaud stale).1 (117 ∷ 48 ∷ [])).1.fd
        ≡ some 0)
    × ((read_port 32
          (Port.open_port bits setbaud (Port.close_port bits setbaud stale).1 (117 ∷ 48 ∷ [])).1
          4).0
        ≡ ok (42 ∷ []))
unfolding same_text
open_port-close_port_example =
    open_port-close_port bits setbaud 32 (omega arith) (omega arith) stale 0 (42 ∷ [])
      (117 ∷ 48 ∷ []) 4 stale-Serves refl
