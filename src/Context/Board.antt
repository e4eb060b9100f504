-- ===== src/Context/Board.antt =====
-- A context over the device of a board: the calls of src/context.c that reach the device of
-- src/serial-device-avr.c, and the interrupts.
use libsmp.Base.{ℕ, ◌≡◌, false, Option, none, some, List, [], if◌then◌else◌}
use libsmp.Errors.{Result, ok, err, fault, busy}
use libsmp.Heap.{Heap}
use libsmp.Device.Config.{Baudrate, Parity}
use libsmp.Device.Avr.Uart.{UartDevice}
use libsmp.Device.Avr.Port.{
  Bits, Speed, Port, open_port, close_port, set_config, read_port, write_port,
}
use libsmp.Device.Avr.Wait.{wait_port}
use libsmp.Message.Store.{Message}
use libsmp.Context.Send.{Sent, send_message}
use libsmp.Device.Avr.Port
use libsmp.Device.Avr.Line.{interrupts}
use libsmp.Context.State.{Context, open_device, close, set_decoder_maximum_capacity}
use libsmp.Context.Receive.{process_fd, wait_and_process}
use libsmp.Context.Source.{answers_of}

-- the context with its device, and the devices of the board
pub record Board : Type 0 where
  pub ctx : Context
  pub port : Port

abbrev pub as_count : Result (Unit {0}) → Result ℕ
as_count (ok _) = ok 0
as_count (err e) = err e
as_count fault = fault

-- `smp_context_get_fd`; a failure is `SMP_ERROR_BAD_FD`
unfoldable pub get_fd : Board → Option ℕ
get_fd b = Port.get_fd b.port

module _ (bits : Bits) (setbaud : Baudrate → Speed) where
  -- `smp_context_open`
  unfoldable pub open_board : Board → List ℕ → Result (Unit {0}) × Board
  open_board b path =
      let (answer, port) = open_port bits setbaud b.port path in
      let (ret, ctx) = open_device b.ctx (as_count answer) in
      if b.ctx.opened then (err busy, b) else (ret, record { ctx = ctx; port = port })

  -- `smp_context_close`
  unfoldable pub close_board : Board → Board
  close_board b =
      let (answer, port) = close_port bits setbaud b.port in
      if b.ctx.opened then record { ctx = close b.ctx; port = port } else b

  -- `smp_context_set_serial_config`
  unfoldable pub set_serial_config : Board → Baudrate → Parity → Result (Unit {0}) × Board
  set_serial_config b baudrate parity =
      let (answer, port) = set_config bits setbaud b.port baudrate parity in
      (answer, record b { port = port })

module _ (size : ℕ) where
  -- `smp_context_process_fd`, for reads of at most `chunk` bytes and at most `fuel` rounds
  unfoldable pub process_board : ℕ → ℕ → Heap → Board → Board
  process_board fuel chunk h b =
      let (answers, port) = answers_of (read_port size) fuel chunk b.port in
      if b.ctx.opened then record { ctx = (process_fd h b.ctx answers).3; port = port } else b

-- `smp_context_send_message`: what it returns, the bytes that the data register was given, the heap
-- afterwards, and the board, which keeps its rings and settings.
unfoldable pub send_board : Heap → Board → Message → Sent × Board
send_board h b msg = (send_message h b.ctx msg (λ bytes. (write_port b.port bytes).0), b)

-- `smp_context_set_decoder_maximum_capacity`
unfoldable pub limit_board : Board → ℕ → Result (Unit {0}) × Board
limit_board b max =
    let (ret, ctx) = set_decoder_maximum_capacity b.ctx max in (ret, record b { ctx = ctx })

-- While the context waits, the bytes `arrivals k` arrive in round `k`.
module _ (size : ℕ) (arrivals : ℕ → List ℕ) where
  abbrev pub after_wait : ℕ → ℕ → Heap → Board → Option (Result (Unit {0}) × Port) → Option Board
  after_wait fuel chunk h b none = none
  after_wait fuel chunk h b (some (ok _, p)) =
      let (answers, port) = answers_of (read_port size) fuel chunk p in
      some (record { ctx = (wait_and_process h b.ctx (ok tt) answers).3; port = port })
  after_wait fuel chunk h b (some (err e, p)) =
      some (record { ctx = (wait_and_process h b.ctx (err e) []).3; port = p })
  after_wait fuel chunk h b (some (fault, p)) =
      some (record { ctx = (wait_and_process h b.ctx fault []).3; port = p })

  -- `smp_context_wait_and_process`, with `rounds` as the fuel of the wait; `none` is a wait that goes on.
  unfoldable pub wait_board : ℕ → Option ℕ → ℕ → ℕ → Heap → Board → Option Board
  wait_board rounds timeout fuel chunk h b =
      let r = after_wait fuel chunk h b (wait_port size arrivals rounds b.port timeout) in
      if b.ctx.opened then r else some b

module _ (bits : Bits) (setbaud : Baudrate → Speed) (size : ℕ) where
  -- What a program does with a board, in any order, and the interrupts in between.
  pub data Reachable : Board → Type 0 where
    starts :
        (ctx : Context) (devices : List UartDevice)
        → Reachable (record { ctx = record ctx { opened = false }; port = Port.init devices })
    opens : (b : Board) (path : List ℕ) → Reachable b → Reachable (open_board bits setbaud b path).1
    closes : (b : Board) → Reachable b → Reachable (close_board bits setbaud b)
    configures :
        (b : Board) (baudrate : Baudrate) (parity : Parity)
        → Reachable b
        → Reachable (set_serial_config bits setbaud b baudrate parity).1
    receives :
        (b : Board) (fuel chunk : ℕ) (h : Heap)
        → Reachable b
        → Reachable (process_board size fuel chunk h b)
    sends : (b : Board) (h : Heap) (msg : Message) → Reachable b → Reachable (send_board h b msg).1
    limits : (b : Board) (max : ℕ) → Reachable b → Reachable (limit_board b max).1
    waits :
        (b b' : Board) (arrivals : ℕ → List ℕ) (rounds : ℕ) (timeout : Option ℕ) (fuel chunk : ℕ)
        (h : Heap)
        → Reachable b
        → wait_board size arrivals rounds timeout fuel chunk h b ≡ some b'
        → Reachable b'
    interrupted :
        (b : Board) (i : ℕ) (bytes : List ℕ)
        → Reachable b
        → Reachable (record b { port = interrupts size b.port i bytes })
