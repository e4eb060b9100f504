-- ===== src/Context/State.antt =====
-- `SmpContext`: src/context.h, and src/context.c, lines 34 to 57, 92 to 230 and 414 to 430. The
-- device of the context stands outside: what it answers is an argument of the operations.
use libsmp.Base.{ℕ, Bool, true, false, Option, none, some, if◌then◌else◌, ltb, leb}
use libsmp.Errors.{Result, ok, err, busy, invalid_param}
use libsmp.Heap.{Heap, alloc, free}
use libsmp.Serial.Decoder.{Decoder, free_decoder, set_maximum_capacity}
use libsmp.Serial.Decoder
use libsmp.Message.Store.{Message}
use libsmp.Buffer.{Buffer}

-- `SmpEventCallbacks`: which of the callbacks are set. A callback observes an event.
pub record EventCallbacks : Type 0 where
  pub has_new_message_cb : Bool
  pub has_error_cb : Bool

pub record Context : Type 0 where
  pub decoder : Decoder
  pub cbs : EventCallbacks
  pub opened : Bool
  pub statically_allocated : Bool
  pub msg_tx : Option Buffer
  pub serial_tx : Option Buffer
  pub msg_rx : Option Message

-- `sizeof (SmpContext)` on a 64-bit target
abbrev pub sizeof_context : ℕ
sizeof_context = 72

-- `smp_context_init`, on zeroed memory
unfoldable pub init : Decoder → EventCallbacks → Bool → Context
init decoder cbs static = record {
  decoder = decoder;
  cbs = cbs;
  opened = false;
  statically_allocated = static;
  msg_tx = none;
  serial_tx = none;
  msg_rx = none;
}

abbrev pub with_decoder : Option Decoder × Heap → EventCallbacks → Option Context × Heap
with_decoder (none, h) cbs = (none, free h)
with_decoder (some d, h) cbs = (some (init d cbs false), h)

-- `smp_context_new`
unfoldable pub new : Heap → EventCallbacks → Option Context × Heap
new h cbs =
    let (granted, h1) = alloc h sizeof_context in
    if granted then with_decoder (Decoder.new h1 0) cbs else (none, h1)

-- `smp_context_new_from_static`, where no pointer is NULL
unfoldable pub new_from_static :
    ℕ → EventCallbacks → Decoder → Buffer → Buffer → Message → Option Context
new_from_static struct_size cbs decoder serial_tx msg_tx msg_rx =
    if ltb struct_size sizeof_context
    then none
    else some (record (init decoder cbs true) {
      serial_tx = some serial_tx;
      msg_tx = some msg_tx;
      msg_rx = some msg_rx;
    })

-- `smp_context_free`
unfoldable pub free_context : Heap → Context → Heap
free_context h ctx = if ctx.statically_allocated then h else free (free_decoder h ctx.decoder)

-- `smp_context_open`, where the device answers `device`; `ok` is any value that is not negative.
unfoldable pub open_device : Context → Result ℕ → Result (Unit {0}) × Context
open_device ctx device = if ctx.opened then (err busy, ctx) else elim device [
  | ok n ↦ (ok tt, record ctx { opened = true })
  | err e ↦ (err e, ctx)
  | Result.fault ↦ (Result.fault, ctx)
]

-- `smp_context_close`
unfoldable pub close : Context → Context
close ctx = if ctx.opened then record ctx { opened = false } else ctx

-- `smp_context_set_decoder_maximum_capacity`
unfoldable pub set_decoder_maximum_capacity : Context → ℕ → Result (Unit {0}) × Context
set_decoder_maximum_capacity ctx max =
    let (r, d) = set_maximum_capacity ctx.decoder max in
    if leb max 16 then (err invalid_param, ctx) else (r, record ctx { decoder = d })
