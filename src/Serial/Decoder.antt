-- ===== src/Serial/Decoder.antt =====
-- The decoder of src/serial-protocol.c (and its structure in src/serial-protocol.h). Pointers that
-- the C functions check against NULL on entry are present by their types. A frame that the C code
-- returns as a pointer into the decoder's buffer is the bytes that it shows at that moment.
use libsmp.Base.{ℕ, ◌-◌, Bool, true, false, not, ◌&&◌, List, [], ◌∷◌, ◌++◌}
use libsmp.Base.{Option, none, some, ltb, leb, ◌==◌, if◌then◌else◌, get_or, set, take, replicate}
use libsmp.Errors.{Result, ok, err, fault, too_big, no_mem, overflow, bad_message, invalid_param}
use libsmp.Heap.{Heap, alloc, realloc, free}
use libsmp.Serial.Frame.{
  start_byte, end_byte, esc_byte, default_buffer_size, default_maximum_decoder_buffer_size,
  add_size, compute_checksum,
}

-- `SmpSerialProtocolDecoderState`
pub data State : Type 0 where
  wait_header in_frame in_frame_esc : State

-- `SmpSerialProtocolDecoder`. The memory at `buf` is the list; NULL is the empty list.
pub record Decoder : Type 0 where
  pub state : State
  pub buf : List ℕ
  pub bufsize : ℕ
  pub offset : ℕ
  pub maxsize : ℕ
  pub statically_allocated : Bool

-- `sizeof (SmpSerialProtocolDecoder)` on a 64-bit target
abbrev pub sizeof_decoder : ℕ
sizeof_decoder = 48

unfoldable pub is_block : List ℕ → Bool
is_block [] = false
is_block (b ∷ bs) = true

-- What `realloc` and `memset` leave in the buffer.
unfoldable pub resize : List ℕ → ℕ → ℕ → List ℕ
resize buf bufsize capacity =
    if ltb bufsize capacity then buf ++ replicate (capacity - bufsize) 0 else take capacity buf

unfoldable pub set_capacity : Heap → Decoder → ℕ → Result (Unit {0}) × Heap × Decoder
unfolding is_block
set_capacity h d capacity =
    if d.statically_allocated
    then (err too_big, h, d)
    else if ltb d.maxsize capacity
    then (err too_big, h, d)
    else (let (granted, h') = realloc h (is_block d.buf) capacity in
        if granted
        then (ok tt, h', record d { buf = resize d.buf d.bufsize capacity; bufsize = capacity })
        else (err no_mem, h', d))

-- `decoder->buf[decoder->offset++] = byte`
unfoldable pub store : Decoder → ℕ → Decoder
store d byte = record d { buf = set d.buf d.offset byte; offset = add_size d.offset 1 }

abbrev pub store_if_ok : Result (Unit {0}) × Heap × Decoder → ℕ → Result (Unit {0}) × Heap × Decoder
store_if_ok (ok _, h, d) byte = (ok tt, h, store d byte)
store_if_ok (err e, h, d) byte = (err e, h, d)
store_if_ok (fault, h, d) byte = (fault, h, d)

unfoldable pub put_byte : Heap → Decoder → ℕ → Result (Unit {0}) × Heap × Decoder
put_byte h d byte =
    if leb d.bufsize d.offset
    then (let new_size = add_size d.bufsize default_buffer_size in
        if ltb new_size d.bufsize
        then (err overflow, h, d)
        else store_if_ok (set_capacity h d new_size) byte)
    else (ok tt, h, store d byte)

-- What `process_byte` returns: its value, `*frame` and `*framesize`.
pub record Output : Type 0 where
  pub ret : Result (Unit {0})
  pub frame : Option (List ℕ)
  pub framesize : ℕ

-- no frame, and the given value
abbrev pub returns : Result (Unit {0}) → Output
returns r = record { ret = r; frame = none; framesize = 0 }

abbrev pub Step : Type 0
Step = Output × Heap × Decoder

abbrev pub of_put : Result (Unit {0}) × Heap × Decoder → Step
of_put (r, h, d) = (returns r, h, d)

-- the `END_BYTE` case
unfoldable pub end_frame : Decoder → Output × Decoder
end_frame d =
    if ltb d.offset 1
    then (returns (err bad_message), record d { state = wait_header })
    else (let size = d.offset - 1 in
        let payload = take size d.buf in
        let d' = record d { state = wait_header } in
        if compute_checksum payload == get_or d.buf size 0
        then (record { ret = ok tt; frame = some payload; framesize = size }, d')
        else (record { ret = err bad_message; frame = none; framesize = size }, d'))

unfoldable pub process_byte_inframe : Heap → Decoder → ℕ → Step
process_byte_inframe h d byte =
    if byte == start_byte
    then (returns (err bad_message), h, record d { offset = 0 })
    else if byte == esc_byte
    then (returns (ok tt), h, record d { state = in_frame_esc })
    else if byte == end_byte
    then (let (out, d') = end_frame d in (out, h, d'))
    else of_put (put_byte h d byte)

-- the `SMP_SERIAL_PROTOCOL_DECODER_STATE_IN_FRAME_ESC` case
abbrev pub leave_esc : Result (Unit {0}) × Heap × Decoder → Step
leave_esc (ok _, h, d) = (returns (ok tt), h, record d { state = in_frame })
leave_esc (err e, h, d) = (returns (err e), h, d)
leave_esc (fault, h, d) = (returns fault, h, d)

unfoldable pub process_state : State → Heap → Decoder → ℕ → Step
process_state wait_header h d byte =
    if byte == start_byte
    then (returns (ok tt), h, record d { state = in_frame; offset = 0 })
    else (returns (ok tt), h, d)
process_state in_frame h d byte = process_byte_inframe h d byte
process_state in_frame_esc h d byte = leave_esc (put_byte h d byte)

abbrev pub is_ok : Result (Unit {0}) → Bool
is_ok (ok _) = true
is_ok (err e) = false
is_ok fault = false

-- `if (ret != 0 && byte != START_BYTE)`
abbrev pub reset_on_error : ℕ → Step → Step
reset_on_error byte (out, h, d) =
    if not (is_ok out.ret) && not (byte == start_byte)
    then (out, h, record d { state = wait_header })
    else (out, h, d)

-- `smp_serial_protocol_decoder_process_byte`
unfoldable pub process_byte : Heap → Decoder → ℕ → Step
process_byte h d byte = reset_on_error byte (process_state d.state h d byte)

-- `smp_serial_protocol_decoder_init`, over storage `d`; no buffer is NULL.
unfoldable pub init :
    Heap → Decoder → Option (List ℕ) → ℕ → Bool → Result (Unit {0}) × Heap × Decoder
init h d none bufsize static =
    set_capacity h
      (record d {
        state = wait_header;
        statically_allocated = static;
        maxsize = default_maximum_decoder_buffer_size;
      })
      bufsize
init h d (some buf) bufsize static = (
  ok tt,
  h,
  record d {
    state = wait_header;
    statically_allocated = static;
    buf = buf;
    bufsize = bufsize;
    maxsize = bufsize;
  },
)

-- the memory that `calloc` returns
abbrev pub zeroed : Decoder
zeroed = record {
  state = wait_header;
  buf = [];
  bufsize = 0;
  offset = 0;
  maxsize = 0;
  statically_allocated = false;
}

abbrev pub keep_or_free : Result (Unit {0}) × Heap × Decoder → Option Decoder × Heap
keep_or_free (ok _, h, d) = (some d, h)
keep_or_free (err e, h, d) = (none, free h)
keep_or_free (fault, h, d) = (none, free h)

-- `smp_serial_protocol_decoder_new`
unfoldable pub new : Heap → ℕ → Option Decoder × Heap
new h bufsize =
    let (granted, h') = alloc h sizeof_decoder in
    let size = if bufsize == 0 then default_buffer_size else bufsize in
    if granted then keep_or_free (init h' zeroed none size false) else (none, h')

abbrev pub decoder_of : Result (Unit {0}) × Heap × Decoder → Option Decoder
decoder_of (ok _, h, d) = some d
decoder_of (err e, h, d) = none
decoder_of (fault, h, d) = none

-- `smp_serial_protocol_decoder_new_from_static`, over the storage `sdec` and the caller's `buf`.
unfoldable pub new_from_static : Heap → Decoder → ℕ → List ℕ → ℕ → Option Decoder
new_from_static h sdec struct_size buf bufsize =
    if ltb struct_size sizeof_decoder
    then none
    else if bufsize == 0
    then none
    else decoder_of (init h sdec (some buf) bufsize true)

-- `smp_serial_protocol_decoder_free`: the buffer and the structure.
unfoldable pub free_decoder : Heap → Decoder → Heap
free_decoder h d = if d.statically_allocated then h else free (free h)

-- `smp_serial_protocol_decoder_set_maximum_capacity`
unfoldable pub set_maximum_capacity : Decoder → ℕ → Result (Unit {0}) × Decoder
set_maximum_capacity d max =
    if ltb max 5 then (err invalid_param, d) else (ok tt, record d { maxsize = max })

-- Bytes in their order of arrival, as the loop of `smp_context_process_fd` hands them over.
unfoldable pub run : Heap → Decoder → List ℕ → List Output × Heap × Decoder
run h d [] = ([], h, d)
run h d (b ∷ bs) =
    let (out, h', d') = process_byte h d b in
    let (outs, h'', d'') = run h' d' bs in (out ∷ outs, h'', d'')
