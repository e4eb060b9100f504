-- ===== src/Lib.antt =====
-- Verification of libsmp, the Simple Message Protocol library.
--
-- The program. A user fills a message with typed values (src/message.c), which is encoded to a
-- header of eight bytes and a payload of typed arguments (docs/protocols/message-protocol.rst).
-- These bytes are framed for a serial line (src/serial-protocol.c): a start byte, the bytes with
-- reserved bytes escaped, a checksum and an end byte (docs/protocols/serial-protocol.rst). A context
-- (src/context.c) joins the two layers with a device: it encodes and writes in one direction; in the
-- other it reads chunks of bytes, gives each byte to the decoder of frames, builds a message from
-- each frame and calls the user back.
--
-- The files.
--   Base, Errors, Heap: shared helpers; the error codes of include/libsmp.h, with
--   smp_error_to_string of src/libsmp.c in Errors.Strings; malloc, realloc and free with an
--   environment that grants or refuses each request.
--   Serial: src/serial-protocol.c. Frame has the constants, the checksum and the size computation,
--   and the format itself (`frame_of`); Decoder and Encoder the operations; Storage, Invariant and
--   Capacity are about the decoder's buffer, Reading and RoundTrip about what it reads, Encoding
--   about the encoder, Link about both ends, History about the line that a decoder has seen, Safety,
--   Failures, Boundary and Resync about damaged input.
--   Message: src/message.c. Value has the types and sizes, Wire one argument on the wire, Store the
--   message as a container, Codec whole messages, Access the accessors with variable arguments;
--   Format is the format (`message_bytes`) and which values it carries, Shapes what the decoder
--   accepts besides; TooLong which values do not fit their size field; Argument, Decoding,
--   Encoding, Omitted, RoundTrip, Rounding, Growth, Bounds, OverRead, Accepted, Invariant, Room, Parsed,
--   Slots and Typed hold the theorems.
--   Buffer: src/buffer.c.
--   Device: src/serial-device.h. Config has the settings of include/libsmp.h. Avr is
--   src/serial-device-avr.c: Uart has the device, the interrupt handler and the loop of a read,
--   Port the functions, Wait the wait, Chips the devices and the vectors of each chip; Steps and
--   Live are a read with the interrupts that come in the middle of it; Ring, Queue, Uninterrupted,
--   Interleaving, Line, Waiting, Reopen, Vectors, Modules, Receiving and Settings hold the
--   theorems. Posix, Windows and Arduino are src/serial-device-posix.c, src/serial-device-win32.c
--   and src/serial-device-arduino.cpp: System (or Core) is what the code calls, Port the functions,
--   Lifecycle, Opening, Named, Settings and Waiting hold the theorems, and Boards has the serial
--   objects of the Arduino boards. Descriptors is about open descriptors.
--   Context: src/context.c. State has the structure and its creation, Send and Receive the two
--   directions, Answer what a send returns for each answer of the device, Announced whom a message
--   is announced to; Chunks, Delivery, Fresh, Stream, Sending, Memory and EndToEnd hold the
--   theorems. Life is what a program can do with a context, WellFormed and LifeInvariant what that
--   keeps. Source is the interface between the context's loop and a device, which OverAvr,
--   OverPosix and OverArduino fill for three of the devices; Arriving is the loop over the AVR
--   device while bytes arrive. Board is a context over the AVR device, with Opened, Attached,
--   Consistent and BoardInvariant.
--   A function `smp_message_n_args` of the C code is `Message.Store.n_args`, and so on; static helper
--   functions keep their names.
--
-- The model. A pointer that the C code checks against NULL on entry is present by its type, or an
-- `Option` where NULL has a meaning. Memory at a pointer is a list of bytes; a pointer into a
-- frame is the bytes that it shows at that moment. `Result.fault` marks a read outside an object,
-- which the theorems do not assume away; each read of the decoder of a value is checked for it.
-- `size_t` has 64 bits and wraps where the code adds; the host is little-endian, as the memcpy of
-- integers in src/message.c needs for the documented format. Numbers, signed ones and floats too,
-- are bit patterns. Sizes of structures are those of a 64-bit target. The loop that builds a
-- message runs on fuel, one unit for each byte, which is enough since each round takes a byte at
-- least. Callbacks observe events and do not call back into the library.
--
-- The devices. What the code calls of the system, of avr-libc or of the Arduino core is a parameter, a
-- record of functions on a state of the system. On AVR a register holds what was written to it, a
-- wait for the hardware before a byte is sent ends, and interrupts come between the calls of the
-- device, between the rounds of its wait and, in Steps, between any two accesses of a read. The loops
-- that wait run on fuel, one unit for each round.
--
-- Not modelled. smp_context_set_serial_config and smp_context_get_fd over the devices other than AVR,
-- where they only pass a call on; the limit of 512 bytes that a decoder's buffer has by default on AVR
-- (elsewhere it is 1 MiB, and smp_context_set_decoder_maximum_capacity changes it); what the union of a
-- value still holds where raw data were refused; the systems without termios.h or poll.h; the tests
-- and the build files; callers that keep a pointer after a call.
pub mod Base
pub mod Errors
pub mod Heap
pub mod Serial
pub mod Message
pub mod Buffer
pub mod Device
pub mod Context
