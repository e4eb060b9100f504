-- ===== src/Message.antt =====
-- src/message.c: messages, their values and their encoding.
pub mod Value
pub mod Wire
pub mod Store
pub mod Codec
pub mod Format
pub mod Argument
pub mod Decoding
pub mod Encoding
pub mod Rounding
pub mod TooLong
pub mod Omitted
pub mod RoundTrip
pub mod Growth
pub mod Bounds
pub mod OverRead
pub mod Shapes
pub mod Accepted
pub mod Invariant
pub mod Room
pub mod Parsed
pub mod Slots
pub mod Access
pub mod Typed
mod Tests
mod DecodeTests
