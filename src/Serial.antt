-- ===== src/Serial.antt =====
-- src/serial-protocol.c: the framing of payloads on the serial line.
pub mod Frame
pub mod Decoder
pub mod Encoder
pub mod Storage
pub mod Invariant
pub mod Capacity
pub mod Reading
pub mod RoundTrip
pub mod Encoding
pub mod Link
pub mod History
pub mod Safety
pub mod Failures
pub mod Boundary
pub mod Resync
mod Tests
