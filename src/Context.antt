-- ===== src/Context.antt =====
-- src/context.c: a serial line with a decoder, messages in and messages out.
pub mod State
pub mod Send
pub mod Receive
pub mod Chunks
pub mod Delivery
pub mod Answer
pub mod Announced
pub mod Sending
pub mod Memory
pub mod EndToEnd
pub mod Source
pub mod OverAvr
pub mod Arriving
pub mod OverPosix
pub mod OverArduino
pub mod Board
pub mod Attached
pub mod Consistent
pub mod BoardInvariant
pub mod Life
pub mod WellFormed
pub mod Opened
pub mod LifeInvariant
pub mod Fresh
pub mod Stream
mod Tests
mod LifeTests
mod BoardTests
