-- ===== src/Device/Avr.antt =====
-- The device of src/serial-device-avr.c.
pub mod Uart
pub mod Ring
pub mod Queue
pub mod Steps
pub mod Uninterrupted
pub mod Interleaving
pub mod Live
pub mod Port
pub mod Wait
pub mod Waiting
pub mod Settings
pub mod Line
pub mod Reopen
pub mod Chips
pub mod Vectors
pub mod Modules
pub mod Receiving
pub mod Tests
pub mod ChipTests
