-- ===== src/Device/Arduino.antt =====
-- The device on Arduino boards: src/serial-device-arduino.cpp.
pub mod Core
pub mod Port
pub mod Waiting
pub mod Settings
pub mod Opening
pub mod Boards
pub mod Named
mod Tests
mod OpenTests
