-- ===== src/Device.antt =====
-- The serial devices of src/serial-device.h and their implementations.
pub mod Config
pub mod Avr
pub mod Descriptors
pub mod Posix
pub mod Windows
pub mod Arduino
