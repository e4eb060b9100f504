-- ===== src/Device/Posix.antt =====
-- The device on POSIX systems: src/serial-device-posix.c.
pub mod System
pub mod Port
pub mod Lifecycle
pub mod Settings
mod Tests
