-- ===== src/Device/Windows.antt =====
-- The device on Windows: src/serial-device-win32.c.
pub mod System
pub mod Port
pub mod Lifecycle
pub mod Settings
mod Tests
