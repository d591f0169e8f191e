-- ===== src/Hpet.antt =====
-- native/whp/devices/hpet.h and native/whp/devices/hpet.cc: the high precision event timer.
pub mod State
pub mod Timers
pub mod Registers
pub mod Config
pub mod Window
pub mod Expiry
mod Tests
