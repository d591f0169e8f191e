-- ===== src/Uart.antt =====
-- native/whp/devices/uart.h and native/whp/devices/uart.cc: the 16550 serial port. The operations
-- stand in the first modules, from the state up to the registers, and the proofs in the others.
pub mod State
pub mod Lines
pub mod Receive
pub mod Console
pub mod Transmit
pub mod Registers
pub mod Crlf
pub mod Matcher
pub mod Markers
pub mod Queue
mod Tests
