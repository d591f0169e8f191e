-- ===== src/ConsoleWriter.antt =====
-- native/whp/console_writer.h: the class ConsoleWriter, between the serial port and the terminal of
-- the host. A `std::string` is a list of bytes.
pub mod Scan
pub mod Normalize
pub mod SafePrefix
pub mod Rounds
pub mod Frames
pub mod Queue
pub mod Chunks
pub mod Order
pub mod Conserved
pub mod Drained
mod Tests
