-- ===== src/Boot.antt =====
-- native/whp/boot_params.h and native/whp/boot_params.cc: the zero page, the command line and the MP
-- table that a Linux kernel finds in guest memory. The command line is a list of bytes.
pub mod Params
pub mod Table
pub mod Checks
pub mod Copies
mod Tests
