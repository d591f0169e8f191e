-- ===== src/VirtioNet.antt =====
-- The class VirtioNet of native/whp/backend.cc: the network device, from its registers to the two
-- queues and the packets that wait for a buffer of the guest.
pub mod State
pub mod Receive
pub mod Transmit
pub mod Registers
pub mod Backlog
pub mod Safety
pub mod Window
pub mod Progress
pub mod Stores
pub mod Delivery
pub mod Negotiation
mod Tests
