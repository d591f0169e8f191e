-- ===== src/VirtioRng.antt =====
-- native/whp/virtio/rng.cc, native/whp/virtio/rng.h and native/whp/virtio/desc.h: the virtio-mmio
-- entropy device.
pub mod State
pub mod Queue
pub mod Registers
pub mod Ring
pub mod Chain
pub mod Service
pub mod Setup
mod Tests
