-- ===== src/VirtioBlk.antt =====
-- native/whp/virtio/blk.cc, native/whp/virtio/blk.h and native/whp/guest_memory.h: the virtio-mmio
-- block device with its copy-on-write overlay, over the files of `WinIo`.
pub mod State
pub mod Disk
pub mod Chain
pub mod Used
pub mod Request
pub mod Registers
pub mod Attach
pub mod Window
pub mod RoundTrip
pub mod Walk
pub mod Bitmap
pub mod View
pub mod Reading
pub mod Prepare
pub mod Written
pub mod Writing
pub mod Refusals
pub mod Safety
pub mod SafeWrites
pub mod SafeData
pub mod SafeRequests
pub mod Completion
mod Tests
