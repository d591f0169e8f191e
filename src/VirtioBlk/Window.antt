-- ===== src/VirtioBlk/Window.antt =====
-- Accesses to the memory window.
use node_vmm.Prelude.{ℕ, refl, ltb, leb, ◌==◌, ◌!=◌, ◌&&◌, ◌||◌, if_intro, Result, ok, err}
use node_vmm.Bytes.{Memory, read_u32}
use node_vmm.WinIo.Files.{FileApi, IsBounded}
use node_vmm.VirtioRng.State.{Queue}
use node_vmm.VirtioRng.Ring.{IsKept}
use node_vmm.VirtioBlk.State.{Host}
use node_vmm.VirtioBlk.Request.{handle_queue}
use node_vmm.VirtioBlk.SafeRequests.{handle_queue-IsKept}
use node_vmm.VirtioBlk.Registers.{Blk, write_reg, write_mmio, notified, window_offset, is_queue_reg}

module _ {F : Type 0} (api : FileApi F) (bounded : IsBounded api) (mem_size : ℕ) where
  abbrev StaysInside : Memory → Result (Unit {0}) × (Blk × Host F) → Type 0
  StaysInside m r = IsKept mem_size m r.1.1.memory

  notified-IsKept :
      (i : ℕ) (blk : Blk) (m : Memory) (r : Result (Unit {0}) × (Queue × Host F))
      → IsKept mem_size m r.1.1.memory
      → StaysInside m (notified api mem_size i blk r)
  notified-IsKept i blk m (ok d, (q, h)) kept = kept
  notified-IsKept i blk m (err e, (q, h)) kept = kept

  write_reg-IsKept :
      (off value : ℕ) (blk : Blk) (h : Host F)
      → StaysInside h.memory (write_reg api mem_size off value (blk, h))
  unfolding write_reg
  write_reg-IsKept off value blk h =
      let K : Result (Unit {0}) × (Blk × Host F) → Type 0 = StaysInside h.memory in
      if_intro K (off == 0x050)
        (if_intro K (ltb value 8 && (blk.queues value).ready)
          (notified-IsKept value blk h.memory (handle_queue api mem_size (blk.queues value, h))
            (handle_queue-IsKept api bounded mem_size h.memory (blk.queues value, h) (λ a g. refl)))
          (λ a g. refl))
        (if_intro K (is_queue_reg off) (λ a g. refl) (λ a g. refl))

  -- A store to the memory window changes guest memory only inside it, whatever the register, the
  -- rings, the descriptors and the disk hold, and also where it throws. No call of the system
  -- reads more bytes than it was asked for.
  pub write_mmio-IsKept :
      (mmio_base addr src len : ℕ) (m : Memory) (blk : Blk) (h : Host F)
      → IsKept mem_size h.memory
          (write_mmio api mem_size mmio_base addr src len m (blk, h)).1.1.memory
  unfolding write_mmio
  write_mmio-IsKept mmio_base addr src len m blk h =
      if_intro (StaysInside h.memory)
        (leb 0x100 (window_offset api mem_size mmio_base addr) || len != 4) (λ a g. refl)
        (write_reg-IsKept (window_offset api mem_size mmio_base addr) (read_u32 src m) blk h)
