-- ===== src/VirtioBlk/Registers.antt =====
-- The register file and the configuration behind the memory window.
use node_vmm.Prelude.{
  ℕ, ◌+◌, ◌-◌, ◌/◌, ◌^◌, min, bit_and, bit_or, Bool, false, ◌&&◌, ◌||◌, ltb, leb, ◌==◌, ◌!=◌,
  if◌then◌else◌, Result, ok, err,
}
use node_vmm.Prelude.State.{M, return}
use node_vmm.Bits.Fields.{bit_not}
use node_vmm.Bytes.{u32, Memory, read_u32, write_u32, write_u64}
use node_vmm.WinIo.Files.{FileApi, place}
use node_vmm.Hpet.Registers.{clear_bytes}
use node_vmm.VirtioRng.State.{Queue, magic, vendor, version, feature_version_1, interrupt_vring}
use node_vmm.VirtioRng.Registers.{set_low, set_high}
use node_vmm.VirtioBlk.State.{Disk, Host}
use node_vmm.VirtioBlk.Chain.{max_queue_size}
use node_vmm.VirtioBlk.Request.{handle_queue}

-- `raised` counts the calls of `raise_irq_`.
pub record Blk : Type 0 where
  pub status : ℕ
  pub drv_features : ℕ
  pub dev_features_sel : ℕ
  pub drv_features_sel : ℕ
  pub queue_sel : ℕ
  pub interrupt_status : ℕ
  pub queues : ℕ → Queue
  pub raised : ℕ

unfoldable pub initial_queue : Queue
initial_queue = record {
  size = 256;
  ready = false;
  last_avail = 0;
  desc_addr = 0;
  driver_addr = 0;
  device_addr = 0;
}

-- The number of raised interrupts is no state of the device.
unfoldable pub reset : Blk → Blk
unfolding initial_queue
reset blk = record {
  status = 0;
  drv_features = 0;
  dev_features_sel = 0;
  drv_features_sel = 0;
  queue_sel = 0;
  interrupt_status = 0;
  queues = λ i. initial_queue;
  raised = blk.raised;
}

-- Feature bits 9 (flush) and, on a read-only disk, 5.
abbrev pub features : Bool → ℕ
features read_only =
    let common = bit_or feature_version_1 (2 ^ 9) in
    if read_only then bit_or common (2 ^ 5) else common

unfoldable pub read_reg : Bool → Blk → ℕ → ℕ
read_reg read_only blk off =
    if off == 0x000
    then magic
    else if off == 0x004
    then version
    else if off == 0x008
    then 2
    else if off == 0x00c
    then vendor
    else if off == 0x010
    then if blk.dev_features_sel == 1
      then u32 (features read_only / 2 ^ 32)
      else u32 (features read_only)
    else if off == 0x034
    then max_queue_size
    else if off == 0x044
    then if (blk.queues blk.queue_sel).ready then 1 else 0
    else if off == 0x060
    then blk.interrupt_status
    else if off == 0x070
    then blk.status
    else 0

-- The registers of the features, the status and the interrupts.
unfoldable pub write_control : ℕ → ℕ → Blk → Blk
unfolding reset
write_control off value blk =
    if off == 0x014
    then record blk { dev_features_sel = value }
    else if off == 0x024
    then record blk { drv_features_sel = value }
    else if off == 0x020
    then record blk {
      drv_features =
          if blk.drv_features_sel == 0
          then set_low blk.drv_features value
          else set_high blk.drv_features value;
    }
    else if off == 0x030
    then if ltb value 8 then record blk { queue_sel = value } else blk
    else if off == 0x064
    then record blk { interrupt_status = bit_and blk.interrupt_status (bit_not 32 value) }
    else if off == 0x070
    then if value == 0 then reset blk else record blk { status = value }
    else blk

-- The registers of the queue that is selected.
unfoldable pub write_queue : ℕ → ℕ → Queue → Queue
write_queue off value q =
    if off == 0x038
    then if leb 1 value && leb value max_queue_size then record q { size = value } else q
    else if off == 0x044
    then record q { ready = value != 0 }
    else if off == 0x080
    then record q { desc_addr = set_low q.desc_addr value }
    else if off == 0x084
    then record q { desc_addr = set_high q.desc_addr value }
    else if off == 0x090
    then record q { driver_addr = set_low q.driver_addr value }
    else if off == 0x094
    then record q { driver_addr = set_high q.driver_addr value }
    else if off == 0x0a0
    then record q { device_addr = set_low q.device_addr value }
    else if off == 0x0a4
    then record q { device_addr = set_high q.device_addr value }
    else q

abbrev pub set_queue : ℕ → Queue → Blk → Blk
set_queue i q blk = record blk { queues = λ j. if j == i then q else blk.queues j }

-- The cases of the switch stand in two groups, that of the queue with the offsets of its own.
abbrev pub is_queue_reg : ℕ → Bool
is_queue_reg off = off == 0x038 || (off == 0x044 || leb 0x080 off)

module _ {F : Type 0} (api : FileApi F) (mem_size : ℕ) where
  -- After `handle_queue` on queue `i`: the interrupt, unless it threw.
  abbrev pub notified :
      ℕ → Blk → Result (Unit {0}) × (Queue × Host F) → Result (Unit {0}) × (Blk × Host F)
  notified i blk (err e, (q, h)) = (err e, (set_queue i q blk, h))
  notified i blk (ok done, (q, h)) = (
    ok done,
    (
      record (set_queue i q blk) {
        interrupt_status = bit_or blk.interrupt_status interrupt_vring;
        raised = blk.raised + 1;
      },
      h,
    ),
  )

  unfoldable pub write_reg : ℕ → ℕ → M (Blk × Host F) (Unit {0})
  write_reg off value (blk, h) =
      if off == 0x050
      then if ltb value 8 && (blk.queues value).ready
        then notified value blk (handle_queue api mem_size (blk.queues value, h))
        else return tt (blk, h)
      else if is_queue_reg off
      then return tt
          (set_queue blk.queue_sel (write_queue off value (blk.queues blk.queue_sel)) blk, h)
      else return tt (write_control off value blk, h)

  -- The configuration, 16 bytes of it, by index.
  abbrev pub config : ℕ → Memory
  config sectors = write_u32 12 128 (write_u32 8 0 (write_u64 0 sectors (λ a. 0)))

  abbrev pub window_offset : ℕ → ℕ → ℕ
  window_offset mmio_base addr = u32 (addr + 2 ^ 64 - mmio_base)

  -- The access is `len` bytes of host memory at `dst` or `src`.
  unfoldable pub read_mmio : ℕ → Disk F → Blk → ℕ → ℕ → ℕ → Memory → Memory
  read_mmio mmio_base disk blk addr dst len m =
      let cleared = clear_bytes dst len m in
      let off = window_offset mmio_base addr in
      if ltb off 0x100
      then if len != 4 then cleared else write_u32 dst (read_reg disk.read_only blk off) cleared
      else if ltb (off - 0x100) 16
      then place (min len (16 - (off - 0x100))) dst (λ k. config disk.sectors (off - 0x100 + k))
          cleared
      else cleared

  unfoldable pub write_mmio : ℕ → ℕ → ℕ → ℕ → Memory → M (Blk × Host F) (Unit {0})
  write_mmio mmio_base addr src len m s =
      let off = window_offset mmio_base addr in
      if leb 0x100 off || len != 4 then return tt s else write_reg off (read_u32 src m) s
