-- ===== src/VirtioRng/Registers.antt =====
-- The register file behind the memory window.
use node_vmm.Prelude.{
  ℕ, ◌+◌, ◌-◌, ◌*◌, ◌/◌, ◌^◌, bit_and, bit_or, Bool, ◌&&◌, ◌||◌, leb, ◌==◌, ◌!=◌, if◌then◌else◌,
  Result, ok,
}
use node_vmm.Bits.Fields.{bit_not}
use node_vmm.Bytes.{u32, Memory, read_u32, write_u32}
use node_vmm.Hpet.Registers.{clear_bytes}
use node_vmm.VirtioRng.State.{
  Rng, World, Generator, magic, vendor, version, feature_version_1, initial_queue,
}
use node_vmm.VirtioRng.Queue.{handle_queue}

unfoldable pub read_reg : Rng → ℕ → ℕ
read_reg rng off =
    if off == 0x000
    then magic
    else if off == 0x004
    then version
    else if off == 0x008
    then 4
    else if off == 0x00c
    then vendor
    else if off == 0x010
    then if rng.dev_features_sel == 1 then feature_version_1 / 2 ^ 32 else 0
    else if off == 0x034
    then 64
    else if off == 0x044
    then if rng.queue.ready then 1 else 0
    else if off == 0x060
    then rng.interrupt_status
    else if off == 0x070
    then rng.status
    else 0

-- The number of raised interrupts is no state of the device.
unfoldable pub reset : Rng → Rng
unfolding initial_queue
reset rng = record {
  queue = initial_queue;
  status = 0;
  drv_features = 0;
  dev_features_sel = 0;
  drv_features_sel = 0;
  queue_sel = 0;
  interrupt_status = 0;
  raised = rng.raised;
}

-- The two halves of a 64-bit register.
abbrev pub set_low : ℕ → ℕ → ℕ
set_low old value = bit_or (bit_and old 0xffffffff00000000) value

abbrev pub set_high : ℕ → ℕ → ℕ
set_high old value = bit_or (bit_and old 0xffffffff) (value * 2 ^ 32)

-- The registers of the features, the status and the interrupts.
unfoldable pub write_control : ℕ → ℕ → Rng → Rng
unfolding reset
write_control off value rng =
    if off == 0x014
    then record rng { dev_features_sel = value }
    else if off == 0x024
    then record rng { drv_features_sel = value }
    else if off == 0x020
    then record rng {
      drv_features =
          if rng.drv_features_sel == 0
          then set_low rng.drv_features value
          else set_high rng.drv_features value;
    }
    else if off == 0x064
    then record rng { interrupt_status = bit_and rng.interrupt_status (bit_not 32 value) }
    else if off == 0x070
    then if value == 0 then reset rng else record rng { status = value }
    else rng

-- The registers of the queue, but for the notification.
unfoldable pub write_queue : ℕ → ℕ → Rng → Rng
write_queue off value rng =
    let queue = rng.queue in
    if off == 0x030
    then record rng { queue_sel = value }
    else if off == 0x038
    then if rng.queue_sel == 0 && (leb 1 value && leb value 64)
      then record rng { queue = record queue { size = value } }
      else rng
    else if off == 0x044
    then if rng.queue_sel == 0
      then record rng { queue = record queue { ready = value != 0 } }
      else rng
    else if off == 0x080
    then record rng { queue = record queue { desc_addr = set_low queue.desc_addr value } }
    else if off == 0x084
    then record rng { queue = record queue { desc_addr = set_high queue.desc_addr value } }
    else if off == 0x090
    then record rng { queue = record queue { driver_addr = set_low queue.driver_addr value } }
    else if off == 0x094
    then record rng { queue = record queue { driver_addr = set_high queue.driver_addr value } }
    else if off == 0x0a0
    then record rng { queue = record queue { device_addr = set_low queue.device_addr value } }
    else if off == 0x0a4
    then record rng { queue = record queue { device_addr = set_high queue.device_addr value } }
    else rng

-- The cases of the switch stand in two groups, that of the queue with the offsets of its own.
abbrev pub is_queue_reg : ℕ → Bool
is_queue_reg off = off == 0x030 || (off == 0x038 || (off == 0x044 || leb 0x080 off))

unfoldable pub write_reg : Generator → ℕ → ℕ → ℕ → Rng → World → Result (Rng × World)
write_reg gen mem_size off value rng w =
    if off == 0x050
    then if value == 0 then handle_queue gen mem_size rng w else ok (rng, w)
    else if is_queue_reg off
    then ok (write_queue off value rng, w)
    else ok (write_control off value rng, w)

-- The access is `len` bytes of host memory at `dst` or `src`.
unfoldable pub read_mmio : ℕ → Rng → ℕ → ℕ → ℕ → Memory → Memory
read_mmio mmio_base rng addr dst len m =
    let cleared = clear_bytes dst len m in
    if len != 4
    then cleared
    else write_u32 dst (read_reg rng (u32 (addr + 2 ^ 64 - mmio_base))) cleared

unfoldable pub write_mmio :
    Generator → ℕ → ℕ → ℕ → ℕ → ℕ → Memory → Rng → World → Result (Rng × World)
write_mmio gen mem_size mmio_base addr src len m rng w =
    if len != 4
    then ok (rng, w)
    else write_reg gen mem_size (u32 (addr + 2 ^ 64 - mmio_base)) (read_u32 src m) rng w
