-- ===== src/VirtioNet/Registers.antt =====
-- The registers behind the memory window of the device.
use node_vmm.Prelude.{
  ℕ, zero, suc, ◌+◌, ◌-◌, ◌*◌, ◌/◌, ◌^◌, min, bit_and, Bool, true, ◌&&◌, ◌||◌, ltb, leb, ◌==◌, ◌!=◌,
  if◌then◌else◌, List, [], ◌∷◌, ◌++◌, drop,
}
use node_vmm.Bits.Fields.{bit_not}
use node_vmm.Bytes.{u8, u32, Memory, read_u32}
use node_vmm.Hpet.Registers.{clear_bytes}
use node_vmm.Boot.Table.{bytes_of_u16}
use node_vmm.VirtioRng.State.{magic}
use node_vmm.VirtioRng.Registers.{set_low, set_high}
use node_vmm.VirtioNet.State.{Queue, Net, queue_size, features, set_queue, update_status}
use node_vmm.VirtioNet.Receive.{flush_rx_backlog}
use node_vmm.VirtioNet.Transmit.{process_tx_queue}

-- `VirtioNetConfig` as bytes: the address, the state of the link, one pair of queues, the size of a
-- packet.
unfoldable pub net_config : List ℕ → Net → List ℕ
net_config mac net =
    mac ++ (bytes_of_u16 (if net.link_up then 1 else 0) ++ (bytes_of_u16 1 ++ bytes_of_u16 1500))

-- The first four of the bytes, as a word; what is missing is 0.
abbrev pub word_of : ℕ → List ℕ → ℕ
word_of zero bytes = 0
word_of (suc n) [] = 0
word_of (suc n) (b ∷ bytes) = b + 2 ^ 8 * word_of n bytes

unfoldable pub read_reg : List ℕ → Net → ℕ → ℕ
unfolding net_config
read_reg mac net off =
    if off == 0x000
    then magic
    else if off == 0x004
    then 2
    else if off == 0x008
    then 1
    else if off == 0x00c
    then 0x554d4551
    else if off == 0x010
    then if net.device_features_sel == 1 then u32 (features / 2 ^ 32) else u32 features
    else if off == 0x034
    then queue_size
    else if off == 0x044
    then if ltb net.queue_sel 2 && (net.queues net.queue_sel).ready then 1 else 0
    else if off == 0x060
    then net.interrupt_status
    else if off == 0x070
    then net.status
    else if off == 0x0fc
    then net.config_generation
    else if off == 0x0b0 || (off == 0x0b4 || (off == 0x0b8 || off == 0x0bc))
    then 0xffffffff
    else if leb 0x100 off && ltb off (0x100 + 12)
    then word_of 4 (drop (off - 0x100) (net_config mac net))
    else 0

-- The registers of the features, the selection, the interrupts and the status.
unfoldable pub write_control : ℕ → ℕ → Net → Net
unfolding update_status
write_control off value net =
    if off == 0x014
    then record net { device_features_sel = value }
    else if off == 0x020
    then record net {
      driver_features =
          if net.driver_features_sel == 0
          then set_low net.driver_features value
          else set_high net.driver_features value;
    }
    else if off == 0x024
    then record net { driver_features_sel = value }
    else if off == 0x030
    then record net { queue_sel = value }
    else if off == 0x064
    then record net { interrupt_status = bit_and net.interrupt_status (bit_not 32 value) }
    else if off == 0x070
    then update_status value net
    else net

-- The registers of the queue that is selected.
unfoldable pub write_queue : ℕ → ℕ → Queue → Queue
write_queue off value q =
    if off == 0x038
    then record q { num = if value == 0 then 0 else min value queue_size }
    else if off == 0x044
    then record q { ready = value != 0 }
    else if off == 0x080
    then record q { desc_addr = set_low q.desc_addr value }
    else if off == 0x084
    then record q { desc_addr = set_high q.desc_addr value }
    else if off == 0x090
    then record q { driver_addr = set_low q.driver_addr value }
    else if off == 0x094
    then record q { driver_addr = set_high q.driver_addr value }
    else if off == 0x0a0
    then record q { device_addr = set_low q.device_addr value }
    else if off == 0x0a4
    then record q { device_addr = set_high q.device_addr value }
    else q

abbrev pub is_queue_reg : ℕ → Bool
is_queue_reg off =
    off == 0x038
    || (off == 0x044
        || (off == 0x080
            || (off == 0x084
                || (off == 0x090 || (off == 0x094 || (off == 0x0a0 || off == 0x0a4))))))

-- Whether the access has ended, the device, guest memory and the state of the stack. `fuel` is for
-- the loop of `process_tx_queue`.
abbrev pub Wire : Type 0 → Type 0
Wire S = Bool × Net × Memory × S

abbrev pub window_offset : ℕ → ℕ → ℕ
window_offset mmio_base addr = u32 (addr + 2 ^ 64 - mmio_base)

-- The access is `len` bytes of host memory at `dst` or `src`. A load answers the low bytes of the
-- register.
unfoldable pub store_low_bytes : ℕ → ℕ → ℕ → Memory → Memory
store_low_bytes zero dst value m = m
store_low_bytes (suc n) dst value m =
    store_low_bytes n (dst + 1) (value / 2 ^ 8) (λ a. if a == dst then u8 value else m a)

unfoldable pub read_mmio : List ℕ → ℕ → Net → ℕ → ℕ → ℕ → Memory → Memory
unfolding read_reg store_low_bytes
read_mmio mac mmio_base net addr dst len m =
    if len == 1 || (len == 2 || len == 4)
    then store_low_bytes len dst (read_reg mac net (window_offset mmio_base addr)) m
    else clear_bytes dst len m

module _ {S : Type 0} (input : List ℕ → S → S × List (List ℕ)) (attached : Bool)
    (mem_size : ℕ) where
  unfoldable pub write_reg : ℕ → ℕ → ℕ → Net → Memory → S → Wire S
  unfolding write_control write_queue process_tx_queue flush_rx_backlog
  write_reg fuel off value net m stack =
      if off == 0x050
      then if value == 1
        then process_tx_queue input mem_size attached fuel net m stack
        else if value == 0
        then (true, (flush_rx_backlog mem_size net m).0, (flush_rx_backlog mem_size net m).1, stack)
        else (true, net, m, stack)
      else if is_queue_reg off
      then (
        true,
        (if ltb net.queue_sel 2
            then set_queue net.queue_sel (write_queue off value (net.queues net.queue_sel)) net
            else net),
        m,
        stack,
      )
      else (true, write_control off value net, m, stack)

  unfoldable pub write_mmio : ℕ → ℕ → ℕ → ℕ → ℕ → Memory → Net → Memory → S → Wire S
  unfolding write_reg
  write_mmio mmio_base fuel addr src len host net m stack =
      if len != 4
      then (true, net, m, stack)
      else write_reg fuel (window_offset mmio_base addr) (read_u32 src host) net m stack
