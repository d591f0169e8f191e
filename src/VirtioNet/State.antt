-- ===== src/VirtioNet/State.antt =====
-- The state of the network device, its registers of status, and guest memory behind its queues.
use node_vmm.Prelude.{
  ℕ, suc, ◌+◌, ◌*◌, ◌%◌, ◌^◌, bit_and, bit_or, Bool, true, false, not, ◌&&◌, ◌||◌, leb, ◌==◌, ◌!=◌,
  if◌then◌else◌, none, some, List, [],
}
use node_vmm.Bits.Fields.{bit_not}
use node_vmm.Bytes.{u16, u64, Memory, read_u16, write_u16, write_u32}
use node_vmm.VirtioRng.State.{
  ptr_or_null, feature_version_1, interrupt_vring, ring_avail_no_interrupt,
}

pub record Queue : Type 0 where
  pub ready : Bool
  pub num : ℕ
  pub desc_addr : ℕ
  pub driver_addr : ℕ
  pub device_addr : ℕ
  pub last_avail_idx : ℕ
  pub last_used_idx : ℕ

-- Queue 0 receives and queue 1 transmits. A packet is a list of bytes. `raised` counts the calls of
-- `ioapic_.request_irq`.
pub record Net : Type 0 where
  pub device_features_sel : ℕ
  pub driver_features_sel : ℕ
  pub driver_features : ℕ
  pub status : ℕ
  pub interrupt_status : ℕ
  pub queue_sel : ℕ
  pub config_generation : ℕ
  pub link_up : Bool
  pub driver_ok_announced : Bool
  pub rx_flush_active : Bool
  pub queues : ℕ → Queue
  pub rx_backlog : List (List ℕ)
  pub raised : ℕ

abbrev pub queue_size : ℕ
queue_size = 256

unfoldable pub initial_queue : Queue
initial_queue = record {
  ready = false;
  num = queue_size;
  desc_addr = 0;
  driver_addr = 0;
  device_addr = 0;
  last_avail_idx = 0;
  last_used_idx = 0;
}

unfoldable pub initial : Net
unfolding initial_queue
initial = record {
  device_features_sel = 0;
  driver_features_sel = 0;
  driver_features = 0;
  status = 0;
  interrupt_status = 0;
  queue_sel = 0;
  config_generation = 0;
  link_up = true;
  driver_ok_announced = false;
  rx_flush_active = false;
  queues = λ i. initial_queue;
  rx_backlog = [];
  raised = 0;
}

abbrev pub set_queue : ℕ → Queue → Net → Net
set_queue i q net = record net { queues = λ j. if j == i then q else net.queues j }

-- VIRTIO_NET_F_MAC, VIRTIO_NET_F_STATUS and VIRTIO_F_VERSION_1.
abbrev pub features : ℕ
features = bit_or (bit_or (2 ^ 5) (2 ^ 16)) feature_version_1

abbrev pub mrg_rxbuf : ℕ
mrg_rxbuf = 2 ^ 15

unfoldable pub net_hdr_len : Net → ℕ
net_hdr_len net = if bit_and net.driver_features mrg_rxbuf != 0 then 14 else 12

abbrev pub driver_ok : ℕ
driver_ok = 4

abbrev pub features_ok : ℕ
features_ok = 8

abbrev pub failed : ℕ
failed = 128

abbrev pub announce : ℕ → ℕ → Bool → Bool
announce prev new_status announced =
    bit_and new_status driver_ok != 0 && (not (bit_and prev driver_ok != 0) && not announced)
    || announced

unfoldable pub update_status : ℕ → Net → Net
unfolding initial_queue
update_status new_status net =
    if new_status == 0
    then record net {
      status = 0;
      queues = λ i. initial_queue;
      interrupt_status = 0;
      driver_ok_announced = false;
    }
    else if bit_and new_status failed != 0
    then record net { status = new_status; queues = λ i. record (net.queues i) { ready = false } }
    else record net {
      status =
          if bit_and new_status features_ok != 0
            && (not (bit_and net.status features_ok != 0)
                && bit_and net.driver_features (bit_not 64 features) != 0)
          then bit_and new_status (bit_not 32 features_ok)
          else new_status;
      driver_ok_announced = announce net.status new_status net.driver_ok_announced;
    }

-- The accesses to guest memory; out of range a load answers 0 and a store does nothing.
unfoldable pub load_u16 : ℕ → ℕ → Memory → ℕ
load_u16 mem_size gpa m = elim (ptr_or_null mem_size gpa 2) [ none ↦ 0 | some p ↦ read_u16 p m ]

unfoldable pub store_u16 : ℕ → ℕ → ℕ → Memory → Memory
store_u16 mem_size gpa value m = elim (ptr_or_null mem_size gpa 2) [
  | none ↦ m
  | some p ↦ write_u16 p value m
]

unfoldable pub store_u32 : ℕ → ℕ → ℕ → Memory → Memory
store_u32 mem_size gpa value m = elim (ptr_or_null mem_size gpa 4) [
  | none ↦ m
  | some p ↦ write_u32 p value m
]

unfoldable pub is_usable : Queue → Bool
is_usable q =
    q.ready && (q.num != 0 && (q.driver_addr != 0 && (q.desc_addr != 0 && q.device_addr != 0)))

abbrev pub avail_index : ℕ → Queue → Memory → ℕ
avail_index mem_size q m = load_u16 mem_size (u64 (q.driver_addr + 2)) m

-- The head of the next chain.
abbrev pub next_head : ℕ → Queue → Memory → ℕ
next_head mem_size q m =
    load_u16 mem_size (u64 (q.driver_addr + 4 + q.last_avail_idx % q.num * 2)) m

abbrev pub taken : Queue → Queue
taken q = record q { last_avail_idx = u16 (q.last_avail_idx + 1) }

abbrev pub used_elem : Queue → ℕ
used_elem q = u64 (q.device_addr + 4 + q.last_used_idx % q.num * 8)

-- The test before a chain is given back.
abbrev pub can_complete : Queue → Bool
can_complete q = q.ready && (q.num != 0 && q.device_addr != 0)

-- The used element of a chain, and the index behind it.
unfoldable pub complete : ℕ → ℕ → ℕ → Queue → Memory → Queue × Memory
complete mem_size id len q m =
    let used : ℕ = u16 (q.last_used_idx + 1) in
    (
      record q { last_used_idx = used },
      store_u16 mem_size (u64 (q.device_addr + 2)) used
          (store_u32 mem_size (u64 (used_elem q + 4)) len (store_u32 mem_size (used_elem q) id m)),
    )

unfoldable pub raise_used_buffer_irq : ℕ → ℕ → Memory → Net → Net
raise_used_buffer_irq mem_size i m net =
    if leb 2 i || (not (net.queues i).ready || (net.queues i).driver_addr == 0)
    then net
    else if bit_and (load_u16 mem_size (net.queues i).driver_addr m) ring_avail_no_interrupt != 0
    then net
    else record net {
      interrupt_status = bit_or net.interrupt_status interrupt_vring;
      raised = suc net.raised;
    }

unfoldable pub raise_config_change_irq : Net → Net
raise_config_change_irq net = record net {
  interrupt_status = bit_or net.interrupt_status 2;
  raised = suc net.raised;
}
