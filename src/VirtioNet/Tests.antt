-- ===== src/VirtioNet/Tests.antt =====
-- The network device at concrete states, and the theorems applied there.
use node_vmm.Prelude.{
  ℕ, ◌+◌, ◌≡◌, refl, arith, true, ◌==◌, if◌then◌else◌, inl, inr, [], ◌∷◌, List, ◌++◌,
}
use node_vmm.Bytes.{Memory, u8, read_u16, read_u32, read_u64}
use node_vmm.Bits.{bit_at}
use node_vmm.VirtioRng.State.{ptr_or_null}
use node_vmm.VirtioNet.State.{Queue, Net, initial, is_usable, load_u16, net_hdr_len, update_status}
use node_vmm.VirtioNet.Receive.{frame, deliver_now}
use node_vmm.VirtioNet.Registers.{write_mmio}
use node_vmm.VirtioNet.Window.{AnswersInside, write_mmio-AnswersInside}
use node_vmm.VirtioNet.Delivery.{header_of, IsDelivered, Offers, deliver_now-Offers}
use node_vmm.VirtioNet.Negotiation.{bit_at-update_status}

-- A queue of four descriptors, of which the driver has offered the first.
abbrev queue : Queue
queue = record {
  ready = true;
  num = 4;
  desc_addr = 0x200;
  driver_addr = 0x100;
  device_addr = 0x300;
  last_avail_idx = 0;
  last_used_idx = 0;
}

abbrev net : Net
unfolding initial
net = record initial { queues = λ i. queue }

-- The index of the driver is 1. Its descriptor is a buffer of `len` bytes at 0x400.
abbrev ram : ℕ → ℕ → Memory
ram len flags = λ a.
    if a == 0x102
    then 1
    else if a == 0x201
    then 4
    else if a == 0x208
    then u8 len
    else if a == 0x20c
    then u8 flags
    else 0

-- A buffer of 13 bytes takes the header and the first byte of the packet.
ram-Offers : Offers 0x1000 (header_of net ++ 7 ∷ 8 ∷ []) net (ram 13 2)
unfolding initial frame net_hdr_len is_usable load_u16 ptr_or_null read_u16 read_u32 read_u64
ram-Offers = record {
  ring = (refl, omega arith, omega arith, inl (omega arith));
  ring_inside = omega arith;
  available = ground arith;
  head_lt = omega arith;
  table_inside = omega arith;
  size_lt = omega arith;
  writable = refl;
  alone = refl;
  buffer_inside = omega arith;
  buffer_apart = inr (omega arith);
}

deliver_now-Offers_example :
    IsDelivered 0x1000
      (header_of net ++ 7 ∷ 8 ∷ [])
      net
      (ram 13 2)
      (deliver_now 0x1000 (7 ∷ 8 ∷ []) net (ram 13 2))
deliver_now-Offers_example =
    deliver_now-Offers 0x1000 (7 ∷ 8 ∷ []) net (ram 13 2) (omega arith) ram-Offers

-- A stack that counts the frames that it takes, and one that echoes each.
abbrev counting : List ℕ → ℕ → ℕ × List (List ℕ)
counting packet n = (n + 1, [])

abbrev echoing : List ℕ → ℕ → ℕ × List (List ℕ)
echoing packet n = (n + 1, packet ∷ [])

write_mmio-AnswersInside_example :
    AnswersInside 0x1000
      (ram 64 0)
      (write_mmio echoing true 0x1000 0xd0000000 2 0xd0000050 0 4 (ram 0 0) net (ram 64 0) 0)
write_mmio-AnswersInside_example =
    write_mmio-AnswersInside echoing 0x1000 true 0xd0000000 2 0xd0000050 0 4 (ram 0 0) net
      (ram 64 0) 0

bit_at-update_status_example :
    bit_at (update_status 0x0b (record net { driver_features = 1 })).status 3 ≡ 0
unfolding initial
bit_at-update_status_example =
    bit_at-update_status 0x0b 3 (record net { driver_features = 1 }) (ground arith) refl
      (omega arith)
