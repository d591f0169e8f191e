-- ===== src/VirtioNet/Delivery.antt =====
-- A packet that is copied into one buffer of the guest.
use mathlib.Core.Path.{subst}
use node_vmm.Prelude.{
  ℕ, zero, suc, Bool, Bool-cases, inl, inr, ◌!=◌, [], ◌++◌, if◌then◌else◌, ◌+◌, ◌*◌, ◌^◌, ◌≤◌, ◌<◌,
  min, ◌≡◌, ◌≢◌, refl, ap, ◌∙◌, arith, bit_and, true, false, ltb, leb, ◌==◌, List, ◌∷◌, ◌⊎◌, length,
  length-take, take,
}
use node_vmm.Bytes.{u8, u16, u32, u64, Memory}
use node_vmm.Boot.Params.{copy_bytes}
use node_vmm.VirtioRng.State.{Desc, ring_desc_next, ring_desc_write}
use node_vmm.VirtioRng.Queue.{read_desc}
use node_vmm.VirtioRng.Ring.{ptr_or_null_inside}
use node_vmm.VirtioNet.State.{
  Queue, Net, complete, can_complete, is_usable, avail_index, next_head, taken, used_elem,
  net_hdr_len, set_queue, raise_used_buffer_irq,
}
use node_vmm.VirtioNet.Receive.{frame, scatter, finish, deliver_now}
use node_vmm.VirtioNet.Progress.{IsRing, complete_elsewhere}
use node_vmm.VirtioNet.Stores.{Holds, complete-Holds}
use node_vmm.Boot.Copies.{byte_at, byte_at-take, copy_bytes-Stands}

-- The descriptor at the head of the next chain, and how much of a packet its buffer takes.
abbrev pub head_desc : ℕ → Net → Memory → Desc
head_desc mem_size net m =
    read_desc ((net.queues 0).desc_addr + next_head mem_size (net.queues 0) m * 16) m

abbrev pub capacity : ℕ → List ℕ → Net → Memory → ℕ
capacity mem_size framed net m = min (head_desc mem_size net m).len (length framed)

-- The driver offers one buffer, in guest memory and beside the rings.
pub record Offers (mem_size : ℕ) (framed : List ℕ) (net : Net) (m : Memory) : Type 0 where
  pub ring : IsRing (net.queues 0)
  pub ring_inside : (net.queues 0).device_addr + 4 + (net.queues 0).num * 8 ≤ mem_size
  pub available : (net.queues 0).last_avail_idx ≢ avail_index mem_size (net.queues 0) m
  pub head_lt : next_head mem_size (net.queues 0) m < (net.queues 0).num
  pub table_inside : (net.queues 0).desc_addr + (net.queues 0).num * 16 ≤ mem_size
  pub size_lt : mem_size < 2 ^ 64
  pub writable : (bit_and (head_desc mem_size net m).flags ring_desc_write == 0) ≡ false
  pub alone : (bit_and (head_desc mem_size net m).flags ring_desc_next == 0) ≡ true
  pub buffer_inside : (head_desc mem_size net m).addr + capacity mem_size framed net m ≤ mem_size
  pub buffer_apart :
      ((head_desc mem_size net m).addr + capacity mem_size framed net m
        ≤ (net.queues 0).device_addr)
      ⊎ ((net.queues 0).device_addr + 4 + (net.queues 0).num * 8 ≤ (head_desc mem_size net m).addr)

scatter_single :
    (mem_size num desc_addr hops head b : ℕ) (bytes : List ℕ) (m : Memory)
    → 0 < hops
    → head < num
    → desc_addr + num * 16 ≤ mem_size
    → mem_size < 2 ^ 64
    → let desc = read_desc (desc_addr + head * 16) m in
      (bit_and desc.flags ring_desc_write == 0) ≡ false
      → (bit_and desc.flags ring_desc_next == 0) ≡ true
      → desc.addr + min desc.len (length (b ∷ bytes)) ≤ mem_size
      → scatter mem_size num desc_addr hops head (b ∷ bytes) m
        ≡ (true, copy_bytes desc.addr (take (min desc.len (length (b ∷ bytes))) (b ∷ bytes)) m)
unfolding scatter
scatter_single mem_size num desc_addr zero head b bytes m h l table size writable alone inside =
    absurd (omega arith)
scatter_single mem_size num desc_addr (suc hops) head b bytes m h l table size writable alone
      inside =
    let desc : Desc = read_desc (desc_addr + head * 16) m in
    let below : leb num head ≡ false = ground arith in
    let at : u64 (desc_addr + head * 16) ≡ desc_addr + head * 16 = omega arith in
    rw
      (
        scatter,
        below,
        at,
        ptr_or_null_inside mem_size (desc_addr + head * 16) 16 (omega arith),
        writable,
        ptr_or_null_inside mem_size desc.addr (min desc.len (length (b ∷ bytes))) inside,
        alone,
      )
      refl

num_pos : (q : Queue) → IsRing q → 0 < q.num
unfolding is_usable
num_pos q ring = ground (arith, ring.0)

can_complete_ring : (q : Queue) → IsRing q → can_complete q ≡ true
unfolding is_usable
can_complete_ring q ring = ground (arith, ring.0)

scatter-Offers :
    (mem_size : ℕ) (packet : List ℕ) (net : Net) (m : Memory)
    → let q = net.queues 0 in
      let framed = frame (net_hdr_len net) packet in
      Offers mem_size framed net m
      → scatter mem_size q.num q.desc_addr q.num (next_head mem_size q m) framed m ≡ (
        true,
        copy_bytes (head_desc mem_size net m).addr (take (capacity mem_size framed net m) framed) m,
      )
unfolding frame
scatter-Offers mem_size packet net m o =
    let q : Queue = net.queues 0 in
    scatter_single mem_size q.num q.desc_addr q.num (next_head mem_size q m) _ _ m
      (num_pos q o.ring) o.head_lt o.table_inside o.size_lt o.writable o.alone o.buffer_inside

deliver_now_framed :
    (mem_size : ℕ) (packet : List ℕ) (net : Net) (m : Memory)
    → length packet ≤ 1518
    → Offers mem_size (frame (net_hdr_len net) packet) net m
    → let q = net.queues 0 in
      let framed = frame (net_hdr_len net) packet in
      let (done, net', m') = deliver_now mem_size packet net m in
      (done ≡ true)
      × ((k : ℕ)
          → k < capacity mem_size framed net m
          → m' ((head_desc mem_size net m).addr + k) ≡ u8 (byte_at framed k))
      × Holds 4 (used_elem q) (next_head mem_size q m) m'
      × Holds 4 (used_elem q + 4) (u32 (length framed)) m'
      × Holds 2 (q.device_addr + 2) (u16 (q.last_used_idx + 1)) m'
unfolding deliver_now finish is_usable
deliver_now_framed mem_size packet net m short o =
    let q : Queue = net.queues 0 in
    let head : ℕ = next_head mem_size q m in
    let framed : List ℕ = frame (net_hdr_len net) packet in
    let desc : Desc = head_desc mem_size net m in
    let filled : Memory = copy_bytes desc.addr (take (capacity mem_size framed net m) framed) m in
    let len : ℕ = u32 (length framed) in
    let e : deliver_now mem_size packet net m ≡ (
      true,
      raise_used_buffer_irq mem_size 0 (complete mem_size head len (taken q) filled).1
          (set_queue 0 (complete mem_size head len (taken q) filled).0 net),
      (complete mem_size head len (taken q) filled).1,
    ) =
      (let whole : ltb (1500 + 14 + 4) (length packet) ≡ false = ground arith in
        let more : (q.last_avail_idx == avail_index mem_size q m) ≡ false =
          ground (arith, o.available) in
        let below : leb q.num head ≡ false = ground (arith, o.head_lt) in
        let able : can_complete (taken q) ≡ true = can_complete_ring (taken q) o.ring in
        rw (deliver_now, whole, o.ring.0, more, below, scatter-Offers mem_size packet net m o, able)
          refl) in
    let stored = complete-Holds mem_size head len (taken q) filled o.ring o.ring_inside in
    rw e (
      refl,
      λ k l.
          complete_elsewhere mem_size head len (desc.addr + k) (taken q) filled o.ring
            (omega (arith, o.buffer_apart))
          ∙ (copy_bytes-Stands desc.addr (take (capacity mem_size framed net m) framed) m k
                (omega (arith, length-take (capacity mem_size framed net m) framed))
              ∙ ap u8 (byte_at-take (capacity mem_size framed net m) k framed l)),
      stored.0,
      stored.1,
      stored.2,
    )

-- The header of virtio: flags, offload type, four lengths and offsets of two bytes, all 0, and the
-- number of buffers, of 1, where the driver took VIRTIO_NET_F_MRG_RXBUF (bit 15).
abbrev pub header_of : Net → List ℕ
header_of net =
    if bit_and net.driver_features 0x8000 != 0
    then 0 ∷ 0 ∷ 0 ∷ 0 ∷ 0 ∷ 0 ∷ 0 ∷ 0 ∷ 0 ∷ 0 ∷ 0 ∷ 0 ∷ 1 ∷ 0 ∷ []
    else 0 ∷ 0 ∷ 0 ∷ 0 ∷ 0 ∷ 0 ∷ 0 ∷ 0 ∷ 0 ∷ 0 ∷ 0 ∷ 0 ∷ []

frame_header :
    (packet : List ℕ) (net : Net) → frame (net_hdr_len net) packet ≡ header_of net ++ packet
unfolding frame net_hdr_len
frame_header packet net = elim (Bool-cases (bit_and net.driver_features 0x8000 != 0)) [
  | inl e ↦ rw e refl
  | inr e ↦ rw e refl
]

-- The buffer, the used element and the used index, after a packet was copied as `framed`.
abbrev pub IsDelivered : ℕ → List ℕ → Net → Memory → Bool × Net × Memory → Type 0
IsDelivered mem_size framed net m (done, net', m') =
    (done ≡ true)
    × ((k : ℕ)
        → k < capacity mem_size framed net m
        → m' ((head_desc mem_size net m).addr + k) ≡ u8 (byte_at framed k))
    × Holds 4 (used_elem (net.queues 0)) (next_head mem_size (net.queues 0) m) m'
    × Holds 4 (used_elem (net.queues 0) + 4) (u32 (length framed)) m'
    × Holds 2 ((net.queues 0).device_addr + 2) (u16 ((net.queues 0).last_used_idx + 1)) m'

-- The first of the buffers that the driver offers is filled with the header and the packet, as far
-- as it is long. Its used element, which the used index then includes, names it, with the length of
-- header and packet, also where the buffer was shorter.
pub deliver_now-Offers :
    (mem_size : ℕ) (packet : List ℕ) (net : Net) (m : Memory)
    → length packet ≤ 1518
    → Offers mem_size (header_of net ++ packet) net m
    → IsDelivered mem_size (header_of net ++ packet) net m (deliver_now mem_size packet net m)
deliver_now-Offers mem_size packet net m short =
    subst
      (λ framed.
        Offers mem_size framed net m
        → IsDelivered mem_size framed net m (deliver_now mem_size packet net m))
      (frame_header packet net) (deliver_now_framed mem_size packet net m short)
