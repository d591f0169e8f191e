-- ===== src/VirtioNet/Receive.antt =====
-- Packets for the guest: `deliver_rx_packet_now`, the backlog and its flush.
use node_vmm.Prelude.{
  ℕ, zero, suc, ◌+◌, ◌*◌, min, bit_and, Bool, true, false, not, ltb, leb, ◌==◌, if◌then◌else◌, none,
  some, List, [], ◌∷◌, ◌++◌, length, take, drop,
}
use node_vmm.Bytes.{u32, u64, Memory}
use node_vmm.Boot.Params.{copy_bytes}
use node_vmm.VirtioRng.State.{Desc, ptr_or_null, ring_desc_next, ring_desc_write}
use node_vmm.VirtioRng.Queue.{read_desc}
use node_vmm.VirtioNet.State.{
  Queue, Net, net_hdr_len, set_queue, is_usable, avail_index, next_head, taken, can_complete,
  complete, raise_used_buffer_irq,
}

abbrev pub zeros : ℕ → List ℕ
zeros zero = []
zeros (suc n) = 0 ∷ zeros n

-- The header, of 12 or 14 bytes, and the packet. The longer one has the number of buffers at its
-- end.
unfoldable pub frame : ℕ → List ℕ → List ℕ
frame hdr_len packet = (zeros 12 ++ (if leb 14 hdr_len then 1 ∷ 0 ∷ [] else [])) ++ packet

-- The loop over the chain, with `hops` rounds to go and `rest` to be copied: whether it is `ok`.
unfoldable pub scatter : ℕ → ℕ → ℕ → ℕ → ℕ → List ℕ → Memory → Bool × Memory
scatter mem_size num desc_addr hops current [] m = (true, m)
scatter mem_size num desc_addr zero current (b ∷ bytes) m = (false, m)
scatter mem_size num desc_addr (suc hops) current (b ∷ bytes) m = elim (leb num current) [
  | true ↦ (false, m)
  | false ↦ elim (ptr_or_null mem_size (u64 (desc_addr + current * 16)) 16) [
    | none ↦ (false, m)
    | some p ↦
        let desc : Desc = read_desc p m in
        let size : ℕ = min desc.len (length (b ∷ bytes)) in
        elim (bit_and desc.flags ring_desc_write == 0) [
          | true ↦ (false, m)
          | false ↦ elim (ptr_or_null mem_size desc.addr size) [
            | none ↦ (false, m)
            | some segment ↦
                let m' : Memory = copy_bytes segment (take size (b ∷ bytes)) m in
                elim (bit_and desc.flags ring_desc_next == 0) [
                  | true ↦ (true, m')
                  | false ↦ elim (leb num desc.next) [
                    | true ↦ (false, m')
                    | false ↦
                        scatter mem_size num desc_addr hops desc.next (drop size (b ∷ bytes)) m'
                  ]
                ]
          ]
        ]
  ]
]

-- After the copy: the used element and the interrupt.
unfoldable pub finish : ℕ → ℕ → ℕ → Queue → Net → Memory → Net × Memory
finish mem_size head len q net m =
    let (q', m') = complete mem_size head len q m in
    if can_complete q
    then (raise_used_buffer_irq mem_size 0 m' (set_queue 0 q' net), m')
    else (set_queue 0 q net, m)

-- Whether the packet is done with, copied or dropped.
unfoldable pub deliver_now : ℕ → List ℕ → Net → Memory → Bool × Net × Memory
deliver_now mem_size packet net m =
    let q : Queue = net.queues 0 in
    let head : ℕ = next_head mem_size q m in
    let framed : List ℕ = frame (net_hdr_len net) packet in
    let copied : Bool × Memory = scatter mem_size q.num q.desc_addr q.num head framed m in
    if ltb (1500 + 14 + 4) (length packet)
    then (true, net, m)
    else if not (is_usable q)
    then (false, net, m)
    else if q.last_avail_idx == avail_index mem_size q m
    then (false, net, m)
    else if leb q.num head
    then (true, set_queue 0 (taken q) net, m)
    else if not copied.0
    then (true, set_queue 0 (taken q) net, copied.1)
    else (let (net', m') = finish mem_size head (u32 (length framed)) (taken q) net copied.1 in
        (true, net', m'))

-- The loop of `flush_rx_backlog` over the packets that wait.
unfoldable pub flush : ℕ → List (List ℕ) → Net → Memory → Net × Memory
flush mem_size [] net m = (record net { rx_backlog = []; rx_flush_active = false }, m)
flush mem_size (packet ∷ rest) net m =
    let (done, net', m') = deliver_now mem_size packet net m in
    elim done [
      | false ↦ (record net' { rx_backlog = packet ∷ rest; rx_flush_active = false }, m')
      | true ↦ flush mem_size rest net' m'
    ]

unfoldable pub flush_rx_backlog : ℕ → Net → Memory → Net × Memory
unfolding flush
flush_rx_backlog mem_size net m =
    if net.rx_flush_active
    then (net, m)
    else flush mem_size net.rx_backlog (record net { rx_flush_active = true }) m

abbrev pub rx_backlog_limit : ℕ
rx_backlog_limit = 256

abbrev pub enqueue : List ℕ → List (List ℕ) → List (List ℕ)
enqueue packet backlog =
    if ltb (length backlog) rx_backlog_limit then backlog ++ packet ∷ [] else backlog

-- The packet is put at the end of the backlog, and what waits is flushed.
abbrev pub put_off : ℕ → List ℕ → Net → Memory → Net × Memory
put_off mem_size packet net m =
    flush_rx_backlog mem_size (record net { rx_backlog = enqueue packet net.rx_backlog }) m

-- The two ways of `deliver_rx_packet`, by the backlog.
unfoldable pub deliver_behind : ℕ → List ℕ → List (List ℕ) → Net → Memory → Net × Memory
unfolding flush_rx_backlog
deliver_behind mem_size packet (waiting ∷ rest) net m = put_off mem_size packet net m
deliver_behind mem_size packet [] net m =
    let (done, net', m') = deliver_now mem_size packet net m in
    elim done [ true ↦ flush_rx_backlog mem_size net' m' | false ↦ put_off mem_size packet net' m' ]

unfoldable pub deliver_rx_packet : ℕ → List ℕ → Net → Memory → Net × Memory
unfolding deliver_behind
deliver_rx_packet mem_size packet net m = deliver_behind mem_size packet net.rx_backlog net m
