-- ===== src/VirtioNet/Transmit.antt =====
-- Packets from the guest: `process_tx_queue`. The stack of the host, libslirp, is a parameter: given
-- a frame and its state it has a new state, and frames that it sends through the callback while it
-- takes that one.
use node_vmm.Prelude.{
  ℕ, zero, suc, ◌+◌, ◌*◌, bit_and, Bool, true, false, not, ◌||◌, ltb, leb, ◌==◌, ◌!=◌,
  if◌then◌else◌, Option, none, some, ◌-◌, List, [], ◌∷◌, ◌++◌, length, drop,
}
use node_vmm.Bytes.{u64, Memory}
use node_vmm.VirtioRng.State.{Desc, ptr_or_null, ring_desc_next, ring_desc_write}
use node_vmm.VirtioRng.Queue.{read_desc}
use node_vmm.VirtioNet.Receive.{zeros, deliver_rx_packet}
use node_vmm.VirtioNet.State.{
  Queue, Net, net_hdr_len, set_queue, is_usable, avail_index, next_head, taken, can_complete,
  complete, raise_used_buffer_irq,
}

-- The `n` bytes at `p`.
pub bytes_at : ℕ → ℕ → Memory → List ℕ
bytes_at zero p m = []
bytes_at (suc n) p m = m p ∷ bytes_at n (p + 1) m

-- What a descriptor adds to the packet.
abbrev pub segment_of : ℕ → Desc → Memory → List ℕ
segment_of mem_size desc m =
    if bit_and desc.flags ring_desc_write != 0
    then []
    else elim (ptr_or_null mem_size desc.addr desc.len) [
      | none ↦ []
      | some segment ↦ bytes_at desc.len segment m
    ]

-- The loop over the chain, with `hops` rounds to go.
unfoldable pub gather : ℕ → ℕ → ℕ → ℕ → ℕ → List ℕ → Memory → List ℕ
unfolding bytes_at
gather mem_size num desc_addr zero current packet m = packet
gather mem_size num desc_addr (suc hops) current packet m = elim (leb num current) [
  | true ↦ packet
  | false ↦ elim (ptr_or_null mem_size (u64 (desc_addr + current * 16)) 16) [
    | none ↦ packet
    | some p ↦
        let desc : Desc = read_desc p m in
        let packet' : List ℕ = packet ++ segment_of mem_size desc m in
        elim (bit_and desc.flags ring_desc_next == 0 || leb num desc.next) [
          | true ↦ packet'
          | false ↦ gather mem_size num desc_addr hops desc.next packet' m
        ]
  ]
]

-- A frame of the stack for the guest, with zeros behind it up to 60 bytes.
unfoldable pub pad_short_frame : List ℕ → List ℕ
pad_short_frame packet =
    if ltb (length packet) 60 then packet ++ zeros (60 - length packet) else packet

abbrev pub on_send_packet : ℕ → List ℕ → Net → Memory → Net × Memory
on_send_packet mem_size packet net m = deliver_rx_packet mem_size (pad_short_frame packet) net m

-- The frames that the stack sends during a call, one after the other.
unfoldable pub answer : ℕ → List (List ℕ) → Net → Memory → Net × Memory
unfolding deliver_rx_packet pad_short_frame
answer mem_size [] net m = (net, m)
answer mem_size (packet ∷ packets) net m =
    let (net', m') = on_send_packet mem_size packet net m in answer mem_size packets net' m'

-- The device, guest memory, and the state of the stack.
pub record Port (S : Type 0) : Type 0 where
  pub net : Net
  pub memory : Memory
  pub stack : S

module _ {S : Type 0} (input : List ℕ → S → S × List (List ℕ)) (mem_size : ℕ) where
  -- The stack takes the frame without its header, where there is one.
  unfoldable pub send : List ℕ → Port S → Port S
  unfolding answer
  send packet port =
      let hdr_len : ℕ = net_hdr_len port.net in
      let (stack', packets) = input (drop hdr_len packet) port.stack in
      let (net', m') = answer mem_size packets port.net port.memory in
      if ltb hdr_len (length packet)
      then record { net = net'; memory = m'; stack = stack' }
      else port

  -- The used element of a chain.
  unfoldable pub give_back : ℕ → Port S → Port S
  give_back head port =
      let q : Queue = port.net.queues 1 in
      let (q', m') = complete mem_size head 0 q port.memory in
      if can_complete q then record port { net = set_queue 1 q' port.net; memory = m' } else port

  -- A chain from its head to its used element: whether it counts as processed, and what it left.
  unfoldable pub transmit : ℕ → Bool → Port S → Bool × Port S
  unfolding gather send give_back
  transmit head processed port =
      let q : Queue = port.net.queues 1 in
      let packet : List ℕ = gather mem_size q.num q.desc_addr q.num head [] port.memory in
      let sent : Port S = send packet port in
      (can_complete (sent.net.queues 1) || processed, give_back head sent)

  -- A round of the loop that finds a chain.
  unfoldable pub tx_round : Bool → Port S → Bool × Port S
  unfolding transmit
  tx_round processed port =
      let q : Queue = port.net.queues 1 in
      let head : ℕ = next_head mem_size q port.memory in
      let port' : Port S = record port { net = set_queue 1 (taken q) port.net } in
      if leb q.num head then (processed, port') else transmit head processed port'

  -- The loop, at most `fuel` rounds of it: what the loop has processed where it has ended, `none`
  -- where more rounds are to come, and the state so far. It reads the index of the driver anew in
  -- each round. Where the queue cannot be used it returns at once, as if nothing had been processed.
  unfoldable pub tx_loop : ℕ → Bool → Port S → Option Bool × Port S
  unfolding tx_round
  tx_loop zero processed port = (none, port)
  tx_loop (suc fuel) processed port = elim (is_usable (port.net.queues 1)) [
    | false ↦ (some false, port)
    | true ↦
        elim ((port.net.queues 1).last_avail_idx
          == avail_index mem_size (port.net.queues 1) port.memory) [
            | true ↦ (some processed, port)
            | false ↦
                (let (processed', port') = tx_round processed port in tx_loop fuel processed' port')
          ]
  ]

  -- Whether the loop has ended, and the device, with the interrupt where it has processed a chain.
  unfoldable pub tx_finish : Option Bool × Port S → Bool × Net × Memory × S
  tx_finish (none, port) = (false, port.net, port.memory, port.stack)
  tx_finish (some processed, port) = (
    true,
    (if processed then raise_used_buffer_irq mem_size 1 port.memory port.net else port.net),
    port.memory,
    port.stack,
  )

  -- `attached` tells whether there is a stack.
  unfoldable pub process_tx_queue : Bool → ℕ → Net → Memory → S → Bool × Net × Memory × S
  unfolding tx_loop tx_finish
  process_tx_queue attached fuel net m stack =
      if not attached
      then (true, net, m, stack)
      else tx_finish (tx_loop fuel false (record { net = net; memory = m; stack = stack }))
