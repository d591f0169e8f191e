-- ===== src/VirtioRng/Queue.antt =====
-- Serving the queue: the chain of descriptors, the used ring, the loop over the available ring.
use node_vmm.Prelude.{
  ℕ, zero, suc, ◌+◌, ◌-◌, ◌*◌, ◌%◌, ◌^◌, bit_and, bit_or, Bool, true, false, not, ◌&&◌, ◌||◌, ltb,
  leb, ◌==◌, ◌!=◌, if◌then◌else◌, none, some, Result, ok, ◌>>=◌,
}
use node_vmm.Bytes.{u16, u32, u64, Memory, read_u16, read_u32, read_u64, write_u16, write_u32}
use node_vmm.VirtioRng.State.{
  Queue, Rng, World, Generator, Desc, ring_desc_next, ring_desc_write, ring_avail_no_interrupt,
  interrupt_vring, ptr_or_null, fill_random,
}

abbrev pub read_desc : ℕ → Memory → Desc
read_desc p m = record {
  addr = read_u64 p m;
  len = read_u32 (p + 8) m;
  flags = read_u16 (p + 12) m;
  next = read_u16 (p + 14) m;
}

-- What the device does with one descriptor: the bytes written so far, and the world.
unfoldable pub fill_desc : Generator → ℕ → Desc → ℕ → World → Result (ℕ × World)
fill_desc gen mem_size desc written w =
    if bit_and desc.flags ring_desc_write != 0 && ltb 0 desc.len
    then elim (ptr_or_null mem_size desc.addr desc.len) [
      | none ↦ ok (written, w)
      | some dst ↦ do w' ← fill_random gen dst desc.len w; ok (u32 (written + desc.len), w')
    ]
    else ok (written, w)

-- The loop of `service_chain` with `hops` rounds to go; `seen` is the array of the source.
unfoldable pub walk : Generator → ℕ → Queue → ℕ → (ℕ → Bool) → ℕ → ℕ → World → Result (ℕ × World)
walk gen mem_size queue zero seen idx written w = ok (written, w)
walk gen mem_size queue (suc hops) seen idx written w = elim (leb queue.size idx || seen idx) [
  | true ↦ ok (written, w)
  | false ↦ elim (ptr_or_null mem_size (u64 (queue.desc_addr + idx * 16)) 16) [
    | none ↦ ok (written, w)
    | some p ↦
        (let desc = read_desc p w.memory in
          do
            (written', w') ← fill_desc gen mem_size desc written w
            elim (bit_and desc.flags ring_desc_next == 0) [
              | true ↦ ok (written', w')
              | false ↦ walk gen mem_size queue hops (λ i. i == idx || seen i) desc.next written' w'
            ])
  ]
]

unfoldable pub service_chain : Generator → ℕ → Queue → ℕ → World → Result (ℕ × World)
service_chain gen mem_size queue head w = walk gen mem_size queue queue.size (λ i. false) head 0 w

-- The element of the used ring that the next chain goes to.
abbrev pub used_entry : Queue → ℕ → ℕ
used_entry queue used = u64 (queue.device_addr + 4 + used % queue.size * 8)

unfoldable pub push_used : ℕ → Queue → ℕ → ℕ → Memory → Memory
push_used mem_size queue id written m =
    elim (ptr_or_null mem_size (u64 (queue.device_addr + 2)) 2) [
      | none ↦ m
      | some idxp ↦
          let used = read_u16 idxp m in
          if queue.size == 0 then m else elim (ptr_or_null mem_size (used_entry queue used) 8) [
            | none ↦ m
            | some elem ↦
                write_u16 idxp (used + 1) (write_u32 (elem + 4) written (write_u32 elem id m))
          ]
    ]

-- The queue with its `last_avail`, whether a chain was processed, and the world.
abbrev pub Served : Type 0
Served = Queue × Bool × World

-- The loop of `handle_queue`, at most `fuel` rounds of it.
unfoldable pub serve : Generator → ℕ → ℕ → ℕ → Served → Result Served
serve gen mem_size avail_idx zero s = ok s
serve gen mem_size avail_idx (suc fuel) (queue, processed, w) =
    elim (queue.last_avail == avail_idx) [
      | true ↦ ok (queue, processed, w)
      | false ↦
          elim (ptr_or_null mem_size
            (u64 (queue.driver_addr + 4 + queue.last_avail % queue.size * 2)) 2) [
              | none ↦ ok (queue, processed, w)
              | some headp ↦
                  (let head = read_u16 headp w.memory in
                    let taken = record queue { last_avail = u16 (queue.last_avail + 1) } in
                    do
                      (written, w') ← service_chain gen mem_size taken head w
                      (let w'' = record w' {
                        memory = push_used mem_size taken head written w'.memory;
                      } in
                          serve gen mem_size avail_idx fuel (taken, true, w'')))
            ]
    ]

-- How far the driver is ahead: the rounds that the loop needs.
abbrev pub pending : ℕ → Queue → ℕ
pending avail_idx queue = u16 (avail_idx + 2 ^ 16 - queue.last_avail)

-- The end of `handle_queue`: the interrupt, unless the driver does not want it.
unfoldable pub notify : ℕ → Rng → Memory → Rng
notify mem_size rng m =
    let flags : ℕ = elim (ptr_or_null mem_size rng.queue.driver_addr 2) [
      | none ↦ 0
      | some flagsp ↦ read_u16 flagsp m
    ] in
    if bit_and flags ring_avail_no_interrupt == 0
    then record rng {
      interrupt_status = bit_or rng.interrupt_status interrupt_vring;
      raised = suc rng.raised;
    }
    else rng

abbrev pub finish : ℕ → Bool → Rng → Memory → Rng
finish mem_size processed rng m = if processed then notify mem_size rng m else rng

unfoldable pub is_set_up : Queue → Bool
is_set_up queue =
    queue.ready
    && (queue.size != 0
        && (queue.desc_addr != 0 && (queue.driver_addr != 0 && queue.device_addr != 0)))

unfoldable pub handle_queue : Generator → ℕ → Rng → World → Result (Rng × World)
handle_queue gen mem_size rng w =
    if not (is_set_up rng.queue)
    then ok (rng, w)
    else elim (ptr_or_null mem_size (u64 (rng.queue.driver_addr + 2)) 2) [
      | none ↦ ok (rng, w)
      | some avail_idx_ptr ↦
          (let avail_idx = read_u16 avail_idx_ptr w.memory in
            do
              (queue, processed, w') ←
                  serve gen mem_size avail_idx (pending avail_idx rng.queue) (rng.queue, false, w)
              ok (finish mem_size processed (record rng { queue = queue }) w'.memory, w'))
    ]
