-- ===== src/VirtioBlk/Request.antt =====
-- Serving the queue.
use node_vmm.Prelude.{
  ℕ, zero, suc, ◌+◌, ◌-◌, ◌*◌, ◌/◌, ◌%◌, ◌^◌, min, bit_and, Bool, true, false, not, leb, ◌==◌, ◌!=◌,
  ◌&&◌, if◌then◌else◌, none, some, List, [], ◌∷◌, length, get_or, take, drop, Result, ok, err,
}
use node_vmm.Prelude.State.{M, ◌>>=◌, ◌>>◌, return, lift, modify}
use node_vmm.Bytes.{u16, u32, u64, Memory, poke, check, read_u16, read_u32, read_u64}
use node_vmm.WinIo.Files.{FileApi, place}
use node_vmm.VirtioRng.State.{Desc, Queue, ring_desc_write}
use node_vmm.VirtioBlk.State.{Host, guest_ptr}
use node_vmm.VirtioBlk.Disk.{read_disk, write_disk}
use node_vmm.VirtioBlk.Chain.{walk_chain_inline}
use node_vmm.VirtioBlk.Used.{push_used_inline}

-- What `items{}` holds where nothing was pushed.
abbrev pub no_desc : Desc
no_desc = record { addr = 0; len = 0; flags = 0; next = 0 }

-- The descriptors between the header and the status.
abbrev pub data_descs : List Desc → List Desc
data_descs chain = take (length chain - 2) (drop 1 chain)

abbrev pub status_desc : List Desc → Desc
status_desc chain = get_or chain (length chain - 1) no_desc

-- The bytes of `id`, the zero at the end included.
abbrev pub device_id : ℕ → ℕ
device_id i = get_or (110 ∷ 111 ∷ 100 ∷ 101 ∷ 45 ∷ 118 ∷ 109 ∷ 109 ∷ 0 ∷ []) i 0

module _ {F : Type 0} (api : FileApi F) (mem_size : ℕ) where
  -- The host, and the local variable `written`.
  abbrev pub Progress : Type 0
  Progress = Host F × ℕ

  abbrev pub keep_written : ℕ → Result (Unit {0}) × Host F → Result (Unit {0}) × Progress
  keep_written written (r, h) = (r, (h, written))

  abbrev pub on_host : M (Host F) (Unit {0}) → M Progress (Unit {0})
  on_host act (h, written) = keep_written written (act h)

  abbrev pub add_written : ℕ → M Progress (Unit {0})
  add_written n = modify (λ (h, written). (h, u32 (written + n)))

  abbrev pub store : (Memory → Memory) → M Progress (Unit {0})
  store f = modify (λ (h, written). (record h { memory = f h.memory }, written))

  -- The loop of type 0.
  unfoldable pub read_data : List Desc → ℕ → M Progress (Unit {0})
  read_data [] sector s = return tt s
  read_data (d ∷ ds) sector s =
      (do
        lift (
            check (bit_and d.flags ring_desc_write != 0)
              "virtio-blk read data descriptor must be writable")
        lift (check (d.len % 512 == 0) "virtio-blk read length must be sector-aligned")
        p ← lift (guest_ptr mem_size d.addr d.len)
        on_host (read_disk api sector p d.len)
        add_written d.len
        read_data ds (u64 (sector + d.len / 512)))
        s

  -- The loop of type 1.
  unfoldable pub write_data : List Desc → ℕ → M Progress (Unit {0})
  write_data [] sector s = return tt s
  write_data (d ∷ ds) sector s =
      (do
        lift (
            check (bit_and d.flags ring_desc_write == 0)
              "virtio-blk write data descriptor must be read-only")
        lift (check (d.len % 512 == 0) "virtio-blk write length must be sector-aligned")
        p ← lift (guest_ptr mem_size d.addr d.len)
        on_host (write_disk api sector p d.len)
        write_data ds (u64 (sector + d.len / 512)))
        s

  -- `FlushFileBuffers`, and its check.
  abbrev pub flushed : Bool → Result (Unit {0})
  flushed done = check done "virtio-blk flush failed"

  unfoldable pub flush_disk : M (Host F) (Unit {0})
  flush_disk h = elim h.disk.overlay [
    | none ↦
        (let (done, f) = api.flush h.disk.base in
          (flushed done, record h { disk = record h.disk { base = f } }))
    | some f ↦
        (let (done, f') = api.flush f in
          (flushed done, record h { disk = record h.disk { overlay = some f' } }))
  ]

  abbrev pub flush_unless_read_only : M (Host F) (Unit {0})
  flush_unless_read_only h = if h.disk.read_only then return tt h else flush_disk h

  -- The loop of type 8, which ends in its first round.
  unfoldable pub give_id : List Desc → M Progress (Unit {0})
  give_id [] s = return tt s
  give_id (d ∷ ds) s =
      (do
        p ← lift (guest_ptr mem_size d.addr (min d.len 9))
        store (place (min d.len 9) p device_id)
        add_written (min d.len 9))
        s

  -- The request of a type, and the status that goes with it.
  unfoldable pub perform : ℕ → ℕ → List Desc → M Progress ℕ
  perform type sector descs s =
      if type == 0
      then (read_data descs sector >>= λ done. return 0) s
      else if type == 1
      then (write_data descs sector >>= λ done. return 0) s
      else if type == 4
      then (on_host flush_unless_read_only >>= λ done. return 0) s
      else if type == 8
      then (give_id descs >>= λ done. return 0) s
      else return 2 s

  abbrev pub put_memory : Host F → Result (Unit {0}) × Memory → Result (Unit {0}) × Host F
  put_memory h (r, m) = (r, record h { memory = m })

  abbrev pub push_used : Queue → ℕ → ℕ → M (Host F) (Unit {0})
  push_used q head written h =
      put_memory h (push_used_inline mem_size q.device_addr q.size head written h.memory)

  -- The chain, with the checks of its shape.
  unfoldable pub checked_chain : Queue → ℕ → Memory → Result (List Desc)
  checked_chain q head m = elim (walk_chain_inline mem_size q.desc_addr q.size head m) [
    | err e ↦ err e
    | ok chain ↦
        if not (leb 2 (length chain))
        then err "virtio-blk descriptor chain too short"
        else if not (leb 16 (get_or chain 0 no_desc).len)
        then err "virtio-blk header too short"
        else if not (
            bit_and (status_desc chain).flags ring_desc_write != 0 && leb 1 (status_desc chain).len)
        then err "virtio-blk status descriptor invalid"
        else ok chain
  ]

  abbrev pub memory_of : M Progress Memory
  memory_of (h, written) = (ok h.memory, (h, written))

  abbrev pub used_after : Queue → ℕ → M Progress (Unit {0})
  used_after q head (h, written) = keep_written written (push_used q head (u32 (written + 1)) h)

  -- What stands under `try`.
  unfoldable pub attempt : Queue → ℕ → M Progress (Unit {0})
  attempt q head s =
      (do
        m ← memory_of
        chain ← lift (checked_chain q head m)
        p ← lift (guest_ptr mem_size (get_or chain 0 no_desc).addr 16)
        status ← perform (read_u32 p m) (read_u64 (p + 8) m) (data_descs chain)
        status_p ← lift (guest_ptr mem_size (status_desc chain).addr 1)
        store (poke status_p status)
        used_after q head)
        s

  -- The inner `try` of the handler: the status byte 1, where there is a chain that has one.
  unfoldable pub mark_failed : Queue → ℕ → Memory → Memory
  mark_failed q head m = elim (walk_chain_inline mem_size q.desc_addr q.size head m) [
    | err e ↦ m
    | ok chain ↦ elim (guest_ptr mem_size (status_desc chain).addr 1) [
      | err e ↦ m
      | ok p ↦ if length chain == 0 then m else poke p 1 m
    ]
  ]

  -- The handler of `process_request`, after an attempt that threw.
  abbrev pub recover : Queue → ℕ → Result (Unit {0}) × Progress → Result (Unit {0}) × Host F
  recover q head (ok done, (h, written)) = (ok done, h)
  recover q head (err e, (h, written)) =
      push_used q head written (record h { memory = mark_failed q head h.memory })

  unfoldable pub process_request : Queue → ℕ → M (Host F) (Unit {0})
  process_request q head h = recover q head (attempt q head (h, 0))

  -- The loop of `handle_queue`, `pending` rounds of it; the queue changes also where it throws.
  unfoldable pub serve : ℕ → ℕ → M (Queue × Host F) (Unit {0})
  serve zero avail_idx s = return tt s
  serve (suc n) avail_idx (q, h) = elim (q.last_avail == avail_idx) [
    | true ↦ return tt (q, h)
    | false ↦ elim (guest_ptr mem_size (u64 (q.driver_addr + 4 + q.last_avail % q.size * 2)) 2) [
      | err e ↦ (err e, (q, h))
      | ok p ↦
          (let q' : Queue = record q { last_avail = u16 (q.last_avail + 1) } in
            let (r, h') = process_request q' (read_u16 p h.memory) h in
            elim r [ err e ↦ (err e, (q', h')) | ok done ↦ serve n avail_idx (q', h') ])
    ]
  ]

  abbrev pub pending : ℕ → Queue → ℕ
  pending avail_idx q = u16 (avail_idx + 2 ^ 16 - q.last_avail)

  unfoldable pub handle_queue : M (Queue × Host F) (Unit {0})
  handle_queue (q, h) = elim (guest_ptr mem_size (u64 (q.driver_addr + 2)) 2) [
    | err e ↦ (err e, (q, h))
    | ok p ↦ serve (pending (read_u16 p h.memory) q) (read_u16 p h.memory) (q, h)
  ]
