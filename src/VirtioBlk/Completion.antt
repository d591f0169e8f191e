-- ===== src/VirtioBlk/Completion.antt =====
-- Where the rings lie in guest memory, every request is completed, the failing ones too.
use native.Mathlib.Nat.{mod-lt}
use node_vmm.Prelude.{
  ℕ, zero, suc, ◌+◌, ◌*◌, ◌%◌, ◌^◌, ◌≤◌, ◌<◌, ◌≡◌, refl, arith, ◌==◌, Bool-cases, inl, inr, ok, err,
  Result, Result-cases,
}
use node_vmm.Prelude.State.{Finishes, Finishes-err}
use node_vmm.Bytes.{Memory, u16, u64, read_u16, check_range, check}
use node_vmm.Bytes.RoundTrip.{IsBytes, read_u16-lt}
use node_vmm.WinIo.Files.{FileApi}
use node_vmm.VirtioRng.State.{Queue}
use node_vmm.VirtioBlk.State.{Host, guest_ptr}
use node_vmm.VirtioBlk.Used.{push_used_inline, used_entry}
use node_vmm.VirtioBlk.Request.{
  put_memory, attempt, mark_failed, recover, process_request, serve, handle_queue, pending,
}

-- The available ring and the used ring lie in guest memory.
pub record IsPlaced (mem_size : ℕ) (q : Queue) : Type 0 where
  pub bounded : mem_size < 2 ^ 64
  pub size_pos : 0 < q.size
  pub avail_inside : q.driver_addr + 4 + q.size * 2 ≤ mem_size
  pub used_inside : q.device_addr + 4 + q.size * 8 ≤ mem_size
  pub counter : q.last_avail < 2 ^ 16

guest_ptr_inside :
    (mem_size offset size : ℕ)
    → offset + size ≤ mem_size
    → guest_ptr mem_size offset size ≡ ok offset
unfolding guest_ptr check_range check
guest_ptr_inside mem_size offset size h = ground arith

abbrev pub Anything : {S : Type 0} → Unit {0} → S → Type 0
Anything done s = Unit {0}

push_used_inline-Finishes :
    (mem_size : ℕ) (q : Queue) (id written : ℕ) (m : Memory)
    → IsPlaced mem_size q
    → Finishes Anything (push_used_inline mem_size q.device_addr q.size id written m)
unfolding push_used_inline Finishes
push_used_inline-Finishes mem_size q id written m placed =
    let idxp : ℕ = q.device_addr + 2 in
    let slot : ℕ = read_u16 idxp m % q.size in
    let l : slot < q.size = mod-lt (read_u16 idxp m) placed.size_pos in
    let w : u64 idxp ≡ idxp = omega (arith, placed.bounded, placed.used_inside) in
    let w' : used_entry q.device_addr q.size (read_u16 idxp m) ≡ q.device_addr + 4 + slot * 8 =
      omega (arith, placed.bounded, placed.used_inside) in
    let w'' : u64 (q.device_addr + 4 + slot * 8 + 4) ≡ q.device_addr + 4 + slot * 8 + 4 =
      omega (arith, placed.bounded, placed.used_inside) in
    rw
      (
        push_used_inline,
        w,
        guest_ptr_inside mem_size idxp 2 (omega (arith, placed.used_inside)),
        w',
        guest_ptr_inside mem_size (q.device_addr + 4 + slot * 8) 8
            (omega (arith, placed.used_inside)),
        w'',
        guest_ptr_inside mem_size (q.device_addr + 4 + slot * 8 + 4) 4
            (omega (arith, placed.used_inside)),
      )
      tt

module _ {F : Type 0} (api : FileApi F) (mem_size : ℕ) where
  put_memory-Finishes :
      (h : Host F) (r : Result (Unit {0}) × Memory)
      → Finishes Anything r
      → Finishes Anything (put_memory api mem_size h r)
  unfolding Finishes
  put_memory-Finishes h (ok d, m) p = tt
  put_memory-Finishes h (err e, m) p = absurd p

  recover-Finishes :
      (q : Queue) (head : ℕ) (r : Result (Unit {0}) × (Host F × ℕ))
      → IsPlaced mem_size q
      → Finishes Anything (recover api mem_size q head r)
  unfolding Finishes
  recover-Finishes q head (ok d, (h, written)) placed = tt
  recover-Finishes q head (err e, (h, written)) placed =
      put_memory-Finishes (record h { memory = mark_failed api mem_size q head h.memory }) _
        (push_used_inline-Finishes mem_size q head written
          (mark_failed api mem_size q head h.memory) placed)

  -- With the rings in guest memory, a request never ends in an exception, whatever its chain of
  -- descriptors holds and whether or not the disk works.
  pub process_request-Finishes :
      (q : Queue) (head : ℕ) (h : Host F)
      → IsPlaced mem_size q
      → Finishes Anything (process_request api mem_size q head h)
  unfolding process_request
  process_request-Finishes q head h placed =
      recover-Finishes q head (attempt api mem_size q head (h, 0)) placed

  abbrev pub CaughtUp : ℕ → Unit {0} → Queue × Host F → Type 0
  CaughtUp avail_idx done s = s.0.last_avail ≡ avail_idx

  serve-Finishes :
      (n avail_idx : ℕ) (q : Queue) (h : Host F)
      → IsPlaced mem_size q
      → avail_idx < 2 ^ 16
      → n ≡ pending api mem_size avail_idx q
      → Finishes (CaughtUp avail_idx) (serve api mem_size n avail_idx (q, h))
  unfolding serve Finishes
  serve-Finishes zero avail_idx q h placed b e = omega (arith, placed.counter)
  serve-Finishes (suc n) avail_idx q h placed b e = elim (Bool-cases (q.last_avail == avail_idx)) [
    | inl z ↦ rw (serve, z) (ground arith)
    | inr z ↦
        let slot : ℕ = q.last_avail % q.size in
        let l : slot < q.size = mod-lt q.last_avail placed.size_pos in
        let w : u64 (q.driver_addr + 4 + slot * 2) ≡ q.driver_addr + 4 + slot * 2 =
          omega (arith, placed.bounded, placed.avail_inside) in
        let g : guest_ptr mem_size (u64 (q.driver_addr + 4 + slot * 2)) 2
            ≡ ok (q.driver_addr + 4 + slot * 2) =
          rw w (
            guest_ptr_inside mem_size (q.driver_addr + 4 + slot * 2) 2
              (omega (arith, placed.avail_inside))) in
        let q' : Queue = record q { last_avail = u16 (q.last_avail + 1) } in
        let placed' : IsPlaced mem_size q' = record {
          bounded = placed.bounded;
          size_pos = placed.size_pos;
          avail_inside = placed.avail_inside;
          used_inside = placed.used_inside;
          counter = omega arith;
        } in
        let done : Result (Unit {0}) × Host F =
          process_request api mem_size q' (read_u16 (q.driver_addr + 4 + slot * 2) h.memory) h in
        elim (Result-cases done.0) [
          | inl (x, r) ↦ absurd (
              Finishes-err Anything done x
                (process_request-Finishes q' (read_u16 (q.driver_addr + 4 + slot * 2) h.memory) h
                  placed')
                r)
          | inr (x, r) ↦
              rw (serve, z, g, r)
                (serve-Finishes n avail_idx q' done.1 placed' b (ground (arith, placed.counter)))
        ]
  ]

  -- With the rings in guest memory, a memory of bytes, a notification is served to the end: the
  -- device catches up with the index that the driver had published, whatever the descriptors hold
  -- and whether or not the disk works.
  pub handle_queue-Finishes :
      (q : Queue) (h : Host F)
      → IsPlaced mem_size q
      → IsBytes h.memory
      → Finishes
          (CaughtUp (read_u16 (q.driver_addr + 2) h.memory))
          (handle_queue api mem_size (q, h))
  unfolding handle_queue
  handle_queue-Finishes q h placed bytes =
      let w : u64 (q.driver_addr + 2) ≡ q.driver_addr + 2 =
        omega (arith, placed.bounded, placed.avail_inside, placed.size_pos) in
      let g : guest_ptr mem_size (u64 (q.driver_addr + 2)) 2 ≡ ok (q.driver_addr + 2) =
        rw w
          (guest_ptr_inside mem_size (q.driver_addr + 2) 2 (omega (arith, placed.avail_inside))) in
      rw (handle_queue, g)
        (serve-Finishes (pending api mem_size (read_u16 (q.driver_addr + 2) h.memory) q)
          (read_u16 (q.driver_addr + 2) h.memory) q h placed
          (read_u16-lt (q.driver_addr + 2) h.memory bytes) refl)
