-- ===== src/VirtioBlk/SafeRequests.antt =====
-- A request stores nothing outside guest memory, however it ends.
use node_vmm.Prelude.{
  ℕ, zero, suc, ◌+◌, ◌*◌, ◌%◌, ◌≤◌, ◌≡◌, ◌∙◌, arith, ◌==◌, Bool-cases, inl, inr, ok, err, Result,
  Result-cases, length, get_or, if_intro,
}
use node_vmm.Prelude.State.{continue-keeps, lift-keeps}
use node_vmm.Bytes.{Memory, u16, u32, u64, poke, read_u16, read_u32, read_u64, write_u32}
use node_vmm.WinIo.Files.{FileApi, IsBounded}
use node_vmm.VirtioRng.State.{Queue}
use node_vmm.VirtioRng.Ring.{IsKept, write_u16_outside, write_u32_outside}
use node_vmm.VirtioBlk.State.{Host, guest_ptr}
use node_vmm.VirtioBlk.Chain.{walk_chain_inline}
use node_vmm.VirtioBlk.Used.{push_used_inline, used_entry}
use node_vmm.VirtioBlk.Request.{
  perform, push_used, checked_chain, attempt, mark_failed, recover, process_request, serve,
  handle_queue, pending, data_descs, status_desc, no_desc,
}
use node_vmm.VirtioBlk.Safety.{guest_ptr-ok}
use node_vmm.VirtioBlk.SafeData.{Within, WithinProgress, perform-IsKept}

-- The used ring alone.
push_used_inline-IsKept :
    (mem_size device_addr q_size id written : ℕ) (m₀ m : Memory)
    → IsKept mem_size m₀ m
    → IsKept mem_size m₀ (push_used_inline mem_size device_addr q_size id written m).1
unfolding push_used_inline
push_used_inline-IsKept mem_size device_addr q_size id written m₀ m kept =
    let K : Memory → Type 0 = IsKept mem_size m₀ in
    lift-keeps K (guest_ptr mem_size (u64 (device_addr + 2)) 2) m _ kept λ idxp e.
      lift-keeps K (guest_ptr mem_size (used_entry device_addr q_size (read_u16 idxp m)) 8) m _ kept
        λ entry e'.
          let m₁ : Memory = write_u32 entry id m in
          let (p, i) = guest_ptr-ok mem_size _ 2 idxp e in
          let (p', i') = guest_ptr-ok mem_size _ 8 entry e' in
          let kept₁ : K m₁ = λ a h. write_u32_outside entry id a m (omega arith) ∙ kept a h in
          lift-keeps K
            (guest_ptr mem_size (u64 (used_entry device_addr q_size (read_u16 idxp m) + 4)) 4) m₁ _
            kept₁
            λ entry' e''.
              let (p'', i'') = guest_ptr-ok mem_size _ 4 entry' e'' in
              λ a h.
                write_u16_outside idxp (read_u16 idxp m + 1) a (write_u32 entry' written m₁)
                  (omega arith)
                ∙ (write_u32_outside entry' written a m₁ (omega arith) ∙ kept₁ a h)

poke_outside : (p v a : ℕ) (m : Memory) → p + 1 ≤ a → poke p v m a ≡ m a
poke_outside p v a m h = ground arith

module _ {F : Type 0} (api : FileApi F) (bounded : IsBounded api) (mem_size : ℕ) (m₀ : Memory) where
  push_used-IsKept :
      (q : Queue) (head written : ℕ) (h : Host F)
      → Within api bounded mem_size m₀ h
      → Within api bounded mem_size m₀ (push_used api mem_size q head written h).1
  push_used-IsKept q head written h kept =
      push_used_inline-IsKept mem_size q.device_addr q.size head written m₀ h.memory kept

  attempt-IsKept :
      (q : Queue) (head : ℕ) (s : Host F × ℕ)
      → WithinProgress api bounded mem_size m₀ s
      → WithinProgress api bounded mem_size m₀ (attempt api mem_size q head s).1
  unfolding attempt
  attempt-IsKept q head s kept =
      let m : Memory = s.0.memory in
      lift-keeps (WithinProgress api bounded mem_size m₀) (checked_chain api mem_size q head m) s _
        kept
        λ chain e.
          lift-keeps (WithinProgress api bounded mem_size m₀)
            (guest_ptr mem_size (get_or chain 0 no_desc).addr 16) s _ kept
            λ p g.
              continue-keeps (WithinProgress api bounded mem_size m₀)
                (perform api mem_size (read_u32 p m) (read_u64 (p + 8) m) (data_descs chain) s) _
                (perform-IsKept api bounded mem_size m₀ (read_u32 p m) (read_u64 (p + 8) m)
                  (data_descs chain) s kept)
                (λ status s' kept'.
                  lift-keeps (WithinProgress api bounded mem_size m₀)
                    (guest_ptr mem_size (status_desc chain).addr 1) s' _ kept'
                    λ p' g'.
                      let (q', i) = guest_ptr-ok mem_size (status_desc chain).addr 1 p' g' in
                      push_used-IsKept q head (u32 (s'.1 + 1))
                        (record s'.0 { memory = poke p' status s'.0.memory })
                        (λ a h. poke_outside p' status a s'.0.memory (omega arith) ∙ kept' a h))

  mark_failed-IsKept :
      (q : Queue) (head : ℕ) (m : Memory)
      → IsKept mem_size m₀ m
      → IsKept mem_size m₀ (mark_failed api mem_size q head m)
  unfolding mark_failed
  mark_failed-IsKept q head m kept =
      elim (Result-cases (walk_chain_inline mem_size q.desc_addr q.size head m)) [
        | inl (e, w) ↦ rw (mark_failed, w) kept
        | inr (chain, w) ↦ elim (Result-cases (guest_ptr mem_size (status_desc chain).addr 1)) [
          | inl (e, g) ↦ rw (mark_failed, w, g) kept
          | inr (p, g) ↦
              let (q', i) = guest_ptr-ok mem_size (status_desc chain).addr 1 p g in
              rw (mark_failed, w, g)
                (if_intro (IsKept mem_size m₀) (length chain == 0) kept
                  (λ a h. poke_outside p 1 a m (omega arith) ∙ kept a h))
        ]
      ]

  recover-IsKept :
      (q : Queue) (head : ℕ) (r : Result (Unit {0}) × (Host F × ℕ))
      → WithinProgress api bounded mem_size m₀ r.1
      → Within api bounded mem_size m₀ (recover api mem_size q head r).1
  recover-IsKept q head (ok d, (h, written)) kept = kept
  recover-IsKept q head (err e, (h, written)) kept =
      push_used-IsKept q head written
        (record h { memory = mark_failed api mem_size q head h.memory })
        (mark_failed-IsKept q head h.memory kept)

  process_request-IsKept :
      (q : Queue) (head : ℕ) (h : Host F)
      → Within api bounded mem_size m₀ h
      → Within api bounded mem_size m₀ (process_request api mem_size q head h).1
  unfolding process_request
  process_request-IsKept q head h kept =
      recover-IsKept q head (attempt api mem_size q head (h, 0)) (attempt-IsKept q head (h, 0) kept)

  abbrev WithinQueue : Queue × Host F → Type 0
  WithinQueue s = IsKept mem_size m₀ s.1.memory

  serve-IsKept :
      (n avail_idx : ℕ) (s : Queue × Host F)
      → WithinQueue s
      → WithinQueue (serve api mem_size n avail_idx s).1
  unfolding serve
  serve-IsKept zero avail_idx s kept = kept
  serve-IsKept (suc n) avail_idx (q, h) kept = elim (Bool-cases (q.last_avail == avail_idx)) [
    | inl e ↦ rw (serve, e) kept
    | inr e ↦
        elim (Result-cases
          (guest_ptr mem_size (u64 (q.driver_addr + 4 + q.last_avail % q.size * 2)) 2)) [
            | inl (x, g) ↦ rw (serve, e, g) kept
            | inr (p, g) ↦
                let q' : Queue = record q { last_avail = u16 (q.last_avail + 1) } in
                let done : Result (Unit {0}) × Host F =
                  process_request api mem_size q' (read_u16 p h.memory) h in
                let kept' : Within api bounded mem_size m₀ done.1 =
                  process_request-IsKept q' (read_u16 p h.memory) h kept in
                elim (Result-cases done.0) [
                  | inl (x, r) ↦ rw (serve, e, g, r) kept'
                  | inr (x, r) ↦ rw (serve, e, g, r) (serve-IsKept n avail_idx (q', done.1) kept')
                ]
          ]
  ]

  pub handle_queue-IsKept :
      (s : Queue × Host F) → WithinQueue s → WithinQueue (handle_queue api mem_size s).1
  unfolding handle_queue
  handle_queue-IsKept (q, h) kept =
      elim (Result-cases (guest_ptr mem_size (u64 (q.driver_addr + 2)) 2)) [
        | inl (x, g) ↦ rw (handle_queue, g) kept
        | inr (p, g) ↦
            rw (handle_queue, g)
              (serve-IsKept (pending api mem_size (read_u16 p h.memory) q) (read_u16 p h.memory)
                (q, h) kept)
      ]
