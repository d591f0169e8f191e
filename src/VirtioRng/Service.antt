-- ===== src/VirtioRng/Service.antt =====
-- Serving the queue: where the loops end, and what they store.
use native.Mathlib.Nat.{mod-lt}
use node_vmm.Prelude.{
  ℕ, zero, suc, ◌+◌, ◌*◌, ◌%◌, ◌^◌, ◌≤◌, ◌<◌, ◌≡◌, ◌≢◌, refl, ap, ◌∙◌, arith, ◌==◌, Bool, true,
  false, none, some, Returns, Returns->>=, Returns-weaken, Bool-cases, Option-cases, inl, inr,
}
use node_vmm.Bytes.{u16, u64, Memory, read_u16}
use node_vmm.Bytes.RoundTrip.{IsBytes, read_u16-lt}
use node_vmm.VirtioRng.State.{World, Generator, Queue, Rng, ptr_or_null}
use node_vmm.VirtioRng.Queue.{
  push_used, service_chain, serve, Served, pending, is_set_up, handle_queue, notify, finish,
}
use node_vmm.VirtioRng.Ring.{IsKept, Answers, push_used-IsKept}
use node_vmm.VirtioRng.Chain.{StaysInside, walk-Returns}

-- The available ring lies in guest memory.
abbrev pub IsInside : ℕ → Queue → Type 0
IsInside mem_size queue =
    (queue.driver_addr + 4 + queue.size * 2 ≤ mem_size)
    × (mem_size < 2 ^ 64)
    × (queue.size ≢ 0)
    × (queue.last_avail < 2 ^ 16)

ring_inside :
    (mem_size : ℕ) (queue : Queue)
    → IsInside mem_size queue
    → ptr_or_null mem_size (u64 (queue.driver_addr + 4 + queue.last_avail % queue.size * 2)) 2
      ≢ none
unfolding ptr_or_null
ring_inside mem_size queue (i, b, z, q) =
    let r : queue.last_avail % queue.size < queue.size = mod-lt queue.last_avail (omega arith) in
    ground arith

idx_inside :
    (mem_size : ℕ) (queue : Queue)
    → IsInside mem_size queue
    → ptr_or_null mem_size (u64 (queue.driver_addr + 2)) 2 ≢ none
unfolding ptr_or_null
idx_inside mem_size queue (i, b, z, q) = ground arith

idx_at :
    (mem_size : ℕ) (queue : Queue) (p : ℕ)
    → IsInside mem_size queue
    → ptr_or_null mem_size (u64 (queue.driver_addr + 2)) 2 ≡ some p
    → p ≡ queue.driver_addr + 2
unfolding ptr_or_null
idx_at mem_size queue p (i, b, z, q) n = ground arith

-- What the loop guarantees; that it catches up needs the ring inside the memory and enough fuel.
abbrev IsServed : ℕ → ℕ → ℕ → Served → Served → Type 0
IsServed mem_size avail_idx fuel (queue, processed, w) (queue', processed', w') =
    IsKept mem_size w.memory w'.memory
    × (IsInside mem_size queue
        → avail_idx < 2 ^ 16
        → fuel ≡ pending avail_idx queue
        → queue'.last_avail ≡ avail_idx)

serve-Returns :
    (gen : Generator) (mem_size avail_idx fuel : ℕ) (s : Served)
    → Answers gen
    → Returns (IsServed mem_size avail_idx fuel s) (serve gen mem_size avail_idx fuel s)
unfolding serve Returns service_chain
serve-Returns gen mem_size avail_idx zero (queue, processed, w) answers =
    ((λ a h. refl), λ (_, _, _, q) l e. omega arith)
serve-Returns gen mem_size avail_idx (suc fuel) (queue, processed, w) answers =
    elim (Bool-cases (queue.last_avail == avail_idx)) [
      | inl e ↦ rw (serve, e) ((λ a h. refl), λ _ _ _. ground arith)
      | inr e ↦
          rw (serve, e)
            (elim (Option-cases (
              ptr_or_null mem_size (u64 (queue.driver_addr + 4 + queue.last_avail % queue.size * 2))
                2)) [
                  | inl n ↦
                      rw (serve, n)
                        (
                          (λ a h. refl),
                          λ (i, b, z, q) l f. absurd (ring_inside mem_size queue (i, b, z, q) n),
                        )
                  | inr (p, n) ↦
                      rw (serve, n)
                        (let taken : Queue = record queue {
                          last_avail = u16 (queue.last_avail + 1);
                        } in
                          let head : ℕ = read_u16 p w.memory in
                          Returns->>= (StaysInside mem_size w)
                            (IsServed mem_size avail_idx (suc fuel) (queue, processed, w))
                            (service_chain gen mem_size taken head w) _
                            (walk-Returns gen mem_size taken taken.size (λ i. false) head 0 w
                              answers)
                            (λ (written, w') kept.
                              let w'' : World = record w' {
                                memory = push_used mem_size taken head written w'.memory;
                              } in
                              Returns-weaken (IsServed mem_size avail_idx fuel (taken, true, w''))
                                (IsServed mem_size avail_idx (suc fuel) (queue, processed, w)) _
                                (serve-Returns gen mem_size avail_idx fuel (taken, true, w'')
                                  answers)
                                (λ (_, _, _) (more, up). (
                                  (λ a h.
                                      more a h
                                      ∙ push_used-IsKept mem_size taken head written w'.memory a h
                                      ∙ kept a h),
                                  (λ (i, b, z, q) l f.
                                      up (i, b, z, (omega arith)) l (ground arith)),
                                ))))
                ])
    ]

abbrev IsHandled : ℕ → Rng → World → Rng × World → Type 0
IsHandled mem_size rng w (rng', w') =
    IsKept mem_size w.memory w'.memory
    × (is_set_up rng.queue ≡ true
        → IsInside mem_size rng.queue
        → IsBytes w.memory
        → rng'.queue.last_avail ≡ read_u16 (rng.queue.driver_addr + 2) w.memory)

queue-finish :
    (mem_size : ℕ) (processed : Bool) (rng : Rng) (m : Memory)
    → (finish mem_size processed rng m).queue ≡ rng.queue
unfolding notify
queue-finish mem_size processed rng m = ground arith

handle_queue-Returns :
    (gen : Generator) (mem_size : ℕ) (rng : Rng) (w : World)
    → Answers gen
    → Returns (IsHandled mem_size rng w) (handle_queue gen mem_size rng w)
unfolding handle_queue Returns
handle_queue-Returns gen mem_size rng w answers = elim (Bool-cases (is_set_up rng.queue)) [
  | inr e ↦ rw (handle_queue, e) ((λ a h. refl), λ f _ _. absurd (cc))
  | inl e ↦
      rw (handle_queue, e)
        (elim (Option-cases (ptr_or_null mem_size (u64 (rng.queue.driver_addr + 2)) 2)) [
          | inl n ↦
              rw (handle_queue, n)
                (
                  (λ a h. refl),
                  λ _ (i, b, z, q) _. absurd (idx_inside mem_size rng.queue (i, b, z, q) n),
                )
          | inr (p, n) ↦
              rw (handle_queue, n)
                (let avail_idx : ℕ = read_u16 p w.memory in
                  Returns->>=
                    (IsServed mem_size avail_idx (pending avail_idx rng.queue)
                      (rng.queue, false, w))
                    (IsHandled mem_size rng w)
                    (serve gen mem_size avail_idx (pending avail_idx rng.queue)
                      (rng.queue, false, w))
                    _
                    (serve-Returns gen mem_size avail_idx (pending avail_idx rng.queue)
                      (rng.queue, false, w) answers)
                    (λ (queue, processed, w') (kept, up). (
                      kept,
                      λ _ inside b.
                          ap (λ (q : Queue). q.last_avail)
                            (queue-finish mem_size processed (record rng { queue = queue })
                              w'.memory)
                          ∙ up inside (read_u16-lt p w.memory b) refl
                          ∙ ap (λ t. read_u16 t w.memory) (idx_at mem_size rng.queue p inside n),
                    )))
        ])
]

-- Serving a notification returns where the generator always answers, and it stores nothing outside
-- guest memory, whatever the descriptors and the rings hold.
pub handle_queue-IsKept :
    (gen : Generator) (mem_size : ℕ) (rng : Rng) (w : World)
    → Answers gen
    → Returns (λ (rng', w'). IsKept mem_size w.memory w'.memory) (handle_queue gen mem_size rng w)
handle_queue-IsKept gen mem_size rng w answers =
    Returns-weaken (IsHandled mem_size rng w) _ _ (handle_queue-Returns gen mem_size rng w answers)
      λ (rng', w') (kept, up). kept

-- A queue that is set up, with its available ring inside guest memory, a memory of bytes, is
-- served until the device has caught up with the index that the driver had published, where the
-- generator always answers.
pub handle_queue_catches_up :
    (gen : Generator) (mem_size : ℕ) (rng : Rng) (w : World)
    → Answers gen
    → is_set_up rng.queue ≡ true
    → IsInside mem_size rng.queue
    → IsBytes w.memory
    → Returns
        (λ (rng', w'). rng'.queue.last_avail ≡ read_u16 (rng.queue.driver_addr + 2) w.memory)
        (handle_queue gen mem_size rng w)
handle_queue_catches_up gen mem_size rng w answers ready inside b =
    Returns-weaken (IsHandled mem_size rng w) _ _ (handle_queue-Returns gen mem_size rng w answers)
      λ (rng', w') (kept, up). up ready inside b
