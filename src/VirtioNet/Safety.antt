-- ===== src/VirtioNet/Safety.antt =====
-- What the device stores, it stores into guest memory.
use node_vmm.Prelude.{
  ℕ, zero, suc, ◌+◌, ◌*◌, min, ◌≡◌, refl, ◌∙◌, arith, bit_and, Bool, true, not, ltb, leb, ◌==◌,
  if_intro, Bool-cases, Option-cases, inl, inr, some, List, [], ◌∷◌, length, length-take, take,
  drop,
}
use node_vmm.Bytes.{u16, u32, u64, Memory}
use node_vmm.Boot.Params.{copy_bytes}
use node_vmm.Boot.Checks.{copy_bytes_outside}
use node_vmm.VirtioRng.State.{Desc, ptr_or_null, ring_desc_next, ring_desc_write}
use node_vmm.VirtioRng.Queue.{read_desc}
use node_vmm.VirtioRng.Ring.{IsKept, ptr_or_null-some, write_u16_outside, write_u32_outside}
use node_vmm.VirtioNet.State.{
  Queue, Net, store_u16, store_u32, complete, used_elem, net_hdr_len, next_head, taken, is_usable,
  avail_index, can_complete,
}
use node_vmm.VirtioNet.Receive.{
  frame, scatter, finish, deliver_now, flush, flush_rx_backlog, enqueue, deliver_behind,
  deliver_rx_packet,
}

module _ (mem_size : ℕ) where
  store_u16-IsKept : (gpa v : ℕ) (m : Memory) → IsKept mem_size m (store_u16 mem_size gpa v m)
  unfolding store_u16
  store_u16-IsKept gpa v m a h = elim (Option-cases (ptr_or_null mem_size gpa 2)) [
    | inl e ↦ rw (store_u16, e) refl
    | inr (p, e) ↦
        rw (store_u16, e)
          (write_u16_outside p v a m (omega (arith, ptr_or_null-some mem_size gpa 2 p e)))
  ]

  store_u32-IsKept : (gpa v : ℕ) (m : Memory) → IsKept mem_size m (store_u32 mem_size gpa v m)
  unfolding store_u32
  store_u32-IsKept gpa v m a h = elim (Option-cases (ptr_or_null mem_size gpa 4)) [
    | inl e ↦ rw (store_u32, e) refl
    | inr (p, e) ↦
        rw (store_u32, e)
          (write_u32_outside p v a m (omega (arith, ptr_or_null-some mem_size gpa 4 p e)))
  ]

  pub complete-IsKept :
      (id len : ℕ) (q : Queue) (m : Memory) → IsKept mem_size m (complete mem_size id len q m).1
  unfolding complete
  complete-IsKept id len q m a h =
      let m₁ : Memory = store_u32 mem_size (used_elem q) id m in
      let m₂ : Memory = store_u32 mem_size (u64 (used_elem q + 4)) len m₁ in
      store_u16-IsKept (u64 (q.device_addr + 2)) (u16 (q.last_used_idx + 1)) m₂ a h
      ∙ (store_u32-IsKept (u64 (used_elem q + 4)) len m₁ a h
          ∙ store_u32-IsKept (used_elem q) id m a h)

  copy-IsKept :
      (addr size p : ℕ) (bytes : List ℕ) (m : Memory)
      → ptr_or_null mem_size addr size ≡ some p
      → IsKept mem_size m (copy_bytes p (take size bytes) m)
  copy-IsKept addr size p bytes m e a h =
      copy_bytes_outside p (take size bytes) m a
        (inr (omega (arith, ptr_or_null-some mem_size addr size p e, length-take size bytes)))

  scatter-IsKept :
      (num desc_addr hops current : ℕ) (bytes : List ℕ) (m : Memory)
      → IsKept mem_size m (scatter mem_size num desc_addr hops current bytes m).1
  unfolding scatter
  scatter-IsKept num desc_addr hops current [] m a h = refl
  scatter-IsKept num desc_addr zero current (b ∷ bytes) m a h = refl
  scatter-IsKept num desc_addr (suc hops) current (b ∷ bytes) m a h =
      elim (Bool-cases (leb num current)) [
        | inl e ↦ rw (scatter, e) refl
        | inr e ↦ elim (Option-cases (ptr_or_null mem_size (u64 (desc_addr + current * 16)) 16)) [
          | inl e₁ ↦ rw (scatter, e, e₁) refl
          | inr (p, e₁) ↦
              let desc : Desc = read_desc p m in
              let size : ℕ = min desc.len (length (b ∷ bytes)) in
              elim (Bool-cases (bit_and desc.flags ring_desc_write == 0)) [
                | inl e₂ ↦ rw (scatter, e, e₁, e₂) refl
                | inr e₂ ↦ elim (Option-cases (ptr_or_null mem_size desc.addr size)) [
                  | inl e₃ ↦ rw (scatter, e, e₁, e₂, e₃) refl
                  | inr (s, e₃) ↦
                      let kept = copy-IsKept desc.addr size s (b ∷ bytes) m e₃ in
                      elim (Bool-cases (bit_and desc.flags ring_desc_next == 0)) [
                        | inl e₄ ↦ rw (scatter, e, e₁, e₂, e₃, e₄) (kept a h)
                        | inr e₄ ↦ elim (Bool-cases (leb num desc.next)) [
                          | inl e₅ ↦ rw (scatter, e, e₁, e₂, e₃, e₄, e₅) (kept a h)
                          | inr e₅ ↦
                              rw (scatter, e, e₁, e₂, e₃, e₄, e₅)
                                (scatter-IsKept num desc_addr hops desc.next (drop size (b ∷ bytes))
                                    (copy_bytes s (take size (b ∷ bytes)) m) a h
                                  ∙ kept a h)
                        ]
                      ]
                ]
              ]
        ]
      ]

  finish-IsKept :
      (head len : ℕ) (q : Queue) (net : Net) (m : Memory)
      → IsKept mem_size m (finish mem_size head len q net m).1
  unfolding finish
  finish-IsKept head len q net m =
      if_intro (λ (r : Net × Memory). IsKept mem_size m r.1) (can_complete q)
        (complete-IsKept head len q m) (λ a h. refl)

  deliver_now-IsKept :
      (packet : List ℕ) (net : Net) (m : Memory)
      → IsKept mem_size m (deliver_now mem_size packet net m).2
  unfolding deliver_now
  deliver_now-IsKept packet net m =
      let q : Queue = net.queues 0 in
      let head : ℕ = next_head mem_size q m in
      let framed : List ℕ = frame (net_hdr_len net) packet in
      let K : Bool × Net × Memory → Type 0 = λ r. IsKept mem_size m r.2 in
      let copied : Bool × Memory = scatter mem_size q.num q.desc_addr q.num head framed m in
      let kept = scatter-IsKept q.num q.desc_addr q.num head framed m in
      if_intro K (ltb (1500 + 14 + 4) (length packet)) (λ a h. refl)
        (if_intro K (not (is_usable q)) (λ a h. refl)
          (if_intro K (q.last_avail_idx == avail_index mem_size q m) (λ a h. refl)
            (if_intro K (leb q.num head) (λ a h. refl)
              (if_intro K (not copied.0) kept (λ a h.
                finish-IsKept head (u32 (length framed)) (taken q) net copied.1 a h ∙ kept a h)))))

  flush-IsKept :
      (queue : List (List ℕ)) (net : Net) (m : Memory)
      → IsKept mem_size m (flush mem_size queue net m).1
  unfolding flush
  flush-IsKept [] net m a h = refl
  flush-IsKept (packet ∷ rest) net m a h =
      let r : Bool × Net × Memory = deliver_now mem_size packet net m in
      elim (Bool-cases r.0) [
        | inl e ↦
            rw (flush, e) (flush-IsKept rest r.1 r.2 a h ∙ deliver_now-IsKept packet net m a h)
        | inr e ↦ rw (flush, e) (deliver_now-IsKept packet net m a h)
      ]

  pub flush_rx_backlog-IsKept :
      (net : Net) (m : Memory) → IsKept mem_size m (flush_rx_backlog mem_size net m).1
  unfolding flush_rx_backlog
  flush_rx_backlog-IsKept net m =
      if_intro (λ (r : Net × Memory). IsKept mem_size m r.1) net.rx_flush_active (λ a h. refl)
        (flush-IsKept net.rx_backlog (record net { rx_flush_active = true }) m)

  put_off-IsKept :
      (queue : List (List ℕ)) (net : Net) (m : Memory)
      → IsKept mem_size m (flush_rx_backlog mem_size (record net { rx_backlog = queue }) m).1
  put_off-IsKept queue net m = flush_rx_backlog-IsKept (record net { rx_backlog = queue }) m

  behind-IsKept :
      (packet : List ℕ) (backlog : List (List ℕ)) (net : Net) (m : Memory)
      → IsKept mem_size m (deliver_behind mem_size packet backlog net m).1
  unfolding deliver_behind
  behind-IsKept packet (waiting ∷ rest) net m a h =
      put_off-IsKept (enqueue packet net.rx_backlog) net m a h
  behind-IsKept packet [] net m a h =
      let r : Bool × Net × Memory = deliver_now mem_size packet net m in
      elim (Bool-cases r.0) [
        | inl e ↦
            rw (deliver_behind, e)
              (flush_rx_backlog-IsKept r.1 r.2 a h ∙ deliver_now-IsKept packet net m a h)
        | inr e ↦
            rw (deliver_behind, e)
              (put_off-IsKept (enqueue packet r.1.rx_backlog) r.1 r.2 a h
                ∙ deliver_now-IsKept packet net m a h)
      ]

  -- A packet for the guest changes guest memory only inside it, whatever the rings and the
  -- descriptors of the guest hold.
  pub deliver_rx_packet-IsKept :
      (packet : List ℕ) (net : Net) (m : Memory)
      → IsKept mem_size m (deliver_rx_packet mem_size packet net m).1
  unfolding deliver_rx_packet
  deliver_rx_packet-IsKept packet net m = behind-IsKept packet net.rx_backlog net m
