-- ===== src/VirtioNet/Window.antt =====
-- What the device stores, over its memory window.
use node_vmm.Prelude.{
  ℕ, zero, suc, refl, ◌∙◌, Bool, false, not, leb, ltb, length, drop, ◌==◌, ◌!=◌, if_intro,
  Bool-cases, inl, inr, Option, none, some, List, [], ◌∷◌,
}
use node_vmm.Bytes.{Memory, read_u32}
use node_vmm.VirtioRng.Ring.{IsKept}
use node_vmm.VirtioNet.State.{
  Queue, Net, can_complete, is_usable, avail_index, next_head, taken, net_hdr_len, set_queue,
}
use node_vmm.VirtioNet.Transmit.{
  Port, pad_short_frame, on_send_packet, answer, send, give_back, gather, transmit, tx_round,
  tx_loop, tx_finish, process_tx_queue,
}
use node_vmm.VirtioNet.Registers.{Wire, write_reg, write_mmio, window_offset, is_queue_reg}
use node_vmm.VirtioNet.Safety.{complete-IsKept, flush_rx_backlog-IsKept, deliver_rx_packet-IsKept}

answer-IsKept :
    (mem_size : ℕ) (packets : List (List ℕ)) (net : Net) (m : Memory)
    → IsKept mem_size m (answer mem_size packets net m).1
unfolding answer
answer-IsKept mem_size [] net m a h = refl
answer-IsKept mem_size (packet ∷ packets) net m a h =
    let r : Net × Memory = on_send_packet mem_size packet net m in
    answer-IsKept mem_size packets r.0 r.1 a h
    ∙ deliver_rx_packet-IsKept mem_size (pad_short_frame packet) net m a h

-- An access has changed guest memory only inside it.
abbrev pub AnswersInside : {S : Type 0} → ℕ → Memory → Wire S → Type 0
AnswersInside mem_size m (finished, net, m', stack) = IsKept mem_size m m'

module _ {S : Type 0} (input : List ℕ → S → S × List (List ℕ)) (mem_size : ℕ) where
  send-IsKept :
      (packet : List ℕ) (port : Port S)
      → IsKept mem_size port.memory (send input mem_size packet port).memory
  unfolding send
  send-IsKept packet port =
      let hdr_len : ℕ = net_hdr_len port.net in
      if_intro (λ (p : Port S). IsKept mem_size port.memory p.memory) (ltb hdr_len (length packet))
        (answer-IsKept mem_size (input (drop hdr_len packet) port.stack).1 port.net port.memory)
        (λ a h. refl)

  give_back-IsKept :
      (head : ℕ) (port : Port S)
      → IsKept mem_size port.memory (give_back input mem_size head port).memory
  unfolding give_back
  give_back-IsKept head port =
      let q : Queue = port.net.queues 1 in
      if_intro (λ (p : Port S). IsKept mem_size port.memory p.memory) (can_complete q)
        (complete-IsKept mem_size head 0 q port.memory) (λ a h. refl)

  transmit-IsKept :
      (head : ℕ) (processed : Bool) (port : Port S)
      → IsKept mem_size port.memory (transmit input mem_size head processed port).1.memory
  unfolding transmit
  transmit-IsKept head processed port a h =
      let q : Queue = port.net.queues 1 in
      let packet : List ℕ = gather mem_size q.num q.desc_addr q.num head [] port.memory in
      give_back-IsKept head (send input mem_size packet port) a h ∙ send-IsKept packet port a h

  tx_round-IsKept :
      (processed : Bool) (port : Port S)
      → IsKept mem_size port.memory (tx_round input mem_size processed port).1.memory
  unfolding tx_round
  tx_round-IsKept processed port =
      let q : Queue = port.net.queues 1 in
      let head : ℕ = next_head mem_size q port.memory in
      if_intro (λ (r : Bool × Port S). IsKept mem_size port.memory r.1.memory) (leb q.num head)
        (λ a h. refl)
        (transmit-IsKept head processed (record port { net = set_queue 1 (taken q) port.net }))

  tx_loop-IsKept :
      (fuel : ℕ) (processed : Bool) (port : Port S)
      → IsKept mem_size port.memory (tx_loop input mem_size fuel processed port).1.memory
  unfolding tx_loop
  tx_loop-IsKept zero processed port a h = refl
  tx_loop-IsKept (suc fuel) processed port a h =
      let q : Queue = port.net.queues 1 in
      let r : Bool × Port S = tx_round input mem_size processed port in
      elim (Bool-cases (is_usable q)) [
        | inr e ↦ rw (tx_loop, e) refl
        | inl e ↦ elim (Bool-cases (q.last_avail_idx == avail_index mem_size q port.memory)) [
          | inl e₁ ↦ rw (tx_loop, e, e₁) refl
          | inr e₁ ↦
              rw (tx_loop, e, e₁)
                (tx_loop-IsKept fuel r.0 r.1 a h ∙ tx_round-IsKept processed port a h)
        ]
      ]

  tx_finish-AnswersInside :
      (m : Memory) (r : Option Bool × Port S)
      → IsKept mem_size m r.1.memory
      → AnswersInside mem_size m (tx_finish input mem_size r)
  unfolding tx_finish
  tx_finish-AnswersInside m (none, port) k = k
  tx_finish-AnswersInside m (some processed, port) k = k

  process_tx_queue-AnswersInside :
      (attached : Bool) (fuel : ℕ) (net : Net) (m : Memory) (stack : S)
      → AnswersInside mem_size m (process_tx_queue input mem_size attached fuel net m stack)
  unfolding process_tx_queue
  process_tx_queue-AnswersInside attached fuel net m stack =
      let port : Port S = record { net = net; memory = m; stack = stack } in
      if_intro (AnswersInside mem_size m) (not attached) (λ a h. refl)
        (tx_finish-AnswersInside m (tx_loop input mem_size fuel false port)
          (tx_loop-IsKept fuel false port))

  write_reg-AnswersInside :
      (attached : Bool) (fuel off value : ℕ) (net : Net) (m : Memory) (stack : S)
      → AnswersInside mem_size m (write_reg input attached mem_size fuel off value net m stack)
  unfolding write_reg
  write_reg-AnswersInside attached fuel off value net m stack =
      let K : Wire S → Type 0 = AnswersInside mem_size m in
      if_intro K (off == 0x050)
        (if_intro K (value == 1) (process_tx_queue-AnswersInside attached fuel net m stack)
          (if_intro K (value == 0) (flush_rx_backlog-IsKept mem_size net m) (λ a h. refl)))
        (if_intro K (is_queue_reg off) (λ a h. refl) (λ a h. refl))

  -- A store to the memory window changes guest memory only inside it, whatever the register, the
  -- rings and the descriptors hold and whatever frames the stack of the host sends meanwhile, after
  -- any number of rounds of the loop over the frames of the guest, whether it has ended or not.
  pub write_mmio-AnswersInside :
      (attached : Bool) (mmio_base fuel addr src len : ℕ) (host : Memory) (net : Net) (m : Memory)
      (stack : S)
      → AnswersInside mem_size m
          (write_mmio input attached mem_size mmio_base fuel addr src len host net m stack)
  unfolding write_mmio
  write_mmio-AnswersInside attached mmio_base fuel addr src len host net m stack =
      if_intro (AnswersInside mem_size m) (len != 4) (λ a h. refl)
        (write_reg-AnswersInside attached fuel (window_offset mmio_base addr) (read_u32 src host)
          net m stack)
