-- ===== src/Uart/Queue/Read.antt =====
-- Register 0, read by the guest.
use node_vmm.Prelude.{
  ℕ, ◌≤◌, ◌≡◌, ◌⊎◌, refl, sym, ap, ap₂, ◌∙◌, arith, if_intro, true, false, Bool-cases, inl, inr,
  List, [], ◌∷◌, ◌++◌, length,
}
use node_vmm.Uart.State.{Uart, fifo_size, lsr_dr, has_bits, without}
use node_vmm.Uart.Lines.{fifo_enabled}
use node_vmm.Uart.Receive.{drain_rx_staging}
use node_vmm.Uart.Registers.{dlab, pop_fifo, read_fifo, read_buffer, read_rbr, read}
use node_vmm.Uart.Queue.{
  waiting, IsValid, Leaves, dr_cleared, drain_rx_staging-Leaves, update_interrupt-Leaves,
}

-- The first byte that waits, 0 if none does, and the others.
abbrev pub front_or_zero : List ℕ → ℕ
front_or_zero [] = 0
front_or_zero (b ∷ bytes) = b

abbrev pub behind : List ℕ → List ℕ
behind [] = []
behind (b ∷ bytes) = bytes

pop_fifo_lem :
    (fifo : List ℕ) (u : Uart)
    → u.rx_fifo ≡ fifo
    → let (value, p) = pop_fifo fifo u in
      (value ≡ front_or_zero fifo)
      × (p.rx_fifo ≡ behind fifo)
      × (p.rx_staging ≡ u.rx_staging)
      × (p.fcr ≡ u.fcr)
pop_fifo_lem [] u e = (refl, e, refl, refl)
pop_fifo_lem (b ∷ fifo) u e = (refl, refl, refl, refl)

behind-append :
    (fifo staging : List ℕ)
    → (staging ≡ []) ⊎ (fifo_size ≤ length fifo)
    → (front_or_zero (fifo ++ staging) ≡ front_or_zero fifo)
      × (behind (fifo ++ staging) ≡ behind fifo ++ staging)
behind-append [] staging (inl e) = (ap front_or_zero e, ap behind e ∙ sym e)
behind-append [] staging (inr h) = absurd (omega arith)
behind-append (b ∷ fifo) staging h = (refl, refl)

length-behind : (xs : List ℕ) → length (behind xs) ≤ length xs
length-behind [] = omega arith
length-behind (x ∷ xs) = omega arith

-- With the FIFO on, the line status does not matter.
lsr-Leaves :
    (u d : Uart) (bytes : List ℕ) (lsr : ℕ)
    → fifo_enabled u ≡ true
    → Leaves u bytes d
    → Leaves u bytes (record d { lsr = lsr })
unfolding waiting fifo_enabled
lsr-Leaves u d bytes lsr on l = ground arith

waiting_fifo : (u : Uart) → fifo_enabled u ≡ true → waiting u ≡ u.rx_fifo ++ u.rx_staging
unfolding waiting
waiting_fifo u on = ground arith

fifo_enabled_mode : (u d : Uart) → d.fcr ≡ u.fcr → fifo_enabled d ≡ fifo_enabled u
unfolding fifo_enabled
fifo_enabled_mode u d e = ap (λ t. has_bits t 0x01) e

read_fifo-Leaves :
    (u : Uart)
    → IsValid u
    → fifo_enabled u ≡ true
    → let (value, d) = read_fifo u in
      (value ≡ front_or_zero (waiting u)) × Leaves u (behind (waiting u)) d
unfolding read_fifo
read_fifo-Leaves u v on =
    let (first, rest, same, mode) = pop_fifo_lem u.rx_fifo u refl in
    let (front, tail) = behind-append u.rx_fifo u.rx_staging (v.fifo_drained on) in
    let p : Uart = record (pop_fifo u.rx_fifo u).1 { timeout_ipending = false } in
    let l =
      drain_rx_staging-Leaves p
        (omega (arith, ap length rest, length-behind u.rx_fifo, v.fifo_bound))
        (omega (arith, ap length same, v.staging_bound)) in
    let left : Leaves u (behind (waiting u)) (drain_rx_staging p) = record {
      mode = l.mode ∙ mode;
      bytes_left =
          l.bytes_left
          ∙ (waiting_fifo p (fifo_enabled_mode u p mode ∙ on)
              ∙ (ap₂ ◌++◌ rest same ∙ sym (ap behind (waiting_fifo u on) ∙ tail)));
      valid = l.valid;
    } in
    (
      first ∙ sym (ap front_or_zero (waiting_fifo u on) ∙ front),
      if_intro (Leaves u (behind (waiting u))) _ (lsr-Leaves u (drain_rx_staging p) _ _ on left)
          left,
    )

read_buffer-Leaves :
    (u : Uart)
    → IsValid u
    → fifo_enabled u ≡ false
    → let (value, d) = read_buffer u in
      (value ≡ front_or_zero (waiting u)) × Leaves u (behind (waiting u)) d
unfolding read_buffer waiting fifo_enabled
read_buffer-Leaves u v off = elim (Bool-cases (has_bits u.lsr lsr_dr)) [
  | inl ready ↦
      let p : Uart = record u { lsr = without u.lsr lsr_dr; timeout_ipending = false } in
      let l = drain_rx_staging-Leaves p v.fifo_bound v.staging_bound in
      ground (arith, l, dr_cleared u.lsr)
  | inr free ↦
      let p : Uart = record u { timeout_ipending = false } in
      let l = drain_rx_staging-Leaves p v.fifo_bound v.staging_bound in
      ground (arith, l, v.buffer_drained off)
]

read_rbr-Leaves :
    (u : Uart)
    → IsValid u
    → let (value, d) = read_rbr u in
      (value ≡ front_or_zero (waiting u)) × Leaves u (behind (waiting u)) d
unfolding read_rbr
read_rbr-Leaves u v = elim (Bool-cases (fifo_enabled u)) [
  | inl on ↦
      let (e, l) = read_fifo-Leaves u v on in
      rw on (e, update_interrupt-Leaves u (read_fifo u).1 (behind (waiting u)) l)
  | inr off ↦
      let (e, l) = read_buffer-Leaves u v off in
      rw off (e, update_interrupt-Leaves u (read_buffer u).1 (behind (waiting u)) l)
]

-- In a valid state with the divisor latch closed, a read of register 0 gives the first byte that
-- waits, 0 if none does, and leaves the others, in order, and a valid state: with the FIFO and
-- without.
pub read_lem :
    (u : Uart)
    → IsValid u
    → dlab u ≡ false
    → let (value, u') = read 0 u in
      (value ≡ front_or_zero (waiting u)) × (waiting u' ≡ behind (waiting u)) × IsValid u'
unfolding read
read_lem u v closed = let (e, l) = read_rbr-Leaves u v in rw closed (e, l.bytes_left, l.valid)
