-- ===== src/Uart/Registers.antt =====
-- The registers of the port, and what the host calls. The debug output is left out.
use node_vmm.Prelude.{
  ℕ, bit_and, bit_or, bit_xor, Bool, false, not, ◌&&◌, ◌==◌, if◌then◌else◌, List, [], ◌∷◌,
}
use node_vmm.Uart.State.{
  Uart, Terminal, ier_thri, fcr_enable, fcr_trigger_mask, lsr_dr, lsr_bi, lsr_thre, lsr_errors,
  has_bits, without,
}
use node_vmm.Uart.Lines.{
  is_empty, fifo_enabled, iir_fifo_bits, current_msr, update_msr_delta, update_interrupt,
}
use node_vmm.Uart.Receive.{drain_rx_staging, enqueue_rx, clear_rx}
use node_vmm.Uart.Console.{emit_tx}
use node_vmm.Uart.Transmit.{handle_tx_byte, clear_tx}

-- The front of the FIFO, 0 if it is empty, and the port without it.
abbrev pub pop_fifo : List ℕ → Uart → ℕ × Uart
pop_fifo [] u = (0, u)
pop_fifo (b ∷ fifo) u = (b, record u { rx_fifo = fifo })

-- Register 0 with the FIFO on, up to the update of the interrupt.
unfoldable pub read_fifo : Uart → ℕ × Uart
read_fifo u =
    let (value, popped) = pop_fifo u.rx_fifo u in
    let drained = drain_rx_staging (record popped { timeout_ipending = false }) in
    (
      value,
      if is_empty drained.rx_fifo
          then record drained { lsr = without drained.lsr lsr_dr }
          else drained,
    )

-- Register 0 with the FIFO off, up to the update of the interrupt.
unfoldable pub read_buffer : Uart → ℕ × Uart
read_buffer u =
    let taken = if has_bits u.lsr lsr_dr then record u { lsr = without u.lsr lsr_dr } else u in
    (
      if has_bits u.lsr lsr_dr then u.rbr else 0,
      drain_rx_staging (record taken { timeout_ipending = false }),
    )

unfoldable pub read_rbr : Uart → ℕ × Uart
read_rbr u =
    let (value, u') = if fifo_enabled u then read_fifo u else read_buffer u in
    (value, update_interrupt u')

abbrev pub dlab : Uart → Bool
dlab u = has_bits u.lcr 0x80

unfoldable pub read : ℕ → Uart → ℕ × Uart
read offset u =
    if offset == 0
    then (if dlab u then (u.dll, u) else read_rbr u)
    else if offset == 1
    then (if dlab u then u.dlh else u.ier, u)
    else if offset == 2
    then (
      bit_or (iir_fifo_bits u) u.iir,
      if bit_and u.iir 0x0f == 0x02
          then update_interrupt (record u { thr_ipending = false })
          else u,
    )
    else if offset == 3
    then (u.lcr, u)
    else if offset == 4
    then (u.mcr, u)
    else if offset == 5
    then (
      u.lsr,
      if has_bits u.lsr lsr_errors
          then update_interrupt (record u { lsr = without u.lsr lsr_errors })
          else u,
    )
    else if offset == 6
    then (current_msr u, update_interrupt (record u { msr = bit_and u.msr 0xf0 }))
    else if offset == 7
    then (u.scr, u)
    else (0, u)

unfoldable pub write_ier : ℕ → Uart → Uart
unfolding update_interrupt
write_ier value u =
    let ier = bit_and value 0x0f in
    update_interrupt (record u {
      ier = ier;
      thr_ipending =
          if has_bits (bit_xor u.ier ier) ier_thri
          then has_bits ier ier_thri && has_bits u.lsr lsr_thre
          else u.thr_ipending;
    })

unfoldable pub write_fcr : ℕ → Uart → Uart
unfolding clear_rx drain_rx_staging clear_tx update_interrupt
write_fcr value u =
    let set = record u { fcr = bit_and value (bit_or fcr_enable fcr_trigger_mask) } in
    let received = if has_bits value 0x02 then clear_rx set else drain_rx_staging set in
    update_interrupt (if has_bits value 0x04 then clear_tx received else received)

unfoldable pub write_lcr : ℕ → Uart → Uart
unfolding update_interrupt
write_lcr value u =
    let set = record u { lcr = value } in
    update_interrupt (
      if has_bits value 0x40 && not (has_bits u.lcr 0x40)
      then record set { lsr = bit_or u.lsr (bit_or lsr_bi lsr_dr); rbr = 0 }
      else set)

unfoldable pub write_mcr : ℕ → Uart → Uart
unfolding current_msr update_msr_delta update_interrupt
write_mcr value u =
    let set = record u { mcr = bit_and value 0x1f } in
    update_interrupt (update_msr_delta (current_msr u) (current_msr set) set)

unfoldable pub write : Terminal → ℕ → ℕ → Uart → Uart
unfolding handle_tx_byte write_ier write_fcr write_lcr write_mcr
write terminal offset value u =
    if offset == 0
    then (if dlab u then record u { dll = value } else handle_tx_byte terminal value u)
    else if offset == 1
    then (if dlab u then record u { dlh = value } else write_ier value u)
    else if offset == 2
    then write_fcr value u
    else if offset == 3
    then write_lcr value u
    else if offset == 4
    then write_mcr value u
    else if offset == 7
    then record u { scr = value }
    else u

-- Host bytes for the guest; the count accepted.
unfoldable pub receive : List ℕ → Uart → ℕ × Uart
unfolding enqueue_rx
receive bytes u = enqueue_rx false bytes u

-- The paravirtual console port.
unfoldable pub emit_bytes : List ℕ → Uart → Uart
unfolding emit_tx
emit_bytes bytes u = emit_tx bytes u
