-- ===== src/Uart/Lines.antt =====
-- Modem status and interrupts.
use node_vmm.Prelude.{
  ℕ, ◌+◌, bit_and, bit_or, bit_xor, Bool, true, false, not, ◌&&◌, leb, ◌==◌, if◌then◌else◌, List,
  [], ◌∷◌, length,
}
use node_vmm.Uart.State.{
  Uart, ier_rdi, ier_thri, ier_rlsi, ier_msi, fcr_enable, fcr_trigger_mask, lsr_dr, lsr_errors,
  lsr_thre, has_bits,
}

abbrev pub is_empty : List ℕ → Bool
is_empty [] = true
is_empty (x ∷ xs) = false

unfoldable pub fifo_enabled : Uart → Bool
fifo_enabled u = has_bits u.fcr fcr_enable

unfoldable pub rx_trigger_level : Uart → ℕ
rx_trigger_level u =
    let level = bit_and u.fcr fcr_trigger_mask in
    if level == 0x00
    then 1
    else if level == 0x40
    then 4
    else if level == 0x80
    then 8
    else if level == 0xc0
    then 14
    else 1

unfoldable pub rx_ready_for_interrupt : Uart → Bool
unfolding fifo_enabled rx_trigger_level
rx_ready_for_interrupt u =
    if fifo_enabled u
    then not (is_empty u.rx_fifo) && leb (rx_trigger_level u) (length u.rx_fifo)
    else has_bits u.lsr lsr_dr

unfoldable pub iir_fifo_bits : Uart → ℕ
unfolding fifo_enabled
iir_fifo_bits u = if fifo_enabled u then 0xc0 else 0x00

-- `if (test) x |= bit;`
abbrev pub or_if : Bool → ℕ → ℕ → ℕ
or_if test mask x = if test then bit_or x mask else x

unfoldable pub current_msr : Uart → ℕ
current_msr u =
    if has_bits u.mcr 0x10
    then or_if (has_bits u.mcr 0x08) 0x80 (
        or_if (has_bits u.mcr 0x04) 0x40 (
          or_if (has_bits u.mcr 0x01) 0x20 (or_if (has_bits u.mcr 0x02) 0x10 (bit_and u.msr 0x0f))))
    else u.msr

unfoldable pub update_msr_delta : ℕ → ℕ → Uart → Uart
update_msr_delta old_msr new_msr u =
    let old_status = bit_and old_msr 0xf0 in
    let new_status = bit_and new_msr 0xf0 in
    let changed = bit_xor old_status new_status in
    let delta : ℕ = or_if (has_bits changed 0x80) 0x08 (
      or_if (has_bits old_status 0x40 && not (has_bits new_status 0x40)) 0x04
        (or_if (has_bits changed 0x20) 0x02 (or_if (has_bits changed 0x10) 0x01 0))) in
    record u { msr = bit_or (bit_and new_msr 0xf0) (bit_and (bit_or u.msr delta) 0x0f) }

-- The sources of `update_interrupt_locked`, from the highest priority down: the identification and
-- whether the line is raised.
unfoldable pub interrupt_source : Uart → ℕ × Bool
unfolding rx_ready_for_interrupt current_msr
interrupt_source u =
    if has_bits u.ier ier_rlsi && has_bits u.lsr lsr_errors
    then (0x06, true)
    else if has_bits u.ier ier_rdi && u.timeout_ipending
    then (0x0c, true)
    else if has_bits u.ier ier_rdi && rx_ready_for_interrupt u
    then (0x04, true)
    else if has_bits u.ier ier_thri && (u.thr_ipending && has_bits u.lsr lsr_thre)
    then (0x02, true)
    else if has_bits u.ier ier_msi && has_bits (current_msr u) 0x0f
    then (0x00, true)
    else (0x01, false)

unfoldable pub update_interrupt : Uart → Uart
unfolding interrupt_source
update_interrupt u =
    let (iir, raise) = interrupt_source u in
    record u {
      iir = iir;
      irq_raises = if raise && u.irq_attached then u.irq_raises + 1 else u.irq_raises;
    }
