-- ===== src/Hpet/Registers.antt =====
-- The register file behind the memory window.
use node_vmm.Prelude.{
  ℕ, ◌+◌, ◌-◌, ◌*◌, ◌/◌, ◌^◌, min, bit_and, bit_or, false, not, ◌&&◌, ◌||◌, ltb, leb, ◌==◌, ◌!=◌,
  if◌then◌else◌,
}
use node_vmm.Bytes.{u32, Memory, deposit_bits, read_le, write_le}
use node_vmm.Hpet.State.{
  Timer, Slot, Hpet, hpet_base, num_timers, capabilities, cfg_enable, cfg_write_mask,
  timer_type_level, timer_enable, timer_periodic, timer_set_val, timer_32bit, timer_cfg_write_mask,
  has_bits, without, get_timer, set_timer_fields, valid_access, counter,
}
use node_vmm.Hpet.Timers.{set_timer, reprogram_timers, deassert_cleared_irqs}

unfoldable pub read_reg : ℕ → Hpet → ℕ → ℕ
unfolding counter
read_reg now h off =
    let timer_id = (off - 0x100) / 0x20 in
    let field = bit_and off 0x18 in
    if leb off 0xff
    then if off == 0x000
      then capabilities
      else if off == 0x010
      then h.config
      else if off == 0x020
      then h.isr
      else if off == 0x0f0
      then counter now h
      else 0
    else if leb num_timers timer_id
    then 0
    else if field == 0x00
    then (get_timer h timer_id).config
    else if field == 0x08
    then (get_timer h timer_id).cmp
    else 0

abbrev pub unarmed : Slot → Slot
unarmed slot = record slot { timer = record slot.timer { armed = false } }

abbrev pub disarm_all : Hpet → Hpet
disarm_all h = record h {
  slot₀ = unarmed h.slot₀;
  slot₁ = unarmed h.slot₁;
  slot₂ = unarmed h.slot₂;
}

-- The new value of the configuration register.
abbrev pub next_config : Hpet → ℕ → ℕ → ℕ → ℕ
next_config h shift bits value =
    bit_or (bit_and (deposit_bits h.config shift bits value) cfg_write_mask)
      (without h.config cfg_write_mask)

-- The reading `now` is for the counter that is stopped or started, `clock` for the timers.
unfoldable pub write_config : ℕ → (ℕ → ℕ) → ℕ → ℕ → ℕ → Hpet → Hpet
write_config now clock shift bits value h =
    let next = next_config h shift bits value in
    let was_enabled = has_bits h.config cfg_enable in
    let will_enable = has_bits next cfg_enable in
    let stopped =
      if was_enabled && not will_enable then record h { counter_base = counter now h } else h in
    let set = record stopped { config = next } in
    let started =
      if not was_enabled && will_enable then record set { counter_started_at = now } else set in
    if will_enable
    then reprogram_timers clock started
    else (let disarmed = disarm_all started in
        deassert_cleared_irqs disarmed.isr (record disarmed { isr = 0 }))

abbrev pub next_timer_config : ℕ → ℕ → ℕ → ℕ → ℕ
next_timer_config old shift bits value =
    bit_or (bit_and (deposit_bits old shift bits value) timer_cfg_write_mask)
      (without old timer_cfg_write_mask)

unfoldable pub write_timer_config : ℕ → ℕ → ℕ → ℕ → ℕ → Hpet → Hpet
write_timer_config now i shift bits value h =
    let old = (get_timer h i).config in
    let next = next_timer_config old shift bits value in
    let clear_level_irq =
      has_bits old timer_type_level
      && (bit_and next timer_type_level == 0 || bit_and next timer_enable == 0) in
    let lowered =
      if clear_level_irq
      then deassert_cleared_irqs (bit_and h.isr (2 ^ i)) (record h { isr = without h.isr (2 ^ i) })
      else h in
    let timer = record (get_timer lowered i) { config = next } in
    let narrowed =
      if has_bits next timer_32bit
      then record timer { cmp = u32 timer.cmp; period = u32 timer.period }
      else timer in
    set_timer i now (set_timer_fields lowered i narrowed)

-- The assignments of `write_timer_cmp`, behind its treatment of 32-bit timers.
abbrev pub with_cmp : ℕ → ℕ → ℕ → Timer → Timer
with_cmp shift bits value timer = record timer {
  cmp =
      if bit_and timer.config timer_periodic == 0 || has_bits timer.config timer_set_val
      then deposit_bits timer.cmp shift bits value
      else timer.cmp;
  period =
      if has_bits timer.config timer_periodic
      then deposit_bits timer.period shift bits value
      else timer.period;
  config = without timer.config timer_set_val;
}

unfoldable pub write_timer_cmp : ℕ → ℕ → ℕ → ℕ → ℕ → Hpet → Hpet
unfolding set_timer
write_timer_cmp now i shift bits value h =
    let timer = get_timer h i in
    if has_bits timer.config timer_32bit
    then if shift != 0
      then h
      else set_timer i now (set_timer_fields h i (with_cmp shift 64 (u32 value) timer))
    else set_timer i now (set_timer_fields h i (with_cmp shift bits value timer))

-- A write of ones to the status register clears those bits.
unfoldable pub write_isr : ℕ → ℕ → ℕ → Hpet → Hpet
write_isr shift bits value h =
    let clear = deposit_bits 0 shift bits value in
    deassert_cleared_irqs (bit_and h.isr clear) (record h { isr = without h.isr clear })

unfoldable pub write_reg : ℕ → (ℕ → ℕ) → ℕ → ℕ → ℕ → ℕ → Hpet → Hpet
write_reg now clock off shift bits value h =
    let timer_id = (off - 0x100) / 0x20 in
    let field = bit_and off 0x18 in
    if leb off 0xff
    then if off == 0x010
      then write_config now clock shift bits value h
      else if off == 0x020
      then write_isr shift bits value h
      else if off == 0x0f0
      then if bit_and h.config cfg_enable == 0
        then record h { counter_base = deposit_bits h.counter_base shift bits value }
        else h
      else h
    else if leb num_timers timer_id
    then h
    else if field == 0x00
    then write_timer_config now timer_id shift bits value h
    else if field == 0x08
    then write_timer_cmp now timer_id shift bits value h
    else h

-- `memset(data, 0, len)`
unfoldable pub clear_bytes : ℕ → ℕ → Memory → Memory
clear_bytes dst len m = λ a. if leb dst a && ltb a (dst + len) then 0 else m a

unfoldable pub read_mmio : ℕ → Hpet → ℕ → ℕ → ℕ → Memory → Memory
read_mmio now h addr dst len m =
    let off = addr - hpet_base in
    let shift = bit_and off 4 * 8 in
    let cleared = clear_bytes dst len m in
    if not (valid_access addr len)
    then cleared
    else write_le dst len (read_reg now h (without off 4) / 2 ^ shift) cleared

unfoldable pub write_mmio : ℕ → (ℕ → ℕ) → Hpet → ℕ → ℕ → ℕ → Memory → Hpet
write_mmio now clock h addr src len m =
    let off = addr - hpet_base in
    let shift = bit_and off 4 * 8 in
    let bits = min (len * 8) (64 - shift) in
    if not (valid_access addr len)
    then h
    else write_reg now clock (without off 4) shift bits (read_le src len m) h
