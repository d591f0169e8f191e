-- ===== src/Hpet/Timers.antt =====
-- Arming, lowering and expiring the timers. An operation that reads the clock at several places
-- takes a function, from the number of the place to the reading.
use node_vmm.Prelude.{
  ℕ, zero, suc, ◌+◌, ◌^◌, bit_and, bit_or, true, false, not, ◌&&◌, ◌||◌, ltb, leb, ◌==◌, ◌!=◌,
  if◌then◌else◌, Option, none, some, List, [], ◌∷◌, ◌++◌,
}
use mathlib.Core.Option.{get_or}
use node_vmm.Bytes.{u32, u64}
use node_vmm.Hpet.State.{
  Irq, Timer, Hpet, cfg_enable, timer_type_level, timer_enable, timer_periodic, timer_32bit,
  has_bits, without, get_slot, set_slot, get_timer, set_timer_fields, distance, counter_reached,
  counter, route_for_timer,
}

-- `cmp64` of a 32-bit timer: the comparator with the counter's high half, or one half further on.
unfoldable pub widen : ℕ → ℕ → ℕ
widen now cmp =
    let near = bit_or (without now 0xffffffff) (u32 cmp) in
    if leb (2 ^ 63) (distance now near) then u64 (near + 2 ^ 32) else near

unfoldable pub set_timer : ℕ → ℕ → Hpet → Hpet
set_timer i now h =
    let timer = record (get_timer h i) { armed = false } in
    if bit_and h.config cfg_enable == 0 || bit_and timer.config timer_enable == 0
    then set_timer_fields h i timer
    else set_timer_fields h i (record timer {
      cmp64 =
          if has_bits timer.config timer_32bit then widen (counter now h) timer.cmp else timer.cmp;
      armed = true;
    })

unfoldable pub reprogram_timers : (ℕ → ℕ) → Hpet → Hpet
unfolding set_timer
reprogram_timers clock h = set_timer 2 (clock 2) (set_timer 1 (clock 1) (set_timer 0 (clock 0) h))

-- One round of `deassert_cleared_irqs`.
unfoldable pub deassert_timer : ℕ → ℕ → Hpet → Hpet
unfolding route_for_timer
deassert_timer cleared i h =
    let irq = get_or (get_slot h i).asserted (route_for_timer h i) in
    let released = set_slot h i (record (get_slot h i) { asserted = none }) in
    if bit_and cleared (2 ^ i) == 0
    then h
    else if h.irq_attached && (irq.level && ltb irq.ioapic_pin 24)
    then record released { deasserted = irq.ioapic_pin ∷ h.deasserted }
    else released

unfoldable pub deassert_cleared_irqs : ℕ → Hpet → Hpet
unfolding deassert_timer
deassert_cleared_irqs cleared h =
    deassert_timer cleared 2 (deassert_timer cleared 1 (deassert_timer cleared 0 h))

-- The `do … while` loop of `poll_expired`; `none` where the fuel has run out.
unfoldable pub catch_up : ℕ → ℕ → ℕ → ℕ → Option ℕ
catch_up zero period now cmp64 = none
catch_up (suc fuel) period now cmp64 =
    let next = u64 (cmp64 + period) in
    let rest = catch_up fuel period now next in if counter_reached now next then rest else some next

-- What an expired timer becomes; `none` where its loop does not end within the fuel.
unfoldable pub next_expiry : ℕ → ℕ → Timer → Option Timer
next_expiry fuel now timer =
    if has_bits timer.config timer_periodic && timer.period != 0
    then elim (catch_up fuel timer.period now timer.cmp64) [
      | none ↦ none
      | some cmp64 ↦ some (record timer {
        cmp64 = cmp64;
        cmp = if has_bits timer.config timer_32bit then u32 cmp64 else cmp64;
      })
    ]
    else some (record timer { armed = false })

-- The interrupts raised so far and the state.
abbrev pub Poll : Type 0
Poll = List Irq × Hpet

unfoldable pub expire_timer : ℕ → ℕ → ℕ → Poll → Option Poll
expire_timer fuel now i (irqs, h) =
    let timer = get_timer h i in
    let irq = route_for_timer h i in
    let marked =
      if has_bits timer.config timer_type_level
      then record (set_slot h i (record (get_slot h i) { asserted = some irq })) {
        isr = bit_or h.isr (2 ^ i);
      }
      else h in
    if not timer.armed || bit_and timer.config timer_enable == 0
    then some (irqs, h)
    else if not (counter_reached now timer.cmp64)
    then some (irqs, h)
    else elim (next_expiry fuel now timer) [
      | none ↦ none
      | some next ↦ some (irqs ++ irq ∷ [], set_timer_fields marked i next)
    ]

abbrev and_then : Option Poll → (Poll → Option Poll) → Option Poll
and_then none f = none
and_then (some p) f = f p

unfoldable pub poll_expired : ℕ → ℕ → Hpet → Option Poll
poll_expired fuel now h =
    if bit_and h.config cfg_enable == 0
    then some ([], h)
    else (let reading = counter now h in
        and_then (and_then (expire_timer fuel reading 0 ([], h)) (expire_timer fuel reading 1))
          (expire_timer fuel reading 2))
