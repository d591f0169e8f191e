-- ===== src/Hpet/Config.antt =====
-- Writes to the configuration and to the status.
use node_vmm.Prelude.{
  ℕ, ◌+◌, ◌-◌, ◌^◌, ◌<◌, ◌≡◌, refl, ap, ◌∙◌, arith, bit_and, bit_or, leb, ltb, ◌==◌, ◌&&◌,
  if◌then◌else◌, false, Bool-cases, inl, inr, some, [],
}
use node_vmm.Bits.{bit_at, bit_at-and, bit_at-or, bit_at-le, bit_at-zero}
use node_vmm.Bits.Fields.{bit_at-not, bit_not}
use node_vmm.Bytes.{deposit_bits}
use node_vmm.Bytes.Deposit.{bit_at-deposit_bits, deposit_bits-lt}
use node_vmm.Hpet.State.{
  Hpet, Timer, cfg_enable, has_bits, without, get_timer, counter, timer_cfg_write_mask,
}
use node_vmm.Hpet.Timers.{set_timer, deassert_timer, deassert_cleared_irqs, poll_expired}
use node_vmm.Hpet.Registers.{
  next_timer_config, write_timer_config, next_config, write_config, write_isr, disarm_all,
}

-- A field of `old` deposited under a mask: a bit of the mask inside the field takes the bit of the
-- value, any other keeps its own.
bit_at-masked :
    (mask old shift bits value k : ℕ)
    → mask < 2 ^ 64
    → k < 64
    → bit_at (bit_or (bit_and (deposit_bits old shift bits value) mask) (without old mask)) k ≡ (
        if bit_at mask k == 1 && (leb shift k && ltb k (shift + bits))
        then bit_at value (k - shift)
        else bit_at old k)
bit_at-masked mask old shift bits value k hm hk = ground (
  arith,
  bit_at-or (bit_and (deposit_bits old shift bits value) mask) (without old mask) k,
  bit_at-and (deposit_bits old shift bits value) mask k,
  bit_at-and old (bit_not 64 mask) k,
  bit_at-not 64 mask k hm hk,
  bit_at-deposit_bits old shift bits value k hk,
  bit_at-le mask k,
  bit_at-le old k,
  bit_at-le value (k - shift),
)

abbrev SameTimers : Hpet → Hpet → Type 0
SameTimers h d =
    (d.slot₀.timer ≡ h.slot₀.timer)
    × (d.slot₁.timer ≡ h.slot₁.timer)
    × (d.slot₂.timer ≡ h.slot₂.timer)
    × (d.config ≡ h.config)
    × (d.isr ≡ h.isr)
    × (d.counter_base ≡ h.counter_base)
    × (d.counter_started_at ≡ h.counter_started_at)

deassert_timer-SameTimers : (cleared i : ℕ) (h : Hpet) → SameTimers h (deassert_timer cleared i h)
unfolding deassert_timer
deassert_timer-SameTimers cleared i h = ground arith

deassert_cleared_irqs-SameTimers :
    (cleared : ℕ) (h : Hpet) → SameTimers h (deassert_cleared_irqs cleared h)
unfolding deassert_cleared_irqs
deassert_cleared_irqs-SameTimers cleared h = ground (
  arith,
  deassert_timer-SameTimers cleared 0 h,
  deassert_timer-SameTimers cleared 1 (deassert_timer cleared 0 h),
  deassert_timer-SameTimers cleared 2 (deassert_timer cleared 1 (deassert_timer cleared 0 h)),
)

config-set_timer :
    (i now : ℕ) (h : Hpet) → (get_timer (set_timer i now h) i).config ≡ (get_timer h i).config
unfolding set_timer
config-set_timer i now h = ground arith

config-write_timer_config :
    (now i shift bits value : ℕ) (h : Hpet)
    → (get_timer (write_timer_config now i shift bits value h) i).config
      ≡ next_timer_config (get_timer h i).config shift bits value
unfolding write_timer_config
config-write_timer_config now i shift bits value h = config-set_timer i now _ ∙ ground arith

-- A write to the configuration of a timer changes a bit only where the write mask and the written
-- field have it, and there to the bit of the value: capabilities and routes on offer are read-only.
pub bit_at-write_timer_config :
    (now i shift bits value k : ℕ) (h : Hpet)
    → k < 64
    → bit_at (get_timer (write_timer_config now i shift bits value h) i).config k ≡ (
        if bit_at timer_cfg_write_mask k == 1 && (leb shift k && ltb k (shift + bits))
        then bit_at value (k - shift)
        else bit_at (get_timer h i).config k)
bit_at-write_timer_config now i shift bits value k h hk =
    ap (λ t. bit_at t k) (config-write_timer_config now i shift bits value h)
    ∙ bit_at-masked timer_cfg_write_mask (get_timer h i).config shift bits value k (omega arith) hk

-- A write to the status register clears the bits written as ones and no other.
pub bit_at-write_isr :
    (shift bits value k : ℕ) (h : Hpet)
    → k < 64
    → bit_at (write_isr shift bits value h).isr k ≡ (
        if leb shift k && (ltb k (shift + bits) && bit_at value (k - shift) == 1)
        then 0
        else bit_at h.isr k)
unfolding write_isr
bit_at-write_isr shift bits value k h hk = ground (
  arith,
  deassert_cleared_irqs-SameTimers (bit_and h.isr (deposit_bits 0 shift bits value))
      (record h { isr = without h.isr (deposit_bits 0 shift bits value) }),
  bit_at-and h.isr (bit_not 64 (deposit_bits 0 shift bits value)) k,
  bit_at-not 64 (deposit_bits 0 shift bits value) k
      (deposit_bits-lt 0 shift bits value (omega arith)) hk,
  bit_at-deposit_bits 0 shift bits value k hk,
  bit_at-zero k,
  bit_at-le h.isr k,
  bit_at-le value (k - shift),
)

poll_expired_off :
    (fuel t : ℕ) (h : Hpet)
    → has_bits h.config cfg_enable ≡ false
    → poll_expired fuel t h ≡ some ([], h)
unfolding poll_expired
poll_expired_off fuel t h off = elim (Bool-cases (bit_and h.config cfg_enable == 0)) [
  | inl e ↦ rw e refl
  | inr e ↦ absurd (ground arith)
]

counter_off :
    (t : ℕ) (h : Hpet) → has_bits h.config cfg_enable ≡ false → counter t h ≡ h.counter_base
unfolding counter
counter_off t h off = ground arith

-- The state of a block that was turned off, before the lines of its timers are lowered.
turned_off : ℕ → ℕ → ℕ → ℕ → Hpet → Hpet
turned_off now shift bits value h = record (disarm_all h) {
  isr = 0;
  config = next_config h shift bits value;
  counter_base = counter now h;
}

write_config-turned_off :
    (now : ℕ) (clock : ℕ → ℕ) (shift bits value : ℕ) (h : Hpet)
    → has_bits (next_config h shift bits value) cfg_enable ≡ false
    → write_config now clock shift bits value h
      ≡ deassert_cleared_irqs h.isr (turned_off now shift bits value h)
unfolding write_config turned_off
write_config-turned_off now clock shift bits value h off =
    elim (Bool-cases (has_bits h.config cfg_enable)) [
      | inl e ↦ rw (off, e) refl
      | inr e ↦ rw (off, e, counter_off now h e) refl
    ]

-- A write to the configuration register that leaves the block off disarms all timers, clears the
-- status, makes a poll give nothing, and freezes the counter at its value.
pub write_config_off :
    (now : ℕ) (clock : ℕ → ℕ) (shift bits value : ℕ) (h : Hpet)
    → has_bits (next_config h shift bits value) cfg_enable ≡ false
    → let h' = write_config now clock shift bits value h in
      (h'.isr ≡ 0)
      × (h'.slot₀.timer.armed ≡ false)
      × (h'.slot₁.timer.armed ≡ false)
      × (h'.slot₂.timer.armed ≡ false)
      × ((fuel t : ℕ) → poll_expired fuel t h' ≡ some ([], h'))
      × ((t : ℕ) → counter t h' ≡ counter now h)
unfolding turned_off
write_config_off now clock shift bits value h off =
    let (s₀, s₁, s₂, c, i, b, a) =
      deassert_cleared_irqs-SameTimers h.isr (turned_off now shift bits value h) in
    let still : has_bits (deassert_cleared_irqs h.isr (turned_off now shift bits value h)).config
          cfg_enable
        ≡ false =
      ap (λ t. has_bits t cfg_enable) c ∙ off in
    rw (write_config-turned_off now clock shift bits value h off) (
      i,
      ap (λ (t : Timer). t.armed) s₀,
      ap (λ (t : Timer). t.armed) s₁,
      ap (λ (t : Timer). t.armed) s₂,
      (λ fuel t. poll_expired_off fuel t _ still),
      (λ t. counter_off t _ still ∙ b),
    )
