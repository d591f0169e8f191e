-- ===== src/Hpet/State.antt =====
-- The state of the timer block, its counter and the routes of its interrupts. `deasserted` holds the
-- pins that were lowered through the interrupt line, latest first. Points in time are counts of
-- nanoseconds on the steady clock.
use node_vmm.Prelude.{
  ℕ, ◌+◌, ◌-◌, ◌*◌, ◌/◌, ◌^◌, bit_and, bit_or, Bool, false, ◌&&◌, ◌||◌, ltb, leb, ◌==◌, ◌!=◌,
  if◌then◌else◌, Option, none, List, [],
}
use node_vmm.Bits.Fields.{bit_not}
use node_vmm.Bytes.{u32, u64, u64_max}

pub record Irq : Type 0 where
  pub ioapic_pin : ℕ
  pub pic_irq : ℕ
  pub level : Bool

pub record Timer : Type 0 where
  pub config : ℕ
  pub cmp : ℕ
  pub cmp64 : ℕ
  pub period : ℕ
  pub armed : Bool

-- A timer with what it asserts: an element of `timers_` and one of `asserted_irqs_`.
pub record Slot : Type 0 where
  pub timer : Timer
  pub asserted : Option Irq

pub record Hpet : Type 0 where
  pub slot₀ : Slot
  pub slot₁ : Slot
  pub slot₂ : Slot
  pub config : ℕ
  pub isr : ℕ
  pub counter_base : ℕ
  pub counter_started_at : ℕ
  pub irq_attached : Bool
  pub deasserted : List ℕ

abbrev pub hpet_base : ℕ
hpet_base = 0xfed00000

abbrev pub hpet_size : ℕ
hpet_size = 0x400

abbrev pub clock_period_ns : ℕ
clock_period_ns = 10

abbrev pub num_timers : ℕ
num_timers = 3

-- `kTimer0IoApicPin`, and the mask with that bit.
abbrev pub timer0_ioapic_pin : ℕ
timer0_ioapic_pin = 2

abbrev pub int_cap : ℕ
int_cap = 2 ^ 2

-- 0x8086A001, the number of timers less one at bit 8, the period in femtoseconds at bit 32.
abbrev pub capabilities : ℕ
capabilities =
    bit_or (bit_or 0x8086a001 ((num_timers - 1) * 2 ^ 8)) (clock_period_ns * 1000000 * 2 ^ 32)

abbrev pub cfg_enable : ℕ
cfg_enable = 0x001

abbrev pub cfg_legacy : ℕ
cfg_legacy = 0x002

abbrev pub cfg_write_mask : ℕ
cfg_write_mask = 0x003

abbrev pub timer_type_level : ℕ
timer_type_level = 0x002

abbrev pub timer_enable : ℕ
timer_enable = 0x004

abbrev pub timer_periodic : ℕ
timer_periodic = 0x008

abbrev pub timer_periodic_cap : ℕ
timer_periodic_cap = 0x010

abbrev pub timer_size_cap : ℕ
timer_size_cap = 0x020

abbrev pub timer_set_val : ℕ
timer_set_val = 0x040

abbrev pub timer_32bit : ℕ
timer_32bit = 0x100

abbrev pub timer_int_route_mask : ℕ
timer_int_route_mask = 0x3e00

abbrev pub timer_cfg_write_mask : ℕ
timer_cfg_write_mask = 0x7f4e

abbrev pub has_bits : ℕ → ℕ → Bool
has_bits value mask = bit_and value mask != 0

-- `value & ~mask` on 64 bits.
abbrev pub without : ℕ → ℕ → ℕ
without value mask = bit_and value (bit_not 64 mask)

abbrev pub get_slot : Hpet → ℕ → Slot
get_slot h i = if i == 0 then h.slot₀ else if i == 1 then h.slot₁ else h.slot₂

abbrev pub set_slot : Hpet → ℕ → Slot → Hpet
set_slot h i slot =
    if i == 0
    then record h { slot₀ = slot }
    else if i == 1
    then record h { slot₁ = slot }
    else record h { slot₂ = slot }

abbrev pub get_timer : Hpet → ℕ → Timer
get_timer h i = (get_slot h i).timer

abbrev pub set_timer_fields : Hpet → ℕ → Timer → Hpet
set_timer_fields h i timer = set_slot h i (record (get_slot h i) { timer = timer })

unfoldable pub initial_slot : Slot
initial_slot = record {
  timer = record {
    config = bit_or (bit_or timer_periodic_cap timer_size_cap) (int_cap * 2 ^ 32);
    cmp = u64_max;
    cmp64 = u64_max;
    period = 0;
    armed = false;
  };
  asserted = none;
}

-- The constructor, at the time of its clock reading.
unfoldable pub initial : ℕ → Hpet
unfolding initial_slot
initial now = record {
  slot₀ = initial_slot;
  slot₁ = initial_slot;
  slot₂ = initial_slot;
  config = 0;
  isr = 0;
  counter_base = 0;
  counter_started_at = now;
  irq_attached = false;
  deasserted = [];
}

unfoldable pub valid_access : ℕ → ℕ → Bool
valid_access addr len =
    len != 0
    && (leb len 8
        && (leb hpet_base addr
            && (ltb addr (hpet_base + hpet_size) && leb len (hpet_base + hpet_size - addr))))

-- `target - now` on 64 bits.
abbrev pub distance : ℕ → ℕ → ℕ
distance now target = u64 (target + 2 ^ 64 - now)

-- Signed, it is at most 0.
unfoldable pub counter_reached : ℕ → ℕ → Bool
counter_reached now target = distance now target == 0 || leb (2 ^ 63) (distance now target)

unfoldable pub counter : ℕ → Hpet → ℕ
counter now h =
    let ticks : ℕ =
      if leb now h.counter_started_at then 0 else (now - h.counter_started_at) / clock_period_ns in
    if bit_and h.config cfg_enable == 0 then h.counter_base else u64 (h.counter_base + ticks)

unfoldable pub legacy_mode : Hpet → Bool
legacy_mode h = has_bits h.config cfg_legacy

unfoldable pub route_for_timer : Hpet → ℕ → Irq
route_for_timer h i =
    let config = (get_timer h i).config in
    let level = has_bits config timer_type_level in
    if leb i 1 && has_bits h.config cfg_legacy
    then if i == 0
      then record { ioapic_pin = timer0_ioapic_pin; pic_irq = 0; level = level }
      else record { ioapic_pin = 8; pic_irq = 8; level = level }
    else record {
      ioapic_pin = u32 (bit_and config timer_int_route_mask / 2 ^ 9);
      pic_irq = 0xff;
      level = level;
    }
