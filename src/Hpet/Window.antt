-- ===== src/Hpet/Window.antt =====
-- The comparator of a 32-bit timer against the 64-bit counter.
use node_vmm.Prelude.{ℕ, ◌+◌, ◌-◌, ◌*◌, ◌/◌, ◌%◌, ◌^◌, ◌<◌, ◌≡◌, ap, arith, bit_and, bit_or}
use node_vmm.Bits.Fields.{bit_and_mask, bit_and_shifted, bit_or_fields}
use node_vmm.Bytes.{u32}
use node_vmm.Hpet.State.{without, distance}
use node_vmm.Hpet.Timers.{widen}

near_as_sum :
    (now cmp : ℕ)
    → now < 2 ^ 64
    → bit_or (without now 0xffffffff) (u32 cmp) ≡ now / 2 ^ 32 * 2 ^ 32 + cmp % 2 ^ 32
near_as_sum now cmp h = omega (
  arith,
  bit_and_shifted now (2 ^ 32 - 1) 32,
  bit_and_mask (now / 2 ^ 32) 32,
  ap (λ t. bit_or t (u32 cmp)) (bit_and_shifted now (2 ^ 32 - 1) 32),
  bit_or_fields (bit_and (now / 2 ^ 32) (2 ^ 32 - 1)) 32 (u32 cmp) (omega arith),
)

-- The target of a 32-bit comparator agrees with it in its low half, and lies less than a whole
-- 32-bit round ahead of the counter, also where the counter wraps at 64 bits.
pub widen_lem :
    (now cmp : ℕ)
    → now < 2 ^ 64
    → (widen now cmp % 2 ^ 32 ≡ cmp % 2 ^ 32) × (distance now (widen now cmp) < 2 ^ 32)
unfolding widen
widen_lem now cmp h = ground (arith, near_as_sum now cmp h)
