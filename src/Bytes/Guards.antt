-- ===== src/Bytes/Guards.antt =====
-- The guards against overflow and ranges, against the arithmetic of numbers without a bound.
use Prim.Native.String.{String}
use native.Mathlib.Nat.{le-div_iff_mul-le}
use node_vmm.Prelude.{ℕ, ◌+◌, ◌-◌, ◌*◌, ◌^◌, ◌≤◌, ◌<◌, ◌≡◌, ◌↔◌, arith, ok}
use node_vmm.Bytes.{checked_add, checked_mul, check_range}

-- Of two 64-bit numbers, `CheckedAdd` returns the true sum exactly when it fits 64 bits, and
-- throws otherwise.
pub checked_add_iff :
    (a b r : ℕ) (what : String)
    → a < 2 ^ 64
    → b < 2 ^ 64
    → (checked_add a b what ≡ ok r) ↔ ((a + b < 2 ^ 64) × (r ≡ a + b))
unfolding checked_add
checked_add_iff a b r what ha hb = ground arith

-- `CheckedMul` returns the true product exactly when it fits 64 bits, and throws otherwise.
pub checked_mul_iff :
    (a b r : ℕ) (what : String) → (checked_mul a b what ≡ ok r) ↔ ((a * b < 2 ^ 64) × (r ≡ a * b))
unfolding checked_mul
checked_mul_iff a b r what = ground (arith, le-div_iff_mul-le {k = b} {x = a} {y = 2 ^ 64 - 1})

-- `CheckRange` accepts exactly the ranges that lie inside, also where `offset + len` is above
-- 64 bits.
pub check_range_iff :
    (total offset len : ℕ) (what : String)
    → (check_range total offset len what ≡ ok tt) ↔ (offset + len ≤ total)
unfolding check_range
check_range_iff total offset len what = ground arith
