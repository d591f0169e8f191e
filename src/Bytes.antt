-- ===== src/Bytes.antt =====
-- native/common/bytes.h: checks that throw, guards against overflow, little-endian loads and stores,
-- and the deposit of a bit field. What a `uint8_t*` points into is a memory, a function from
-- addresses to bytes; a store returns the new memory.
pub mod Guards
pub mod RoundTrip
pub mod Deposit
mod Tests
use Prim.Native.String.{String}
use Prim.Native.String.{◌++◌ as str_append}
use node_vmm.Prelude.{
  ℕ, zero, suc, ◌+◌, ◌-◌, ◌*◌, ◌/◌, ◌%◌, ◌^◌, min, bit_and, bit_or, Bool, true, false, ◌||◌, ltb,
  leb, ◌==◌, if◌then◌else◌, Result, ok, err, ◌>>=◌, ◌>>◌,
}
use node_vmm.Bits.Fields.{bit_not}

abbrev pub u8 : ℕ → ℕ
u8 n = n % 2 ^ 8

abbrev pub u16 : ℕ → ℕ
u16 n = n % 2 ^ 16

abbrev pub u32 : ℕ → ℕ
u32 n = n % 2 ^ 32

abbrev pub u64 : ℕ → ℕ
u64 n = n % 2 ^ 64

abbrev pub u64_max : ℕ
u64_max = 2 ^ 64 - 1

-- Bytes by address.
abbrev pub Memory : Type 0
Memory = ℕ → ℕ

-- `p[0] = value`, the cast to `uint8_t` included.
abbrev pub poke : ℕ → ℕ → Memory → Memory
poke p value m = λ a. if a == p then u8 value else m a

unfoldable pub check : Bool → String → Result (Unit {0})
check true message = ok tt
check false message = err message

unfoldable pub checked_add : ℕ → ℕ → String → Result ℕ
unfolding check
checked_add a b what = do
  check (b == 0 || leb a (u64_max - b)) (str_append what " overflow")
  ok (u64 (a + b))

unfoldable pub checked_mul : ℕ → ℕ → String → Result ℕ
unfolding check
checked_mul a b what =
    if a == 0 || b == 0
    then ok 0
    else (do check (leb a (u64_max / b)) (str_append what " overflow"); ok (u64 (a * b)))

unfoldable pub check_range : ℕ → ℕ → ℕ → String → Result (Unit {0})
unfolding check
check_range total offset len what = do
  check (leb offset total) (str_append what " offset is out of range")
  check (leb len (total - offset)) (str_append what " length is out of range")

-- The loops of the stores, `n` rounds from index `i` on.
unfoldable pub write_bytes : ℕ → ℕ → ℕ → ℕ → Memory → Memory
write_bytes zero i p v m = m
write_bytes (suc n) i p v m =
    write_bytes n (i + 1) p v (poke (p + i) (bit_and (v / 2 ^ (8 * i)) 0xff) m)

unfoldable pub write_u16 : ℕ → ℕ → Memory → Memory
write_u16 p v m = poke (p + 1) (bit_and (v / 2 ^ 8) 0xff) (poke p (bit_and v 0xff) m)

unfoldable pub write_u32 : ℕ → ℕ → Memory → Memory
unfolding write_bytes
write_u32 p v m = write_bytes 4 0 p v m

unfoldable pub write_u64 : ℕ → ℕ → Memory → Memory
unfolding write_bytes
write_u64 p v m = write_bytes 8 0 p v m

unfoldable pub read_u16 : ℕ → Memory → ℕ
read_u16 p m = bit_or (m p) (m (p + 1) * 2 ^ 8)

unfoldable pub read_u32 : ℕ → Memory → ℕ
read_u32 p m =
    bit_or (bit_or (bit_or (m p) (m (p + 1) * 2 ^ 8)) (m (p + 2) * 2 ^ 16)) (m (p + 3) * 2 ^ 24)

-- The loop of the loads, `n` rounds from index `i` on: `v |= p[i] << (8 * i)`.
unfoldable pub read_bytes : ℕ → ℕ → ℕ → ℕ → Memory → ℕ
read_bytes zero i p v m = v
read_bytes (suc n) i p v m = read_bytes n (i + 1) p (bit_or v (u64 (m (p + i) * 2 ^ (8 * i)))) m

unfoldable pub read_u64 : ℕ → Memory → ℕ
unfolding read_bytes
read_u64 p m = read_bytes 8 0 p 0 m

-- `len` is clamped to 8 by the loops' second test.
unfoldable pub read_le : ℕ → ℕ → Memory → ℕ
unfolding read_bytes
read_le p len m = read_bytes (min len 8) 0 p 0 m

-- `WriteLe`'s loop: the cast cuts the byte off, without a mask.
unfoldable pub write_le_bytes : ℕ → ℕ → ℕ → ℕ → Memory → Memory
write_le_bytes zero i p v m = m
write_le_bytes (suc n) i p v m = write_le_bytes n (i + 1) p v (poke (p + i) (v / 2 ^ (i * 8)) m)

unfoldable pub write_le : ℕ → ℕ → ℕ → Memory → Memory
unfolding write_le_bytes
write_le p len value m = write_le_bytes (min len 8) 0 p value m

unfoldable pub deposit_bits : ℕ → ℕ → ℕ → ℕ → ℕ
deposit_bits old_value shift bits value =
    let effective : ℕ = if ltb (64 - shift) bits then 64 - shift else bits in
    let mask : ℕ = if effective == 64 then u64_max else 2 ^ effective - 1 in
    if bits == 0 || leb 64 shift
    then old_value
    else bit_or (bit_and old_value (bit_not 64 (u64 (mask * 2 ^ shift))))
        (u64 (bit_and value mask * 2 ^ shift))
