-- ===== src/Bytes/RoundTrip.antt =====
-- Little-endian loads and stores, one after the other.
use native.Mathlib.Nat.{
  pow-suc, one-le-pow, pow-le-pow_right, mul-le-mul, add_assoc, mod-eq_of_lt, div-div-eq-div-mul,
  mod-eq-sub-mul-div, mul-div-le, div-one,
}
use native.Mathlib.Numerals.{add-one}
use native.Mathlib.Nat.{mul_comm}
use mathlib.Core.Path.{fun_ext}
use node_vmm.Prelude.{
  ℕ, zero, suc, ◌+◌, ◌*◌, ◌/◌, ◌%◌, ◌^◌, ◌≤◌, ◌<◌, min, bit_and, bit_or, ◌≡◌, refl, ◌∙◌, ap, ap₂,
  arith, ℕ_discrete, ◌⊎◌, inl,
}
use node_vmm.Bits.Fields.{bit_and_mask, bit_or_fields, bit_or_comm, bit_or-lt}
use node_vmm.Bytes.{
  Memory, poke, u8, u64, write_bytes, write_le_bytes, write_u64, read_u16, read_u64, read_bytes,
  read_le, write_le,
}

abbrev pub IsBytes : Memory → Type 0
IsBytes m = (a : ℕ) → m a < 256

-- The number that `n` bytes from `p` on hold, lowest byte first.
pub little_endian : ℕ → ℕ → Memory → ℕ
little_endian zero p m = 0
little_endian (suc n) p m = m p + 256 * little_endian n (p + 1) m

pow-byte : (i : ℕ) → 2 ^ (8 * suc i) ≡ 256 * 2 ^ (8 * i)
pow-byte i =
    let e : 8 * suc i ≡ suc (suc (suc (suc (suc (suc (suc (suc (8 * i)))))))) = omega arith in
    rw e (simp pow-suc (omega arith))

div-pow-byte : (v k : ℕ) → v / 2 ^ (8 * suc k) ≡ v / 256 / 2 ^ (8 * k)
div-pow-byte v k = rw (pow-byte, div-div-eq-div-mul)

mod-pow-byte : (v k : ℕ) → v % 2 ^ (8 * suc k) ≡ v % 256 + 256 * (v / 256 % 2 ^ (8 * k))
mod-pow-byte v k = omega (
  arith,
  mod-eq-sub-mul-div v (2 ^ (8 * suc k)),
  ap₂ (λ (a b : ℕ). a * b) (pow-byte k) (div-pow-byte v k),
  mod-eq-sub-mul-div (v / 256) (2 ^ (8 * k)),
  mul-div-le (v / 256) (2 ^ (8 * k)),
)

-- A store of `n` bytes from index `i` on leaves all other bytes alone.
pub write_bytes_outside :
    (n i p v a : ℕ) (m : Memory) → (a < p + i) ⊎ (p + i + n ≤ a) → write_bytes n i p v m a ≡ m a
unfolding write_bytes
write_bytes_outside zero i p v a m h = refl
write_bytes_outside (suc n) i p v a m h =
    write_bytes_outside n (i + 1) p v a (poke (p + i) (bit_and (v / 2 ^ (8 * i)) 0xff) m)
      (omega arith)
    ∙ ground arith

-- It puts byte `k` of the value at index `k`.
pub write_bytes_inside :
    (n i p v k : ℕ) (m : Memory)
    → i ≤ k
    → k < i + n
    → write_bytes n i p v m (p + k) ≡ u8 (v / 2 ^ (8 * k))
unfolding write_bytes
write_bytes_inside zero i p v k m g h = absurd (omega arith)
write_bytes_inside (suc n) i p v k m g h = elim (ℕ_discrete k i) [
  | yes e ↦ rw e (
      write_bytes_outside n (i + 1) p v (p + i) _ (inl (omega arith))
      ∙ ground (arith, bit_and_mask (v / 2 ^ (8 * i)) 8))
  | no ne ↦ write_bytes_inside n (i + 1) p v k _ (omega arith) (omega arith)
]

pub little_endian_stored :
    (n p v : ℕ) (m : Memory)
    → ((k : ℕ) → k < n → m (p + k) ≡ u8 (v / 2 ^ (8 * k)))
    → little_endian n p m ≡ v % 2 ^ (8 * n)
unfolding little_endian
little_endian_stored zero p v m h = omega arith
little_endian_stored (suc n) p v m h = omega (
  arith,
  mod-pow-byte v n,
  first,
  little_endian_stored n (p + 1) (v / 256) m
      λ k q. ap m (omega arith) ∙ (h (suc k) (omega arith) ∙ ap u8 (div-pow-byte v k)),
)
  where
    first : m p ≡ v % 256
    first = ap m (omega arith) ∙ (h 0 (omega arith) ∙ ap u8 (div-one v))

pow-le-64 : (i : ℕ) → i < 8 → 2 ^ (8 * suc i) ≤ 2 ^ 64
pow-le-64 i h = pow-le-pow_right (omega arith) {j = 64} (omega arith)

-- The loop of the loads adds the bytes that are left, above those that it has.
pub read_bytes_lem :
    (n i p v : ℕ) (m : Memory)
    → IsBytes m
    → v < 2 ^ (8 * i)
    → i + n ≤ 8
    → read_bytes n i p v m ≡ v + 2 ^ (8 * i) * little_endian n (p + i) m
unfolding read_bytes little_endian
read_bytes_lem zero i p v m b f h = omega arith
read_bytes_lem (suc n) i p v m b f h =
    ap (λ x. read_bytes n (i + 1) p x m) joined
    ∙ (read_bytes_lem n (i + 1) p (m (p + i) * 2 ^ (8 * i) + v) m b (omega (arith, below, next))
          (omega arith)
        ∙ omega (
          arith,
          ap (λ (t : ℕ). t * little_endian n (p + (i + 1)) m) next,
          ap (λ t. 2 ^ (8 * i) * little_endian n t m) (add_assoc p i 1),
        ))
  where
    below : m (p + i) * 2 ^ (8 * i) ≤ 255 * 2 ^ (8 * i)
    below =
        mul-le-mul {n₁ = m (p + i)} {m₁ = 2 ^ (8 * i)} {n₂ = 255} (omega (arith, b (p + i)))
          (omega arith)

    next : 2 ^ (8 * (i + 1)) ≡ 256 * 2 ^ (8 * i)
    next = rw add-one (pow-byte i)

    fits : m (p + i) * 2 ^ (8 * i) < 2 ^ 64
    fits =
        omega
          (arith, below, pow-byte i, pow-le-64 i (omega arith), one-le-pow (8 * i) 2 (omega arith))

    joined : bit_or v (u64 (m (p + i) * 2 ^ (8 * i))) ≡ m (p + i) * 2 ^ (8 * i) + v
    joined = rw (mod-eq_of_lt fits, bit_or_comm v _) (bit_or_fields (m (p + i)) (8 * i) v f)

-- `WriteLe` stores the same bytes as the masked loop.
write_le_bytes-eq : (n i p v : ℕ) (m : Memory) → write_le_bytes n i p v m ≡ write_bytes n i p v m
unfolding write_le_bytes write_bytes
write_le_bytes-eq zero i p v m = refl
write_le_bytes-eq (suc n) i p v m =
    ap (write_le_bytes n (i + 1) p v) same ∙ write_le_bytes-eq n (i + 1) p v _
  where
    same : poke (p + i) (v / 2 ^ (i * 8)) m ≡ poke (p + i) (bit_and (v / 2 ^ (8 * i)) 0xff) m
    same = fun_ext λ a. rw (mul_comm i 8) (ground (arith, bit_and_mask (v / 2 ^ (8 * i)) 8))

-- A store touches `len` bytes, 8 at most, and no other.
pub write_le_outside :
    (p len v a : ℕ) (m : Memory) → (a < p) ⊎ (p + min len 8 ≤ a) → write_le p len v m a ≡ m a
unfolding write_le
write_le_outside p len v a m h =
    ap (λ f. f a) (write_le_bytes-eq (min len 8) 0 p v m)
    ∙ write_bytes_outside (min len 8) 0 p v a m (omega arith)

poke-IsBytes : (p v : ℕ) (m : Memory) → IsBytes m → IsBytes (poke p v m)
poke-IsBytes p v m b a = ground (arith, b a)

pub write_bytes-IsBytes : (n i p v : ℕ) (m : Memory) → IsBytes m → IsBytes (write_bytes n i p v m)
unfolding write_bytes
write_bytes-IsBytes zero i p v m b = b
write_bytes-IsBytes (suc n) i p v m b =
    write_bytes-IsBytes n (i + 1) p v _ (poke-IsBytes (p + i) _ m b)

-- What is loaded from the `n` bytes just stored.
read_bytes-write_bytes :
    (n p v : ℕ) (m : Memory)
    → n ≤ 8
    → IsBytes m
    → read_bytes n 0 p 0 (write_bytes n 0 p v m) ≡ v % 2 ^ (8 * n)
read_bytes-write_bytes n p v m h b =
    read_bytes_lem n 0 p 0 _ (write_bytes-IsBytes n 0 p v m b) (omega arith) (omega arith)
    ∙ omega (
      arith,
      ap (λ t. little_endian n t (write_bytes n 0 p v m)) (let e : p + 0 ≡ p = omega arith in e),
      little_endian_stored n p v (write_bytes n 0 p v m)
          λ k q. write_bytes_inside n 0 p v k m (omega arith) (omega arith),
    )

-- In a memory of bytes, loading the `len` bytes that `WriteLe` stored gives the value back, cut to
-- those bytes.
pub read_le-write_le :
    (p len v : ℕ) (m : Memory)
    → IsBytes m
    → read_le p len (write_le p len v m) ≡ v % 2 ^ (8 * min len 8)
unfolding read_le write_le
read_le-write_le p len v m b =
    rw write_le_bytes-eq (read_bytes-write_bytes (min len 8) p v m (omega arith) b)

-- In a memory of bytes, `ReadU64` gives back the 64-bit value that `WriteU64` stored.
pub read_u64-write_u64 :
    (p v : ℕ) (m : Memory) → IsBytes m → v < 2 ^ 64 → read_u64 p (write_u64 p v m) ≡ v
unfolding read_u64 write_u64
read_u64-write_u64 p v m b h = read_bytes-write_bytes 8 p v m (omega arith) b ∙ omega arith

pub read_u16-lt : (p : ℕ) (m : Memory) → IsBytes m → read_u16 p m < 2 ^ 16
unfolding read_u16
read_u16-lt p m b =
    bit_or-lt 16 (m p) (m (p + 1) * 2 ^ 8) (omega (arith, b p)) (omega (arith, b (p + 1)))
