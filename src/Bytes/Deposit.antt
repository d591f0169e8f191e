-- ===== src/Bytes/Deposit.antt =====
-- What `DepositBits` does to each bit.
use native.Mathlib.Nat.{pow-suc, one-le-pow, mod-eq_of_lt}
use node_vmm.Prelude.{
  ℕ, zero, suc, ◌+◌, ◌-◌, ◌*◌, ◌/◌, ◌%◌, ◌^◌, ◌<◌, bit_and, bit_or, ◌≡◌, ◌∙◌, ap, arith, dec_lt,
  ℕ_discrete, ltb, leb, ◌&&◌, ◌==◌, if◌then◌else◌,
}
use node_vmm.Bits.{bit_at, bit_at-and, bit_at-or, bit_at-le, bit_at-zero}
use node_vmm.Bits.Fields.{
  bit_at-shl, bit_at-mod, bit_at-not, bit_and_mask, bit_not, bit_or-lt, bit_and-le,
}
use node_vmm.Bytes.{deposit_bits, u64, u64_max}

-- A shift to the left fills with zeros.
bit_at-shl_below : (x s k : ℕ) → k < s → bit_at (x * 2 ^ s) k ≡ 0
bit_at-shl_below x zero k h = absurd (omega arith)
bit_at-shl_below x (suc s) zero h = omega (arith, ap (λ (t : ℕ). x * t) (pow-suc 2 s))
bit_at-shl_below x (suc s) (suc k) h =
    ap (λ t. bit_at t k) halved ∙ bit_at-shl_below x s k (omega arith)
  where
    halved : x * 2 ^ suc s / 2 ≡ x * 2 ^ s
    halved = omega (arith, ap (λ (t : ℕ). x * t) (pow-suc 2 s))

-- Bit `k` of a field of `e` bits at `s`, cut to 64 bits.
bit_at-field :
    (x e s k : ℕ)
    → k < 64
    → bit_at (u64 (x % 2 ^ e * 2 ^ s)) k
      ≡ (if leb s k && ltb k (s + e) then bit_at x (k - s) else 0)
bit_at-field x e s k h = elim (dec_lt k s) [
  | yes p ↦ ground (arith, bit_at-mod (x % 2 ^ e * 2 ^ s) 64 k, bit_at-shl_below (x % 2 ^ e) s k)
  | no p ↦ ground (
    arith,
    bit_at-mod (x % 2 ^ e * 2 ^ s) 64 k,
    ap (λ t. bit_at (x % 2 ^ e * 2 ^ s) t) (let q : s + (k - s) ≡ k = omega arith in q),
    bit_at-shl (x % 2 ^ e) s (k - s),
    bit_at-mod x e (k - s),
  )
]

-- The mask of the source is the one of `e` bits, at 64 bits too.
mask-eq : (e : ℕ) → (if e == 64 then u64_max else 2 ^ e - 1) ≡ 2 ^ e - 1
mask-eq e = elim (ℕ_discrete e 64) [ yes p ↦ rw p | no p ↦ ground arith ]

-- The all-ones mask of `e` bits is its own remainder.
mask-mod : (e : ℕ) → (2 ^ e - 1) % 2 ^ e ≡ 2 ^ e - 1
mask-mod e = mod-eq_of_lt (omega (arith, one-le-pow e 2 (omega arith)))

-- Bit `k` of the mask of `e` ones at `s`.
bit_at-mask :
    (e s k : ℕ)
    → k < 64
    → bit_at (u64 ((2 ^ e - 1) * 2 ^ s)) k ≡ (if leb s k && ltb k (s + e) then 1 else 0)
bit_at-mask e s k h = ground (
  arith,
  ap (λ (t : ℕ). bit_at (u64 (t * 2 ^ s)) k) (mask-mod e),
  bit_at-field (2 ^ e - 1) e s k,
  bit_at-not e 0 (k - s) (one-le-pow e 2 (omega arith)),
  bit_at-zero (k - s),
)

abbrev merged : ℕ → ℕ → ℕ → ℕ → ℕ
merged old_value s e value =
    bit_or (bit_and old_value (bit_not 64 (u64 ((2 ^ e - 1) * 2 ^ s))))
      (u64 (bit_and value (2 ^ e - 1) * 2 ^ s))

bit_at-merged :
    (old_value s e value k : ℕ)
    → k < 64
    → bit_at (merged old_value s e value) k
      ≡ (if leb s k && ltb k (s + e) then bit_at value (k - s) else bit_at old_value k)
bit_at-merged old_value s e value k h = ground (
  arith,
  bit_at-or (bit_and old_value (bit_not 64 m)) (u64 (bit_and value (2 ^ e - 1) * 2 ^ s)) k,
  bit_at-and old_value (bit_not 64 m) k,
  bit_at-not 64 m k (omega arith),
  bit_at-mask e s k,
  ap (λ (t : ℕ). bit_at (u64 (t * 2 ^ s)) k) (bit_and_mask value e),
  bit_at-field value e s k,
  bit_at-le old_value k,
)
  where
    m : ℕ
    m = u64 ((2 ^ e - 1) * 2 ^ s)

-- Bit `k`, below 64, of the result comes from the value inside the field and from the old word
-- elsewhere.
pub bit_at-deposit_bits :
    (old_value shift bits value k : ℕ)
    → k < 64
    → bit_at (deposit_bits old_value shift bits value) k ≡ (
        if leb shift k && ltb k (shift + bits)
        then bit_at value (k - shift)
        else bit_at old_value k)
unfolding deposit_bits
bit_at-deposit_bits old_value shift bits value k h = rw mask-eq (
    ground (
      arith,
      bit_at-merged old_value shift (if ltb (64 - shift) bits then 64 - shift else bits) value k,
    ))

merged-lt : (old_value s e value : ℕ) → old_value < 2 ^ 64 → merged old_value s e value < 2 ^ 64
merged-lt old_value s e value h =
    let low : bit_and old_value (bit_not 64 (u64 ((2 ^ e - 1) * 2 ^ s))) < 2 ^ 64 =
      omega (arith, bit_and-le old_value (bit_not 64 (u64 ((2 ^ e - 1) * 2 ^ s)))) in
    bit_or-lt 64 _ _ low (omega arith)

-- A deposit into a 64-bit word is a 64-bit word.
pub deposit_bits-lt :
    (old_value shift bits value : ℕ)
    → old_value < 2 ^ 64
    → deposit_bits old_value shift bits value < 2 ^ 64
unfolding deposit_bits
deposit_bits-lt old_value shift bits value h = rw mask-eq (
    ground (
      arith,
      merged-lt old_value shift (if ltb (64 - shift) bits then 64 - shift else bits) value h,
    ))
