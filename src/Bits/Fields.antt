-- ===== src/Bits/Fields.antt =====
-- Masks, fields and shifts as arithmetic, and what each does to the bits.
use Prim.Native.Nat.add
use native.Mathlib.Nat.{
  pow-suc, one-le-pow, mod-eq_of_lt, div-div-eq-div-mul, mod-eq-sub-mul-div, mul-div-le, mul-one,
  div-one,
}
use node_vmm.Prelude.{
  ℕ, zero, suc, ◌+◌, ◌-◌, ◌*◌, ◌/◌, ◌%◌, ◌^◌, ◌≤◌, ◌<◌, max, bit_and, bit_or, ◌≡◌, ◌∙◌, ap, ap₂,
  arith, ltb, dec_lt, if◌then◌else◌,
}
use node_vmm.Bits.Step.{bit_and-div, bit_and-mod, bit_or-div, bit_or-mod}
use node_vmm.Bits.{bit_at, bit_at-le, bit_at-zero, bit_at-and, bit_at-or, bit_ext}

-- `2 ^ suc s` halves, in products, quotients and remainders.
mul-pow-half : (x s : ℕ) → x * 2 ^ suc s / 2 ≡ x * 2 ^ s
mul-pow-half x s = omega (arith, ap (λ (t : ℕ). x * t) (pow-suc 2 s))

div-pow-suc : (x s : ℕ) → x / 2 ^ suc s ≡ x / 2 / 2 ^ s
div-pow-suc x s = rw (pow-suc, div-div-eq-div-mul) (ap (λ t. x / t) (omega arith))

-- With `p` for `2 ^ s * (x / 2 / 2 ^ s)`, the remainders are `x - 2 * p` and `x / 2 - p`.
mod-pow-suc : (x s : ℕ) → x % 2 ^ suc s ≡ x / 2 % 2 ^ s * 2 + x % 2
mod-pow-suc x s = omega (
  arith,
  mod-eq-sub-mul-div x (2 ^ suc s),
  ap₂ (λ (a b : ℕ). a * b) (pow-suc 2 s) (div-pow-suc x s),
  mod-eq-sub-mul-div (x / 2) (2 ^ s),
  mul-div-le (x / 2) (2 ^ s),
)

-- Bits of a shifted number.
pub bit_at-shl : (x s k : ℕ) → bit_at (x * 2 ^ s) (s + k) ≡ bit_at x k
bit_at-shl x zero k = rw (add.zero, mul-one)
bit_at-shl x (suc s) k =
    rw add.suc (ap (λ t. bit_at t (s + k)) (mul-pow-half x s) ∙ bit_at-shl x s k)

pub bit_at-shr : (x s k : ℕ) → bit_at (x / 2 ^ s) k ≡ bit_at x (s + k)
bit_at-shr x zero k = rw (add.zero, div-one)
bit_at-shr x (suc s) k =
    rw add.suc (ap (λ t. bit_at t k) (div-pow-suc x s) ∙ bit_at-shr (x / 2) s k)

pub bit_at-mod : (x w k : ℕ) → bit_at (x % 2 ^ w) k ≡ (if ltb k w then bit_at x k else 0)
bit_at-mod x zero k = ground (arith, bit_at-zero k)
bit_at-mod x (suc w) zero = ground (arith, mod-pow-suc x w)
bit_at-mod x (suc w) (suc k) =
    ap (λ t. bit_at t k)
      (let e : x % 2 ^ suc w / 2 ≡ x / 2 % 2 ^ w = omega (arith, mod-pow-suc x w) in e)
    ∙ (bit_at-mod (x / 2) w k ∙ ground arith)

pub bit_at_of_lt : (x w k : ℕ) → x < 2 ^ w → w ≤ k → bit_at x k ≡ 0
bit_at_of_lt x w k h p = ground (arith, bit_at-mod x w k, mod-eq_of_lt h)

-- `~y` on `w` bits.
abbrev pub bit_not : ℕ → ℕ → ℕ
bit_not w y = 2 ^ w - 1 - y

pub bit_at-not : (w y k : ℕ) → y < 2 ^ w → k < w → bit_at (bit_not w y) k ≡ 1 - bit_at y k
bit_at-not zero y k h p = absurd (omega arith)
bit_at-not (suc w) y zero h p = omega (arith, pow-suc 2 w)
bit_at-not (suc w) y (suc k) h p =
    ap (λ t. bit_at t k) halved ∙ bit_at-not w (y / 2) k (omega (arith, pow-suc 2 w)) (omega arith)
  where
    halved : bit_not (suc w) y / 2 ≡ bit_not w (y / 2)
    halved = omega (arith, pow-suc 2 w)

-- A mask of the `w` lowest bits keeps the remainder by `2 ^ w`.
pub bit_and_mask : (x w : ℕ) → bit_and x (2 ^ w - 1) ≡ x % 2 ^ w
bit_and_mask x w = bit_ext _ _ λ k. elim (dec_lt k w) [
  | yes p ↦ ground (
    arith,
    bit_at-and x (2 ^ w - 1) k,
    bit_at-not w 0 k (one-le-pow w 2 (omega arith)) p,
    bit_at-zero k,
    bit_at-mod x w k,
    bit_at-le x k,
  )
  | no p ↦ ground (
    arith,
    bit_at-and x (2 ^ w - 1) k,
    bit_at_of_lt (2 ^ w - 1) w k (omega (arith, one-le-pow w 2 (omega arith))) (omega arith),
    bit_at-mod x w k,
  )
]

pub bit_or-zero : (x : ℕ) → bit_or x 0 ≡ x
bit_or-zero x =
    bit_ext _ _
      λ k. omega (arith, bit_at-or x 0 k, ap (λ (t : ℕ). max (bit_at x k) t) (bit_at-zero k))

pub bit_and-zero : (x : ℕ) → bit_and x 0 ≡ 0
bit_and-zero x = bit_ext _ _ λ k. omega (arith, bit_at-and x 0 k, bit_at-zero k)

pub bit_or_comm : (a b : ℕ) → bit_or a b ≡ bit_or b a
bit_or_comm a b = bit_ext _ _ λ k. omega (arith, bit_at-or a b k, bit_at-or b a k)

-- A field above `s` bits joined to one below them.
pub bit_or_fields : (x s y : ℕ) → y < 2 ^ s → bit_or (x * 2 ^ s) y ≡ x * 2 ^ s + y
bit_or_fields x zero y h = let e : y ≡ 0 = omega arith in rw (e, mul-one, bit_or-zero) (omega arith)
bit_or_fields x (suc s) y h = omega (
  arith,
  mul-pow-half x s,
  ap (λ (t : ℕ). x * t) (pow-suc 2 s),
  pow-suc 2 s,
  bit_or-div (x * 2 ^ suc s) y,
  bit_or-mod (x * 2 ^ suc s) y,
  ap (λ t. bit_or t (y / 2)) (mul-pow-half x s),
  bit_or_fields x s (y / 2) (omega (arith, pow-suc 2 s)),
)

-- Testing a single bit.
pub bit_and_pow : (x k : ℕ) → bit_and x (2 ^ k) ≡ bit_at x k * 2 ^ k
bit_and_pow x zero = omega (arith, bit_and-div x 1, bit_and-mod x 1, bit_and-zero (x / 2))
bit_and_pow x (suc k) = omega (
  arith,
  pow-suc 2 k,
  ap (λ (t : ℕ). bit_at (x / 2) k * t) (pow-suc 2 k),
  bit_and-div x (2 ^ suc k),
  bit_and-mod x (2 ^ suc k),
  ap (λ t. bit_and (x / 2) t) (let e : 2 ^ suc k / 2 ≡ 2 ^ k = omega (arith, pow-suc 2 k) in e),
  bit_and_pow (x / 2) k,
)

zero-bit_and : (b : ℕ) → bit_and 0 b ≡ 0
zero-bit_and b = bit_ext _ _ λ k. omega (arith, bit_at-and 0 b k, bit_at-zero k)

bit_and-le_below : (n a b : ℕ) → a ≤ n → bit_and a b ≤ a
bit_and-le_below n zero b h = omega (arith, zero-bit_and b)
bit_and-le_below zero (suc a) b h = absurd (omega arith)
bit_and-le_below (suc n) (suc a) b h = omega (
  arith,
  bit_and-div (suc a) b,
  bit_and-mod (suc a) b,
  bit_and-le_below n (suc a / 2) (b / 2) (omega arith),
)

pub bit_and-le : (a b : ℕ) → bit_and a b ≤ a
bit_and-le a b = bit_and-le_below a a b (omega arith)

pub bit_and_comm : (a b : ℕ) → bit_and a b ≡ bit_and b a
bit_and_comm a b = bit_ext _ _ λ k. omega (arith, bit_at-and a b k, bit_at-and b a k)

pub bit_or-lt : (w a b : ℕ) → a < 2 ^ w → b < 2 ^ w → bit_or a b < 2 ^ w
bit_or-lt zero a b p q =
    let ea : a ≡ 0 = omega arith in
    let eb : b ≡ 0 = omega arith in omega (arith, ap₂ bit_or ea eb, bit_or-zero 0)
bit_or-lt (suc w) a b p q = omega (
  arith,
  pow-suc 2 w,
  bit_or-div a b,
  bit_or-lt w (a / 2) (b / 2) (omega (arith, pow-suc 2 w)) (omega (arith, pow-suc 2 w)),
)

-- A mask of a field that stands above `s` bits.
pub bit_and_shifted : (x m s : ℕ) → bit_and x (m * 2 ^ s) ≡ bit_and (x / 2 ^ s) m * 2 ^ s
bit_and_shifted x m zero = rw (mul-one, div-one, mul-one)
bit_and_shifted x m (suc s) = omega (
  arith,
  mul-pow-half m s,
  ap (λ (t : ℕ). m * t) (pow-suc 2 s),
  ap₂ (λ (a b : ℕ). bit_and a m * b) (div-pow-suc x s) (pow-suc 2 s),
  bit_and-div x (m * 2 ^ suc s),
  bit_and-mod x (m * 2 ^ suc s),
  ap (λ t. bit_and (x / 2) t) (mul-pow-half m s),
  bit_and_shifted (x / 2) m s,
)
