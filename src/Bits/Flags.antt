-- ===== src/Bits/Flags.antt =====
-- Single bits: set, cleared, and tested as the source tests them.
use native.Mathlib.Nat.{pow-suc, one-le-pow}
use node_vmm.Prelude.{
  ℕ, zero, suc, ◌*◌, ◌/◌, ◌^◌, ◌<◌, ◌≡◌, refl, ap, ◌∙◌, arith, ◌==◌, ◌!=◌, Bool, if◌then◌else◌,
  ℕ_discrete, bit_and, bit_or,
}
use node_vmm.Bits.{bit_at, bit_at-and, bit_at-or, bit_at-le, bit_at-zero}
use node_vmm.Bits.Fields.{bit_and_pow, bit_not, bit_at-not}

pub bit_at_pow : (s k : ℕ) → bit_at (2 ^ s) k ≡ (if k == s then 1 else 0)
bit_at_pow zero zero = refl
bit_at_pow zero (suc k) = ground (arith, bit_at-zero k)
bit_at_pow (suc s) zero = ground (arith, pow-suc 2 s)
bit_at_pow (suc s) (suc k) =
    ap (λ t. bit_at t k) (let e : 2 ^ suc s / 2 ≡ 2 ^ s = omega (arith, pow-suc 2 s) in e)
    ∙ (bit_at_pow s k ∙ ground arith)

-- Whether bit `k` of `x` is set, as the source tests it.
abbrev pub is_set : ℕ → ℕ → Bool
is_set x k = bit_and x (2 ^ k) != 0

pub is_set_bit : (x k : ℕ) → is_set x k ≡ (bit_at x k == 1)
is_set_bit x k = elim (ℕ_discrete (bit_at x k) 0) [
  | yes z ↦ ground (arith, bit_and_pow x k, ap (λ (t : ℕ). t * 2 ^ k) z)
  | no n ↦
      let one : bit_at x k ≡ 1 = omega (arith, bit_at-le x k) in
      ground (arith, bit_and_pow x k, ap (λ (t : ℕ). t * 2 ^ k) one, one-le-pow k 2 (omega arith))
]

-- A bit that is set, cleared or cut out, among the bits of `x`.
pub bit_at-set : (x s k : ℕ) → bit_at (bit_or x (2 ^ s)) k ≡ (if k == s then 1 else bit_at x k)
bit_at-set x s k = elim (ℕ_discrete k s) [
  | yes e ↦
      let one : bit_at (2 ^ s) k ≡ 1 = rw (bit_at_pow, e) (ground arith) in
      ground (arith, bit_at-or x (2 ^ s) k, bit_at-le x k)
  | no n ↦
      let none_set : bit_at (2 ^ s) k ≡ 0 = rw bit_at_pow (ground arith) in
      ground (arith, bit_at-or x (2 ^ s) k, bit_at-le x k)
]

pub bit_at-clear :
    (x w s k : ℕ)
    → 2 ^ s < 2 ^ w
    → k < w
    → bit_at (bit_and x (bit_not w (2 ^ s))) k ≡ (if k == s then 0 else bit_at x k)
bit_at-clear x w s k fits h = elim (ℕ_discrete k s) [
  | yes e ↦
      let one : bit_at (2 ^ s) k ≡ 1 = rw (bit_at_pow, e) (ground arith) in
      ground
        (arith, bit_at-and x (bit_not w (2 ^ s)) k, bit_at-not w (2 ^ s) k fits h, bit_at-le x k)
  | no n ↦
      let none_set : bit_at (2 ^ s) k ≡ 0 = rw bit_at_pow (ground arith) in
      ground
        (arith, bit_at-and x (bit_not w (2 ^ s)) k, bit_at-not w (2 ^ s) k fits h, bit_at-le x k)
]

pub bit_at-only : (x s k : ℕ) → bit_at (bit_and x (2 ^ s)) k ≡ (if k == s then bit_at x s else 0)
bit_at-only x s k = elim (ℕ_discrete k s) [
  | yes e ↦
      let one : bit_at (2 ^ s) k ≡ 1 = rw (bit_at_pow, e) (ground arith) in
      ground (arith, bit_at-and x (2 ^ s) k, bit_at-le x k, ap (bit_at x) e)
  | no n ↦
      let none_set : bit_at (2 ^ s) k ≡ 0 = rw bit_at_pow (ground arith) in
      ground (arith, bit_at-and x (2 ^ s) k, bit_at-le x k)
]
