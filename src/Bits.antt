-- ===== src/Bits.antt =====
-- Bits of a native number, and what the bit operations of the machine do to them.
-- `bit_at x k` is bit `k` of `x`; two numbers with the same bits are equal.
mod Step
pub mod Fields
pub mod Flags
use Step.{bit_and-div, bit_and-mod, bit_or-div, bit_or-mod, bit_xor-div, bit_xor-mod}
use node_vmm.Prelude.{
  ℕ, zero, suc, ◌+◌, ◌-◌, ◌*◌, ◌/◌, ◌%◌, ◌^◌, ◌≤◌, ◌<◌, min, max, bit_and, bit_or, bit_xor, ◌≡◌,
  refl, ◌∙◌, ap, arith,
}

abbrev pub bit_at : ℕ → ℕ → ℕ
bit_at x zero = x % 2
bit_at x (suc k) = bit_at (x / 2) k

pub bit_at-le : (x k : ℕ) → bit_at x k ≤ 1
bit_at-le x zero = omega arith
bit_at-le x (suc k) = bit_at-le (x / 2) k

pub bit_at-zero : (k : ℕ) → bit_at 0 k ≡ 0
bit_at-zero zero = refl
bit_at-zero (suc k) = bit_at-zero k

pub bit_at-and : (a b k : ℕ) → bit_at (bit_and a b) k ≡ min (bit_at a k) (bit_at b k)
bit_at-and a b zero = bit_and-mod a b
bit_at-and a b (suc k) = ap (λ x. bit_at x k) (bit_and-div a b) ∙ bit_at-and (a / 2) (b / 2) k

pub bit_at-or : (a b k : ℕ) → bit_at (bit_or a b) k ≡ max (bit_at a k) (bit_at b k)
bit_at-or a b zero = bit_or-mod a b
bit_at-or a b (suc k) = ap (λ x. bit_at x k) (bit_or-div a b) ∙ bit_at-or (a / 2) (b / 2) k

pub bit_at-xor : (a b k : ℕ) → bit_at (bit_xor a b) k ≡ (bit_at a k + bit_at b k) % 2
bit_at-xor a b zero = bit_xor-mod a b
bit_at-xor a b (suc k) = ap (λ x. bit_at x k) (bit_xor-div a b) ∙ bit_at-xor (a / 2) (b / 2) k

-- Two numbers below a bound with the same bits are equal.
bit_ext_below : (n a b : ℕ) → a ≤ n → b ≤ n → ((k : ℕ) → bit_at a k ≡ bit_at b k) → a ≡ b
bit_ext_below zero a b p q h = omega arith
bit_ext_below (suc n) zero zero p q h = refl
bit_ext_below (suc n) a b p q h =
    omega (arith, h 0, bit_ext_below n (a / 2) (b / 2) (omega arith) (omega arith) (λ k. h (suc k)))

pub bit_ext : (a b : ℕ) → ((k : ℕ) → bit_at a k ≡ bit_at b k) → a ≡ b
bit_ext a b = bit_ext_below (a + b) a b (omega arith) (omega arith)
