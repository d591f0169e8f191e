-- ===== src/IoApic/Table.antt =====
-- What a write of the guest does to an entry of the redirection table.
use node_vmm.Prelude.{
  ℕ, ◌+◌, ◌-◌, ◌*◌, ◌/◌, ◌%◌, ◌^◌, ◌<◌, ◌≡◌, refl, ap, ◌∙◌, arith, ltb, ◌==◌, ◌&&◌, not, Bool, true,
  false, if◌then◌else◌, Bool-cases, inl, inr, dec_lt, bit_and, bit_or,
}
use node_vmm.Bits.{bit_at, bit_at-or}
use node_vmm.Bits.Fields.{bit_and_shifted, bit_and_mask, bit_or_fields, bit_at-mod, bit_at-shr}
use node_vmm.Bits.Flags.{is_set_bit, bit_at-clear, bit_at-only}
use node_vmm.IoApic.{
  IoApic, Control, with_low_half, without_remote_irr, rte_remote_irr, rte_trigger_mode, rte_mask,
  has, write_reg, is_entry_reg,
}

-- The low half replaced.
low_replaced_lem :
    (old value : ℕ)
    → old < 2 ^ 64
    → value < 2 ^ 32
    → bit_or (bit_and old 0xffffffff00000000) value ≡ old / 2 ^ 32 * 2 ^ 32 + value
low_replaced_lem old value h h' =
    ap (λ t. bit_or t value) (bit_and_shifted old 0xffffffff 32)
    ∙ (bit_or_fields (bit_and (old / 2 ^ 32) 0xffffffff) 32 value h'
        ∙ omega (arith, bit_and_mask (old / 2 ^ 32) 32))

bit_at-low_replaced :
    (old value k : ℕ)
    → old < 2 ^ 64
    → value < 2 ^ 32
    → bit_at (bit_or (bit_and old 0xffffffff00000000) value) k
      ≡ (if ltb k 32 then bit_at value k else bit_at old k)
bit_at-low_replaced old value k h h' =
    let x : ℕ = old / 2 ^ 32 * 2 ^ 32 + value in
    ap (λ t. bit_at t k) (low_replaced_lem old value h h') ∙ elim (dec_lt k 32) [
      | yes p ↦
          let low : x % 2 ^ 32 ≡ value = omega arith in
          ground (arith, bit_at-mod x 32 k, ap (λ t. bit_at t k) low)
      | no p ↦
          let high : x / 2 ^ 32 ≡ old / 2 ^ 32 = omega arith in
          let at : 32 + (k - 32) ≡ k = omega arith in
          ground (
            arith,
            ap (bit_at x) at,
            ap (bit_at old) at,
            bit_at-shr x 32 (k - 32),
            bit_at-shr old 32 (k - 32),
            ap (λ t. bit_at t (k - 32)) high,
          )
    ]

-- The same with the bit of the waiting request taken from the old entry.
abbrev kept_entry : ℕ → ℕ → ℕ
kept_entry old value =
    bit_or (without_remote_irr (bit_or (bit_and old 0xffffffff00000000) value))
      (bit_and old rte_remote_irr)

bit_at-kept_entry :
    (old value k : ℕ)
    → old < 2 ^ 64
    → value < 2 ^ 32
    → k < 64
    → bit_at (kept_entry old value) k
      ≡ (if k == 14 then bit_at old 14 else if ltb k 32 then bit_at value k else bit_at old k)
bit_at-kept_entry old value k h h' l =
    let entry : ℕ = bit_or (bit_and old 0xffffffff00000000) value in
    bit_at-or (without_remote_irr entry) (bit_and old rte_remote_irr) k
    ∙ rw
        (
          bit_at-clear entry 64 14 k (omega arith) l,
          bit_at-only old 14 k,
          bit_at-low_replaced old value k h h',
        )
        (elim (Bool-cases (k == 14)) [ inl e ↦ rw e (ground arith) | inr e ↦ rw e (ground arith) ])

bit_at-with_low_half :
    (old value k : ℕ)
    → old < 2 ^ 64
    → value < 2 ^ 32
    → k < 64
    → bit_at (with_low_half old value) k ≡ (
        if k == 14
        then if bit_at value 15 == 1 then bit_at old 14 else 0
        else if ltb k 32
        then bit_at value k
        else bit_at old k)
bit_at-with_low_half old value k h h' l =
    let level : has (kept_entry old value) rte_trigger_mode ≡ (bit_at value 15 == 1) =
      is_set_bit (kept_entry old value) 15
      ∙ ap (λ t. t == 1) (bit_at-kept_entry old value 15 h h' (omega arith)) in
    rw level (elim (Bool-cases (bit_at value 15 == 1)) [
      | inl e ↦ rw e (bit_at-kept_entry old value k h h' l)
      | inr e ↦ rw e (
          bit_at-clear (kept_entry old value) 64 14 k (omega arith) l
          ∙ rw (bit_at-kept_entry old value k h h' l)
              (elim (Bool-cases (k == 14)) [ inl c ↦ rw c refl | inr c ↦ rw c refl ]))
    ])

-- A write to the low half of the entry of a line that is not asserted sets the bits below 32 as
-- written, but for bit 14, the request that waits for its end: that one keeps its value in level
-- mode and is 0 in edge mode. The high half stays.
pub bit_at-write_reg :
    {P : Type 0} (request_interrupt : Control → P → Bool × P) (irq value k : ℕ) (apic : IoApic)
    (p : P)
    → irq < 24
    → apic.line_level irq ≡ false
    → apic.redir irq < 2 ^ 64
    → value < 2 ^ 32
    → k < 64
    → bit_at ((write_reg request_interrupt (0x10 + irq * 2) value apic p).0.redir irq) k ≡ (
        if k == 14
        then if bit_at value 15 == 1 then bit_at (apic.redir irq) 14 else 0
        else if ltb k 32
        then bit_at value k
        else bit_at (apic.redir irq) k)
unfolding write_reg
bit_at-write_reg request_interrupt irq value k apic p i low h h' l =
    let reg : ℕ = 0x10 + irq * 2 in
    let at : (reg - 0x10) / 2 ≡ irq = omega arith in
    let entry : not (is_entry_reg reg) ≡ false = ground arith in
    let half : ((reg - 0x10) % 2 == 1) ≡ false = ground arith in
    let calm : (has (apic.redir irq) rte_mask
          && (not (has (with_low_half (apic.redir irq) value) rte_mask) && apic.line_level irq))
        ≡ false =
      rw low (ground arith) in
    let same : (irq == irq) ≡ true = ground arith in
    rw (at, entry, half, same, calm, same) (bit_at-with_low_half (apic.redir irq) value k h h' l)
