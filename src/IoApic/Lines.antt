-- ===== src/IoApic/Lines.antt =====
-- The lines at the end of an interrupt, where the hypervisor accepts all requests.
use node_vmm.Prelude.{
  ℕ, zero, suc, ◌+◌, ◌≤◌, ◌<◌, ◌≡◌, ◌≢◌, refl, ap, ◌∙◌, arith, ltb, leb, ◌==◌, ◌&&◌, not, Bool,
  true, false, if◌then◌else◌, Bool-cases, inl, inr, List, [], ◌∷◌, ℕ_discrete, bit_or,
}
use node_vmm.Bits.Flags.{is_set, is_set_bit, bit_at-clear, bit_at-set}
use node_vmm.IoApic.{
  IoApic, Control, lines, has, rte_mask, rte_remote_irr, rte_trigger_mode, set_entry, is_ended,
  without_remote_irr, accepts, queued, drain, drain_pending, request_irq, eoi_line, eoi_lines,
}

-- Clearing bit 14 changes only that flag, and setting it likewise.
pub flag-cleared :
    (e k : ℕ) → k < 64 → is_set (without_remote_irr e) k ≡ (not (k == 14) && is_set e k)
flag-cleared e k l =
    is_set_bit (without_remote_irr e) k
    ∙ rw (bit_at-clear e 64 14 k (omega arith) l, is_set_bit e k)
        (elim (Bool-cases (k == 14)) [ inl q ↦ rw q refl | inr q ↦ rw q refl ])

flag-set : (e : ℕ) → is_set (bit_or e rte_remote_irr) 14 ≡ true
flag-set e = is_set_bit (bit_or e rte_remote_irr) 14 ∙ ap (λ t. t == 1) (bit_at-set e 14 14)

module _ {P : Type 0} (request_interrupt : Control → P → Bool × P)
    (accepting : (control : Control) (p : P) → (request_interrupt control p).0 ≡ true) where
  pub drain-empties :
      (queue : List Control) (delivered : Bool) (p : P)
      → (drain request_interrupt queue delivered p).0 ≡ []
  unfolding drain
  drain-empties [] delivered p = refl
  drain-empties (control ∷ queue) delivered p =
      rw (drain, accepting control p) (drain-empties queue true (request_interrupt control p).1)

  -- The queue is empty, and line `j` is as in `apic`.
  abbrev IsSameLine : ℕ → IoApic → IoApic → Type 0
  IsSameLine j apic apic' =
      (apic'.pending ≡ [])
      × (apic'.redir j ≡ apic.redir j)
      × (apic'.line_level j ≡ apic.line_level j)

  request_irq-other :
      (irq j : ℕ) (apic : IoApic) (p : P)
      → apic.pending ≡ []
      → j ≢ irq
      → IsSameLine j apic (request_irq request_interrupt irq apic p).0
  unfolding request_irq drain_pending
  request_irq-other irq j apic p empty other =
      let apart : (j == irq) ≡ false = ground arith in
      elim (Bool-cases (accepts irq apic)) [
        | inl e ↦
            rw (request_irq, e, drain_pending)
              (drain-empties (queued irq apic).pending false p, rw apart refl, refl)
        | inr e ↦ rw (request_irq, e) (empty, refl, refl)
      ]

  request_irq-raised :
      (irq : ℕ) (apic : IoApic) (p : P)
      → accepts irq apic ≡ true
      → has (apic.redir irq) rte_trigger_mode ≡ true
      → (has ((request_irq request_interrupt irq apic p).0.redir irq) rte_remote_irr ≡ true)
        × ((request_irq request_interrupt irq apic p).0.pending ≡ [])
  unfolding request_irq drain_pending
  request_irq-raised irq apic p e mode =
      let same : (irq == irq) ≡ true = ground arith in
      rw (request_irq, e, drain_pending)
        (
          rw (same, mode) (flag-set (apic.redir irq)),
          drain-empties (queued irq apic).pending false p,
        )

  pub eoi_line-other :
      (vector irq j : ℕ) (apic : IoApic) (p : P)
      → apic.pending ≡ []
      → j ≢ irq
      → IsSameLine j apic (eoi_line request_interrupt vector irq apic p).0
  unfolding eoi_line
  eoi_line-other vector irq j apic p empty other =
      let apart : (j == irq) ≡ false = ground arith in
      let cleared : IoApic = set_entry irq (without_remote_irr (apic.redir irq)) apic in
      elim (Bool-cases (is_ended vector irq apic)) [
        | inr e ↦ rw (eoi_line, e) (empty, refl, refl)
        | inl e ↦
            elim (Bool-cases (apic.line_level irq && not (has (cleared.redir irq) rte_mask))) [
              | inr q ↦ rw (eoi_line, e, q) (empty, rw apart refl, refl)
              | inl q ↦
                  let (none_left, same, level) = request_irq-other irq j cleared p empty other in
                  rw (eoi_line, e, q) (none_left, same ∙ rw apart refl, level)
            ]
      ]

  -- Whether the line waits for the end of its interrupt, after `eoi` of a vector.
  abbrev pub waits_after : ℕ → ℕ → IoApic → Bool
  waits_after vector j apic =
      if is_ended vector j apic
      then apic.line_level j && not (has (apic.redir j) rte_mask)
      else has (apic.redir j) rte_remote_irr

  pub eoi_line-same :
      (vector irq : ℕ) (apic : IoApic) (p : P)
      → irq < 24
      → apic.pending ≡ []
      → (has ((eoi_line request_interrupt vector irq apic p).0.redir irq) rte_remote_irr
          ≡ waits_after vector irq apic)
        × ((eoi_line request_interrupt vector irq apic p).0.pending ≡ [])
  unfolding eoi_line
  eoi_line-same vector irq apic p i empty =
      let same : (irq == irq) ≡ true = ground arith in
      let e₀ : ℕ = apic.redir irq in
      let cleared : IoApic = set_entry irq (without_remote_irr e₀) apic in
      let mask : has (without_remote_irr e₀) rte_mask ≡ has e₀ rte_mask =
        flag-cleared e₀ 16 (omega arith) in
      let mask' : has (cleared.redir irq) rte_mask ≡ has e₀ rte_mask = rw same mask in
      let irr : has (without_remote_irr e₀) rte_remote_irr ≡ false =
        flag-cleared e₀ 14 (omega arith) in
      let mode : has (without_remote_irr e₀) rte_trigger_mode ≡ has e₀ rte_trigger_mode =
        flag-cleared e₀ 15 (omega arith) in
      elim (Bool-cases (is_ended vector irq apic)) [
        | inr e ↦ rw (eoi_line, e) (refl, empty)
        | inl e ↦ elim (Bool-cases (apic.line_level irq && not (has e₀ rte_mask))) [
          | inr q ↦ rw (eoi_line, e, mask', q) (rw same irr, empty)
          | inl q ↦
              let triggered : has e₀ rte_trigger_mode ≡ true = ground (arith, e) in
              let unmasked : has e₀ rte_mask ≡ false = ground (arith, q) in
              let inside : leb lines irq ≡ false = ground arith in
              let acc : accepts irq cleared ≡ true =
                rw (same, inside, mask, unmasked, irr, empty) (ground arith) in
              rw (eoi_line, e, mask', q)
                (request_irq-raised irq cleared p acc (rw same (mode ∙ triggered)))
        ]
      ]

  pub eoi_lines-waits :
      (n irq vector j : ℕ) (apic : IoApic) (p : P)
      → irq + n ≤ 24
      → apic.pending ≡ []
      → has ((eoi_lines request_interrupt vector n irq apic p).0.redir j) rte_remote_irr ≡ (
          if leb irq j && ltb j (irq + n)
          then waits_after vector j apic
          else has (apic.redir j) rte_remote_irr)
  unfolding eoi_lines
  eoi_lines-waits zero irq vector j apic p inside empty = ground arith
  eoi_lines-waits (suc n) irq vector j apic p inside empty =
      let r : IoApic × P = eoi_line request_interrupt vector irq apic p in
      elim (ℕ_discrete j irq) [
        | yes e ↦
            let (waits, empty') = eoi_line-same vector irq apic p (omega arith) empty in
            let here : (leb irq j && ltb j (irq + suc n)) ≡ true = ground arith in
            let past : (leb (irq + 1) j && ltb j (irq + 1 + n)) ≡ false = ground arith in
            eoi_lines-waits n (irq + 1) vector j r.0 r.1 (omega arith) empty'
            ∙ rw (past, here, e) waits
        | no n' ↦
            let (empty', entry, level) = eoi_line-other vector irq j apic p empty n' in
            let same : (leb (irq + 1) j && ltb j (irq + 1 + n))
                ≡ (leb irq j && ltb j (irq + suc n)) =
              ground arith in
            eoi_lines-waits n (irq + 1) vector j r.0 r.1 (omega arith) empty'
            ∙ rw (same, entry, level) refl
      ]

  pub eoi_lines-empties :
      (n irq vector : ℕ) (apic : IoApic) (p : P)
      → irq + n ≤ 24
      → apic.pending ≡ []
      → (eoi_lines request_interrupt vector n irq apic p).0.pending ≡ []
  unfolding eoi_lines
  eoi_lines-empties zero irq vector apic p inside empty = empty
  eoi_lines-empties (suc n) irq vector apic p inside empty =
      let r : IoApic × P = eoi_line request_interrupt vector irq apic p in
      let (waits, empty') = eoi_line-same vector irq apic p (omega arith) empty in
      eoi_lines-empties n (irq + 1) vector r.0 r.1 (omega arith) empty'
