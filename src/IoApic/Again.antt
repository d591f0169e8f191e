-- ===== src/IoApic/Again.antt =====
-- What is requested again at the end of an interrupt, where the hypervisor accepts all requests.
use node_vmm.Prelude.{
  ℕ, zero, suc, ◌+◌, ◌≡◌, ◌++◌, ◌&&◌, not, Bool, true, if◌then◌else◌, List, [], ◌∷◌,
}
use node_vmm.IoApic.{IoApic, Control, control_of, has, rte_mask, is_ended, without_remote_irr}

module _ {P : Type 0} (request_interrupt : Control → P → Bool × P)
    (accepting : (control : Control) (p : P) → (request_interrupt control p).0 ≡ true) where
  -- The requests of a queue, one after the other.
  pub hand : List Control → P → P
  hand [] p = p
  hand (control ∷ rest) p = hand rest (request_interrupt control p).1

  -- What the line asks for again at the end of an interrupt of the vector: a request made from its
  -- entry, where it waited for that end, is still asserted and not masked.
  abbrev pub asks_again : ℕ → ℕ → IoApic → List Control
  asks_again vector j apic =
      if is_ended vector j apic && (apic.line_level j && not (has (apic.redir j) rte_mask))
      then control_of j (without_remote_irr (apic.redir j)) ∷ []
      else []

  -- The same of `n` lines from `j` on, in order.
  pub all_ask : ℕ → ℕ → ℕ → IoApic → List Control
  all_ask vector zero j apic = []
  all_ask vector (suc n) j apic = asks_again vector j apic ++ all_ask vector n (j + 1) apic
