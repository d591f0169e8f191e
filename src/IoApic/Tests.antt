-- ===== src/IoApic/Tests.antt =====
-- A controller whose line 9 is a level line at vector 0x31, asserted and waiting for its end.
use node_vmm.Prelude.{ℕ, suc, ◌≡◌, refl, Bool, true, false, not, ◌&&◌, ◌==◌, if◌then◌else◌, [], ◌∷◌}
use node_vmm.IoApic.{
  IoApic, Control, rte_mask, drain, drain_pending, request_irq, eoi_line, eoi_lines, eoi,
}
use node_vmm.IoApic.Order.{Delivers, is_nil, drain_pending-Delivers}

-- A hypervisor that accepts all requests and counts them.
abbrev counting : Control → ℕ → Bool × ℕ
counting control n = (true, suc n)

abbrev in_service : IoApic
in_service = record {
  selected = 0;
  redir = λ irq. if irq == 9 then 0xc031 else rte_mask;
  line_level = λ irq. irq == 9;
  pending = [];
  woken = 0;
}

-- The line is still asserted at the end of its interrupt, so it is requested once more.
eoi_here : (eoi counting 0x31 in_service 5).1 ≡ 6
unfolding eoi eoi_lines eoi_line request_irq drain_pending drain
eoi_here = refl

abbrev waiting : IoApic
waiting = record in_service {
  pending =
      record { logical = false; level_triggered = false; destination = 0; vector = 0x40 } ∷ [];
}

drain_pending-Delivers_example :
    Delivers counting waiting.pending 5
      (drain_pending counting waiting 5).0.pending
      (drain_pending counting waiting 5).1
    × ((drain_pending counting waiting 5).0.woken ≡ (
        if is_nil (drain_pending counting waiting 5).0.pending && not (is_nil waiting.pending)
        then 1
        else 0))
drain_pending-Delivers_example = drain_pending-Delivers counting waiting 5
