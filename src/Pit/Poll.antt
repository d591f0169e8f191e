-- ===== src/Pit/Poll.antt =====
-- IRQ0: the deadlines of the timer.
use node_vmm.Prelude.{
  ℕ, zero, suc, ◌+◌, ◌*◌, ◌≤◌, ◌<◌, ◌≡◌, ◌∙◌, true, false, arith, leb, Bool-cases, inl, inr,
}
use node_vmm.Pit.{Pit, Channel, irq_interval, catch_up, poll_irq0}

-- With enough fuel the loop stops at the first deadline after `now`, whole intervals on.
pub catch_up_lem :
    (fuel interval now next_irq : ℕ)
    → 0 < interval
    → next_irq ≤ now
    → now < next_irq + fuel
    → (k : ℕ) × (catch_up fuel interval now next_irq ≡ next_irq + suc k * interval)
      × (now < catch_up fuel interval now next_irq)
      × (catch_up fuel interval now next_irq ≤ now + interval)
unfolding catch_up
catch_up_lem zero interval now next_irq p q h = absurd (omega arith)
catch_up_lem (suc fuel) interval now next_irq p q h =
    elim (Bool-cases (leb (next_irq + interval) now)) [
      | inl late ↦
          let (k, e, after, near) =
            catch_up_lem fuel interval now (next_irq + interval) p (ground arith) (omega arith) in
          (suc k, rw late (e ∙ omega arith), rw late after, rw late near)
      | inr stop ↦ (0, rw stop (omega arith), rw stop (ground arith), rw stop (omega arith))
    ]

irq_interval-pos : (channel : Channel) → 0 < irq_interval channel
unfolding irq_interval
irq_interval-pos channel = omega arith

module _ (now : ℕ) (pit : Pit) where
  -- After a poll that fires, the next deadline is later than the time of the poll, by one interval
  -- at most, and whole intervals after the old one, however many of them were missed; the poll
  -- changes nothing else, and an immediate second poll does not fire.
  pub poll_irq0_coalesces :
      (poll_irq0 now pit).0 ≡ true
      → let pit' = (poll_irq0 now pit).1 in
        (k : ℕ) × (pit' ≡ record pit {
          channel₀ = record pit.channel₀ {
            next_irq = pit.channel₀.next_irq + suc k * irq_interval pit.channel₀;
          };
        })
        × (now < pit'.channel₀.next_irq)
        × (pit'.channel₀.next_irq ≤ now + irq_interval pit.channel₀)
        × ((poll_irq0 now pit').0 ≡ false)
  unfolding poll_irq0
  poll_irq0_coalesces fired =
      let due : pit.channel₀.next_irq ≤ now = ground arith in
      let (k, e, after, near) =
        catch_up_lem (suc now) (irq_interval pit.channel₀) now pit.channel₀.next_irq
          (irq_interval-pos pit.channel₀) due (omega arith) in
      (k, ground arith, ground arith, ground arith, ground arith)
