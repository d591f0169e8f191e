-- ===== src/Hpet/Expiry.antt =====
-- Periodic timers: the loop of `poll_expired` that skips missed periods.
use node_vmm.Prelude.{
  ℕ, zero, suc, ◌+◌, ◌-◌, ◌*◌, ◌^◌, ◌≤◌, ◌<◌, ◌≡◌, refl, arith, false, Bool-cases, inl, inr, none,
  some,
}
use node_vmm.Bytes.{u64}
use node_vmm.Hpet.State.{distance, counter_reached}
use node_vmm.Hpet.Timers.{catch_up}

-- How far the target lies behind the counter.
abbrev pub behind : ℕ → ℕ → ℕ
behind now cmp64 = distance cmp64 now

-- With a positive period below 2 ^ 63, and a target at most 2 ^ 63 behind the counter, the loop
-- ends within one round more than the ticks that the target lies behind: at a target whole periods
-- on, which the counter has not reached, one period ahead of it at most.
pub catch_up_lem :
    (fuel period now cmp64 : ℕ)
    → 0 < period
    → period < 2 ^ 63
    → now < 2 ^ 64
    → cmp64 < 2 ^ 64
    → behind now cmp64 ≤ 2 ^ 63
    → behind now cmp64 < fuel
    → (k next : ℕ) × (catch_up fuel period now cmp64 ≡ some next)
      × (next ≡ u64 (cmp64 + suc k * period))
      × (counter_reached now next ≡ false)
      × (distance now next ≤ period)
unfolding catch_up counter_reached
catch_up_lem zero period now cmp64 p q hn hc b f = absurd (omega arith)
catch_up_lem (suc fuel) period now cmp64 p q hn hc b f =
    elim (Bool-cases (counter_reached now (u64 (cmp64 + period)))) [
      | inl late ↦
          let (k, next, e, at, after, near) =
            catch_up_lem fuel period now (u64 (cmp64 + period)) p q hn (omega arith) (ground arith)
              (ground arith) in
          (suc k, next, rw late e, omega arith, after, near)
      | inr stop ↦ (0, u64 (cmp64 + period), rw stop refl, omega arith, stop, ground arith)
    ]

-- With the period 2 ^ 64 - 1 the loop has not ended after as many rounds as 2 ^ 63 exceeds the
-- ticks that the target lies behind the counter.
pub catch_up_backwards :
    (fuel now cmp64 : ℕ)
    → now < 2 ^ 64
    → cmp64 < 2 ^ 64
    → fuel + behind now cmp64 ≤ 2 ^ 63
    → catch_up fuel (2 ^ 64 - 1) now cmp64 ≡ none
unfolding catch_up counter_reached
catch_up_backwards zero now cmp64 hn hc h = refl
catch_up_backwards (suc fuel) now cmp64 hn hc h =
    ground (
      arith,
      catch_up_backwards fuel now (u64 (cmp64 + (2 ^ 64 - 1))) hn (omega arith) (omega arith),
    )
