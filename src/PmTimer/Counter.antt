-- ===== src/PmTimer/Counter.antt =====
-- The counter against the number of ticks since the start.
use node_vmm.Prelude.{ℕ, ◌+◌, ◌-◌, ◌*◌, ◌/◌, ◌%◌, ◌^◌, ◌≤◌, ◌<◌, ◌≡◌, ◌≢◌, arith}
use node_vmm.PmTimer.{pm_timer_hz, counter}

-- While the product of the elapsed nanoseconds and the frequency fits 64 bits, the counter
-- advances from one time to a later one, modulo 2 ^ 32, by the difference of the ticks since the
-- start.
pub counter_advances :
    (started_at t t' : ℕ)
    → started_at ≤ t
    → t ≤ t'
    → (t' - started_at) * pm_timer_hz < 2 ^ 64
    → (counter started_at t
          + ((t' - started_at) * pm_timer_hz / 1000000000
              - (t - started_at) * pm_timer_hz / 1000000000))
        % 2 ^ 32
      ≡ counter started_at t'
unfolding counter
counter_advances started_at t t' h k b = ground arith

-- Where the product of the elapsed nanoseconds and the frequency lies from 2 ^ 64 up to 2 ^ 65,
-- which it reaches after some 86 minutes, the counter differs from the number of ticks modulo 2 ^
-- 32.
pub counter_overflows :
    (started_at now : ℕ)
    → 2 ^ 64 ≤ (now - started_at) * pm_timer_hz
    → (now - started_at) * pm_timer_hz < 2 ^ 65
    → counter started_at now ≢ (now - started_at) * pm_timer_hz / 1000000000 % 2 ^ 32
unfolding counter
counter_overflows started_at now h k = ground arith
