-- ===== src/PmTimer/Tests.antt =====
-- The counter one second after the start, and around the overflow.
use node_vmm.Prelude.{◌+◌, ◌-◌, ◌*◌, ◌/◌, ◌%◌, ◌^◌, ◌≡◌, ◌≢◌, refl, arith}
use node_vmm.PmTimer.{pm_timer_hz, counter}
use node_vmm.PmTimer.Counter.{counter_advances, counter_overflows}

second_here : counter 0 1000000000 ≡ 3579545
unfolding counter
second_here = refl

counter_advances_example :
    (counter 0 1000000000
        + ((2000000000 - 0) * pm_timer_hz / 1000000000
            - (1000000000 - 0) * pm_timer_hz / 1000000000))
      % 2 ^ 32
    ≡ counter 0 2000000000
counter_advances_example =
    counter_advances 0 1000000000 2000000000 (omega arith) (omega arith) (omega arith)

counter_overflows_example :
    counter 0 5153376776577 ≢ (5153376776577 - 0) * pm_timer_hz / 1000000000 % 2 ^ 32
counter_overflows_example = counter_overflows 0 5153376776577 (omega arith) (omega arith)
