-- ===== src/Hpet/Tests.antt =====
-- The timer block at concrete times.
use node_vmm.Prelude.{ℕ, suc, ◌+◌, ◌-◌, ◌*◌, ◌^◌, ◌≤◌, ◌≡◌, refl, arith, false, none, some}
use node_vmm.Bytes.{u64, deposit_bits}
use node_vmm.Hpet.State.{Hpet, initial, counter, counter_reached, distance, cfg_enable, has_bits}
use node_vmm.Hpet.Timers.{catch_up}
use node_vmm.Hpet.Registers.{next_config}
use node_vmm.Hpet.Expiry.{catch_up_lem, catch_up_backwards}

abbrev fresh : Hpet
fresh = initial 0

abbrev ticking : Hpet
ticking = record fresh { config = 1; isr = 3; counter_base = 40 }

counter_here : counter 1000 ticking ≡ 140
unfolding counter initial
counter_here = refl

catch_up_here : catch_up 10 7 20 0 ≡ some 21
unfolding catch_up counter_reached
catch_up_here = refl

catch_up_lem_example :
    (k next : ℕ) × (catch_up 100 7 20 0 ≡ some next)
    × (next ≡ u64 (0 + suc k * 7))
    × (counter_reached 20 next ≡ false)
    × (distance 20 next ≤ 7)
catch_up_lem_example =
    catch_up_lem 100 7 20 0 (omega arith) (omega arith) (omega arith) (omega arith) (omega arith)
      (omega arith)

catch_up_backwards_example : catch_up 1000000 (2 ^ 64 - 1) 20 0 ≡ none
catch_up_backwards_example =
    catch_up_backwards 1000000 20 0 (omega arith) (omega arith) (omega arith)

off_here : has_bits (next_config ticking 0 32 0) cfg_enable ≡ false
unfolding initial deposit_bits
off_here = refl
