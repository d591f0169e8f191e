-- ===== src/Pic/Request.antt =====
-- Which lines can raise an interrupt.
use node_vmm.Prelude.{ℕ, zero, suc, ◌^◌, ◌<◌, ◌≡◌, ◌≢◌, bit_and, false, arith}
use node_vmm.Pic.{Pic, irq_unmasked}
use node_vmm.Pic.Init.{IsValid}

all_masked : (irq : ℕ) → irq < 8 → bit_and 0xff (2 ^ irq) ≢ 0
all_masked zero h = omega arith
all_masked (suc zero) h = omega arith
all_masked (suc (suc zero)) h = omega arith
all_masked (suc (suc (suc zero))) h = omega arith
all_masked (suc (suc (suc (suc zero)))) h = omega arith
all_masked (suc (suc (suc (suc (suc zero))))) h = omega arith
all_masked (suc (suc (suc (suc (suc (suc zero)))))) h = omega arith
all_masked (suc (suc (suc (suc (suc (suc (suc zero))))))) h = omega arith
all_masked (suc (suc (suc (suc (suc (suc (suc (suc k)))))))) h = absurd (omega arith)

-- In a valid state, no line of the master is unmasked while it waits for the words of its
-- initialisation.
pub irq_unmasked_init :
    (pic : Pic) (irq : ℕ) → IsValid pic → pic.master.init_step ≢ 0 → irq_unmasked pic irq ≡ false
unfolding irq_unmasked
irq_unmasked_init pic irq v h = ground (arith, all_masked irq, v.master_sound.masked h)
