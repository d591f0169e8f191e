-- ===== src/VirtioRng/Setup.antt =====
-- How a driver sets the queue up, and what a reset leaves.
use node_vmm.Prelude.{
  ℕ, ◌+◌, ◌*◌, ◌/◌, ◌%◌, ◌^◌, ◌<◌, ◌≡◌, refl, ap, ◌∙◌, arith, bit_and, bit_or, Result, ok, ◌>>=◌,
  List, [], ◌∷◌,
}
use node_vmm.Bits.Fields.{bit_or_fields, bit_and_shifted, bit_and_mask, bit_or_comm}
use node_vmm.Bytes.{u32}
use node_vmm.VirtioRng.State.{Rng, World, Generator, initial}
use node_vmm.VirtioRng.Queue.{handle_queue, is_set_up}
use node_vmm.VirtioRng.Registers.{set_low, set_high, write_reg, write_queue, write_control}

set_low_lem :
    (old v : ℕ) → v < 2 ^ 32 → set_low old v ≡ bit_and (old / 2 ^ 32) 0xffffffff * 2 ^ 32 + v
set_low_lem old v h =
    ap (λ t. bit_or t v) (bit_and_shifted old 0xffffffff 32)
    ∙ bit_or_fields (bit_and (old / 2 ^ 32) 0xffffffff) 32 v h

set_high_lem : (old v : ℕ) → set_high old v ≡ v * 2 ^ 32 + old % 2 ^ 32
set_high_lem old v =
    bit_or_comm (bit_and old 0xffffffff) (v * 2 ^ 32)
    ∙ ap (λ t. bit_or (v * 2 ^ 32) t) (bit_and_mask old 32)
    ∙ bit_or_fields v 32 (old % 2 ^ 32) (omega arith)

-- Writing both halves of a register, the low one first, leaves the whole word.
halves : (old d : ℕ) → set_high (set_low old (u32 d)) (d / 2 ^ 32) ≡ d
halves old d =
    set_high_lem (set_low old (u32 d)) (d / 2 ^ 32)
    ∙ omega (arith, set_low_lem old (u32 d) (omega arith))

-- The stores of a driver, one after the other: offset and value.
abbrev pub Store : Type 0
Store = ℕ × ℕ

unfoldable pub write_regs : Generator → ℕ → List Store → Rng → World → Result (Rng × World)
write_regs gen mem_size [] rng w = ok (rng, w)
write_regs gen mem_size ((off, value) ∷ stores) rng w = do
  (rng', w') ← write_reg gen mem_size off value rng w
  write_regs gen mem_size stores rng' w'

-- The six stores that tell the device where the queue lies.
abbrev pub address_stores : ℕ → ℕ → ℕ → List Store
address_stores desc driver device =
    (0x080, u32 desc)
    ∷ (0x084, desc / 2 ^ 32)
    ∷ (0x090, u32 driver)
    ∷ (0x094, driver / 2 ^ 32)
    ∷ (0x0a0, u32 device)
    ∷ (0x0a4, device / 2 ^ 32)
    ∷ []

-- The stores of the low and the high halves of the three addresses set the addresses, whatever the
-- registers held, and change nothing else of the device or of memory.
pub write_regs_addresses :
    (gen : Generator) (mem_size desc driver device : ℕ) (rng : Rng) (w : World)
    → write_regs gen mem_size (address_stores desc driver device) rng w
      ≡ ok (
        record rng {
          queue = record rng.queue { desc_addr = desc; driver_addr = driver; device_addr = device };
        },
        w,
      )
unfolding write_regs write_reg write_queue
write_regs_addresses gen mem_size desc driver device rng w =
    rw
      (
        halves rng.queue.desc_addr desc,
        halves rng.queue.driver_addr driver,
        halves rng.queue.device_addr device,
      )
      refl

-- A reset puts the device back to its first state, but for the count of interrupts raised,
-- whatever state it was in, and a notification right after it touches neither the device nor
-- memory.
pub write_regs_after_reset :
    (gen : Generator) (mem_size : ℕ) (rng : Rng) (w : World)
    → write_regs gen mem_size ((0x070, 0) ∷ (0x050, 0) ∷ []) rng w
      ≡ ok (record initial { raised = rng.raised }, w)
unfolding write_regs write_reg write_control handle_queue is_set_up initial
write_regs_after_reset gen mem_size rng w = refl
