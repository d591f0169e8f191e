-- ===== src/VirtioNet/Stores.antt =====
-- What guest memory holds after a used element, and after a copy.
use native.Mathlib.Nat.{mod-lt}
use node_vmm.Prelude.{ℕ, zero, suc, ◌+◌, ◌*◌, ◌/◌, ◌%◌, ◌^◌, ◌≤◌, ◌<◌, ◌≡◌, ap, ◌∙◌, arith}
use node_vmm.Bits.Fields.{bit_and_mask}
use node_vmm.Bytes.{u8, u16, u64, Memory, write_u16, write_u32}
use node_vmm.Bytes.RoundTrip.{write_bytes_inside}
use node_vmm.VirtioRng.Ring.{ptr_or_null_inside}
use node_vmm.VirtioNet.State.{Queue, complete, is_usable, store_u16, store_u32, used_elem}
use node_vmm.VirtioNet.Progress.{IsRing, store_u16_elsewhere, store_u32_elsewhere}

-- The first `n` bytes of a word stand at `p`.
abbrev pub Holds : ℕ → ℕ → ℕ → Memory → Type 0
Holds n p v m = (k : ℕ) → k < n → m (p + k) ≡ u8 (v / 2 ^ (8 * k))

store_u32-Holds :
    (mem_size gpa v : ℕ) (m : Memory)
    → gpa + 4 ≤ mem_size
    → Holds 4 gpa v (store_u32 mem_size gpa v m)
unfolding store_u32 write_u32
store_u32-Holds mem_size gpa v m h k l =
    rw (store_u32, ptr_or_null_inside mem_size gpa 4 h)
      (write_bytes_inside 4 0 gpa v k m (omega arith) (omega arith))

store_u16-Holds :
    (mem_size gpa v : ℕ) (m : Memory)
    → gpa + 2 ≤ mem_size
    → Holds 2 gpa v (store_u16 mem_size gpa v m)
unfolding store_u16 write_u16
store_u16-Holds mem_size gpa v m h zero l =
    rw (store_u16, ptr_or_null_inside mem_size gpa 2 h) (ground (arith, bit_and_mask v 8))
store_u16-Holds mem_size gpa v m h (suc zero) l =
    rw (store_u16, ptr_or_null_inside mem_size gpa 2 h) (ground (arith, bit_and_mask (v / 2 ^ 8) 8))
store_u16-Holds mem_size gpa v m h (suc (suc k)) l = absurd (omega arith)

-- The used element, and the index of the used ring.
pub complete-Holds :
    (mem_size id len : ℕ) (q : Queue) (m : Memory)
    → IsRing q
    → q.device_addr + 4 + q.num * 8 ≤ mem_size
    → let m' = (complete mem_size id len q m).1 in
      Holds 4 (used_elem q) id m'
      × Holds 4 (used_elem q + 4) len m'
      × Holds 2 (q.device_addr + 2) (u16 (q.last_used_idx + 1)) m'
unfolding complete is_usable
complete-Holds mem_size id len q m (usable, device, driver, apart) inside =
    let m₁ : Memory = store_u32 mem_size (used_elem q) id m in
    let m₂ : Memory = store_u32 mem_size (u64 (used_elem q + 4)) len m₁ in
    let used : ℕ = u16 (q.last_used_idx + 1) in
    let pos : 0 < q.num = ground arith in
    let slot : q.last_used_idx % q.num < q.num = mod-lt q.last_used_idx pos in
    let elem : used_elem q ≡ q.device_addr + 4 + q.last_used_idx % q.num * 8 = omega arith in
    let four : u64 (used_elem q + 4) ≡ used_elem q + 4 = omega arith in
    let two : u64 (q.device_addr + 2) ≡ q.device_addr + 2 = omega arith in
    (
      λ k l.
          store_u16_elsewhere mem_size (u64 (q.device_addr + 2)) used (used_elem q + k) m₂
            (omega arith)
          ∙ (store_u32_elsewhere mem_size (u64 (used_elem q + 4)) len (used_elem q + k) m₁
                (omega arith)
              ∙ store_u32-Holds mem_size (used_elem q) id m (omega arith) k l),
      λ k l.
          store_u16_elsewhere mem_size (u64 (q.device_addr + 2)) used (used_elem q + 4 + k) m₂
            (omega arith)
          ∙ (ap (λ t. store_u32 mem_size t len m₁ (used_elem q + 4 + k)) four
              ∙ store_u32-Holds mem_size (used_elem q + 4) len m₁ (omega arith) k l),
      λ k l.
          ap (λ t. store_u16 mem_size t used m₂ (q.device_addr + 2 + k)) two
          ∙ store_u16-Holds mem_size (q.device_addr + 2) used m₂ (omega arith) k l,
    )
