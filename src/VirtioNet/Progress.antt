-- ===== src/VirtioNet/Progress.antt =====
-- The loop that sends ends, and has caught up with the driver then.
use native.Mathlib.Nat.{mod-lt}
use node_vmm.Prelude.{
  ℕ, ◌+◌, ◌*◌, ◌%◌, ◌^◌, ◌≤◌, ◌<◌, ◌≡◌, refl, ◌∙◌, arith, Bool, true, Option-cases, inl, inr,
  Option, none, some, ◌⊎◌,
}
use node_vmm.Bytes.{u16, u64, Memory, write_u16, write_u32}
use node_vmm.Bytes.RoundTrip.{write_bytes_outside}
use node_vmm.VirtioRng.State.{ptr_or_null}
use node_vmm.VirtioRng.Ring.{ptr_or_null-some}
use node_vmm.VirtioNet.State.{
  Queue, Net, complete, is_usable, avail_index, store_u16, store_u32, used_elem,
}
use node_vmm.VirtioNet.Transmit.{Port}

-- A queue that is set up, its used ring beside its available ring.
abbrev pub IsRing : Queue → Type 0
IsRing q =
    (is_usable q ≡ true)
    × (q.device_addr + 4 + q.num * 8 ≤ 2 ^ 64)
    × (q.driver_addr + 4 ≤ 2 ^ 64)
    × ((q.driver_addr + 4 ≤ q.device_addr) ⊎ (q.device_addr + 4 + q.num * 8 ≤ q.driver_addr))

pub store_u16_elsewhere :
    (mem_size gpa v a : ℕ) (m : Memory)
    → (a < gpa) ⊎ (gpa + 2 ≤ a)
    → store_u16 mem_size gpa v m a ≡ m a
unfolding store_u16 write_u16
store_u16_elsewhere mem_size gpa v a m h = elim (Option-cases (ptr_or_null mem_size gpa 2)) [
  | inl e ↦ rw (store_u16, e) refl
  | inr (p, e) ↦ rw (store_u16, e) (ground (arith, ptr_or_null-some mem_size gpa 2 p e))
]

pub store_u32_elsewhere :
    (mem_size gpa v a : ℕ) (m : Memory)
    → (a < gpa) ⊎ (gpa + 4 ≤ a)
    → store_u32 mem_size gpa v m a ≡ m a
unfolding store_u32 write_u32
store_u32_elsewhere mem_size gpa v a m h = elim (Option-cases (ptr_or_null mem_size gpa 4)) [
  | inl e ↦ rw (store_u32, e) refl
  | inr (p, e) ↦
      rw (store_u32, e)
        (write_bytes_outside 4 0 p v a m (omega (arith, ptr_or_null-some mem_size gpa 4 p e)))
]

pub complete_elsewhere :
    (mem_size id len a : ℕ) (q : Queue) (m : Memory)
    → IsRing q
    → (a < q.device_addr) ⊎ (q.device_addr + 4 + q.num * 8 ≤ a)
    → (complete mem_size id len q m).1 a ≡ m a
unfolding complete is_usable
complete_elsewhere mem_size id len a q m (usable, device, driver, apart) h =
    let m₁ : Memory = store_u32 mem_size (used_elem q) id m in
    let m₂ : Memory = store_u32 mem_size (u64 (used_elem q + 4)) len m₁ in
    let pos : 0 < q.num = ground arith in
    let slot : q.last_used_idx % q.num < q.num = mod-lt q.last_used_idx pos in
    let elem : used_elem q ≡ q.device_addr + 4 + q.last_used_idx % q.num * 8 = omega arith in
    store_u16_elsewhere mem_size (u64 (q.device_addr + 2)) (u16 (q.last_used_idx + 1)) a m₂
      (omega arith)
    ∙ (store_u32_elsewhere mem_size (u64 (used_elem q + 4)) len a m₁ (omega arith)
        ∙ store_u32_elsewhere mem_size (used_elem q) id a m (omega arith))

-- A round takes one chain and leaves the ring as it is.
abbrev Advances : {S : Type 0} → ℕ → ℕ → Port S → Bool × Port S → Type 0
Advances mem_size avail port (processed, port') =
    IsRing (port'.net.queues 1)
    × (avail_index mem_size (port'.net.queues 1) port'.memory ≡ avail)
    × ((port'.net.queues 1).last_avail_idx ≡ u16 ((port.net.queues 1).last_avail_idx + 1))

-- The loop has returned, with the index of the driver reached.
abbrev CatchesUp : {S : Type 0} → ℕ → Option Bool × Port S → Type 0
CatchesUp avail (none, port) = ⊥
CatchesUp avail (some processed, port) = (port.net.queues 1).last_avail_idx ≡ avail

-- The access has ended, and the device has sent what was offered.
abbrev pub HasCaughtUp : {S : Type 0} → ℕ → Bool × Net × Memory × S → Type 0
HasCaughtUp avail (finished, net, m, stack) =
    (finished ≡ true) × ((net.queues 1).last_avail_idx ≡ avail)
