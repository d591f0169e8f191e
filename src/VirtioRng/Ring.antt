-- ===== src/VirtioRng/Ring.antt =====
-- What the device stores into guest memory, and where.
use node_vmm.Prelude.{
  ℕ, zero, suc, ◌+◌, ◌-◌, ◌*◌, ◌/◌, ◌^◌, ◌≤◌, ◌≡◌, ◌≢◌, refl, ◌∙◌, arith, ◌==◌, none, some, Returns,
  Returns-weaken, Bool-cases, Option-cases, inl, inr,
}
use node_vmm.Bytes.{u64, Memory, write_u16, write_u32, read_u16}
use node_vmm.Bytes.RoundTrip.{write_bytes_outside}
use node_vmm.VirtioRng.State.{
  World, Generator, Queue, chunk_size, fill, fill_chunks, fill_random, ptr_or_null,
}
use node_vmm.VirtioRng.Queue.{push_used, used_entry}

-- Nothing from `mem_size` on has changed.
abbrev pub IsKept : ℕ → Memory → Memory → Type 0
IsKept mem_size m m' = (a : ℕ) → mem_size ≤ a → m' a ≡ m a

-- The generator never fails.
abbrev pub Answers : Generator → Type 0
Answers gen = (n len : ℕ) → gen n len ≢ none

pub ptr_or_null-some :
    (mem_size gpa len p : ℕ)
    → ptr_or_null mem_size gpa len ≡ some p
    → (p ≡ gpa) × (gpa + len ≤ mem_size)
unfolding ptr_or_null
ptr_or_null-some mem_size gpa len p h = ground arith

pub ptr_or_null_inside :
    (mem_size gpa len : ℕ) → gpa + len ≤ mem_size → ptr_or_null mem_size gpa len ≡ some gpa
unfolding ptr_or_null
ptr_or_null_inside mem_size gpa len h = ground arith

fill_outside :
    (n dst : ℕ) (bytes : ℕ → ℕ) (m : Memory) (a : ℕ) → dst + n ≤ a → fill n dst bytes m a ≡ m a
unfolding fill
fill_outside zero dst bytes m a h = refl
fill_outside (suc n) dst bytes m a h = ground (arith, fill_outside n dst bytes m a)

fill_chunks-Returns :
    (gen : Generator) (fuel dst len mem_size : ℕ) (w : World)
    → Answers gen
    → dst + len ≤ mem_size
    → len ≤ fuel * 2 ^ 20
    → Returns (λ w'. IsKept mem_size w.memory w'.memory) (fill_chunks gen fuel dst len w)
unfolding fill_chunks Returns
fill_chunks-Returns gen zero dst len mem_size w answers inside enough =
    rw (let e : len ≡ 0 = omega arith in e) (λ a h. refl)
fill_chunks-Returns gen (suc fuel) dst zero mem_size w answers inside enough = λ a h. refl
fill_chunks-Returns gen (suc fuel) dst (suc len) mem_size w answers inside enough =
    elim (Option-cases (gen w.drawn (chunk_size (suc len)))) [
      | inl e ↦ absurd (answers _ _ e)
      | inr (bytes, e) ↦
          let w₁ : World = record {
            memory = fill (chunk_size (suc len)) dst bytes w.memory;
            drawn = suc w.drawn;
          } in
          rw (fill_chunks, e)
            (Returns-weaken (λ w'. IsKept mem_size w₁.memory w'.memory) _ _
              (fill_chunks-Returns gen fuel (dst + chunk_size (suc len))
                (suc len - chunk_size (suc len)) mem_size w₁ answers (ground arith) (ground arith))
              (λ w' kept a h.
                kept a h ∙ fill_outside (chunk_size (suc len)) dst bytes w.memory a (ground arith)))
    ]

pub fill_random-Returns :
    (gen : Generator) (dst len mem_size : ℕ) (w : World)
    → Answers gen
    → dst + len ≤ mem_size
    → Returns (λ w'. IsKept mem_size w.memory w'.memory) (fill_random gen dst len w)
unfolding fill_random
fill_random-Returns gen dst len mem_size w answers inside =
    fill_chunks-Returns gen (len / 2 ^ 20 + 1) dst len mem_size w answers inside (omega arith)

pub write_u16_outside : (p v a : ℕ) (m : Memory) → p + 2 ≤ a → write_u16 p v m a ≡ m a
unfolding write_u16
write_u16_outside p v a m h = ground arith

pub write_u32_outside : (p v a : ℕ) (m : Memory) → p + 4 ≤ a → write_u32 p v m a ≡ m a
unfolding write_u32
write_u32_outside p v a m h = write_bytes_outside 4 0 p v a m (inr (omega arith))

pub push_used-IsKept :
    (mem_size : ℕ) (queue : Queue) (id written : ℕ) (m : Memory)
    → IsKept mem_size m (push_used mem_size queue id written m)
unfolding push_used
push_used-IsKept mem_size queue id written m a h =
    elim (Option-cases (ptr_or_null mem_size (u64 (queue.device_addr + 2)) 2)) [
      | inl e ↦ rw (push_used, e) refl
      | inr (p, e) ↦
          rw (push_used, e)
            (elim (Bool-cases (queue.size == 0)) [
              | inl z ↦ rw (push_used, z) refl
              | inr z ↦
                  rw (push_used, z)
                    (elim (Option-cases
                      (ptr_or_null mem_size (used_entry queue (read_u16 p m)) 8)) [
                        | inl n ↦ rw (push_used, n) refl
                        | inr (q, n) ↦
                            rw (push_used, n)
                              (let (q₁, q₂) = ptr_or_null-some mem_size _ 8 q n in
                                let (p₁, p₂) = ptr_or_null-some mem_size _ 2 p e in
                                write_u16_outside p _ a _ (omega arith)
                                ∙ write_u32_outside (q + 4) written a _ (omega arith)
                                ∙ write_u32_outside q id a _ (omega arith))
                      ])
            ])
    ]
