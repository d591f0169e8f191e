-- ===== src/VirtioRng/Chain.antt =====
-- Walking a chain of descriptors: that it ends, and what it stores.
use node_vmm.Prelude.{
  ℕ, zero, suc, ◌+◌, ◌*◌, refl, ◌∙◌, arith, ltb, leb, ◌&&◌, ◌||◌, ◌==◌, ◌!=◌, Bool, Returns,
  Returns->>=, Returns-weaken, Bool-cases, Option-cases, inl, inr, bit_and,
}
use node_vmm.Bytes.{u64}
use node_vmm.VirtioRng.State.{
  World, Generator, Queue, Desc, fill_random, ptr_or_null, ring_desc_write, ring_desc_next,
}
use node_vmm.VirtioRng.Queue.{read_desc, fill_desc, walk}
use node_vmm.VirtioRng.Ring.{IsKept, Answers, ptr_or_null-some, fill_random-Returns}

abbrev pub StaysInside : ℕ → World → ℕ × World → Type 0
StaysInside mem_size w (written, w') = IsKept mem_size w.memory w'.memory

fill_desc-Returns :
    (gen : Generator) (mem_size : ℕ) (desc : Desc) (written : ℕ) (w : World)
    → Answers gen
    → Returns (StaysInside mem_size w) (fill_desc gen mem_size desc written w)
unfolding fill_desc Returns
fill_desc-Returns gen mem_size desc written w answers =
    elim (Bool-cases (bit_and desc.flags ring_desc_write != 0 && ltb 0 desc.len)) [
      | inr e ↦ rw (fill_desc, e) (λ a h. refl)
      | inl e ↦
          rw (fill_desc, e)
            (elim (Option-cases (ptr_or_null mem_size desc.addr desc.len)) [
              | inl n ↦ rw (fill_desc, n) (λ a h. refl)
              | inr (dst, n) ↦
                  rw (fill_desc, n)
                    (let (q, i) = ptr_or_null-some mem_size desc.addr desc.len dst n in
                      Returns->>= (λ w'. IsKept mem_size w.memory w'.memory)
                        (StaysInside mem_size w) (fill_random gen dst desc.len w) _
                        (fill_random-Returns gen dst desc.len mem_size w answers (omega arith))
                        (λ w' kept. kept))
            ])
    ]

pub walk-Returns :
    (gen : Generator) (mem_size : ℕ) (queue : Queue) (hops : ℕ) (seen : ℕ → Bool) (idx written : ℕ)
    (w : World)
    → Answers gen
    → Returns (StaysInside mem_size w) (walk gen mem_size queue hops seen idx written w)
unfolding walk Returns
walk-Returns gen mem_size queue zero seen idx written w answers = λ a h. refl
walk-Returns gen mem_size queue (suc hops) seen idx written w answers =
    elim (Bool-cases (leb queue.size idx || seen idx)) [
      | inl e ↦ rw (walk, e) (λ a h. refl)
      | inr e ↦
          rw (walk, e)
            (elim (Option-cases (ptr_or_null mem_size (u64 (queue.desc_addr + idx * 16)) 16)) [
              | inl n ↦ rw (walk, n) (λ a h. refl)
              | inr (p, n) ↦
                  rw (walk, n)
                    (let desc = read_desc p w.memory in
                      Returns->>= (StaysInside mem_size w) (StaysInside mem_size w)
                        (fill_desc gen mem_size desc written w) _
                        (fill_desc-Returns gen mem_size desc written w answers)
                        (λ (written', w') kept.
                          elim (Bool-cases (bit_and desc.flags ring_desc_next == 0)) [
                            | inl z ↦ rw z kept
                            | inr z ↦ rw z (
                                Returns-weaken (StaysInside mem_size w') (StaysInside mem_size w) _
                                  (walk-Returns gen mem_size queue hops (λ i. i == idx || seen i)
                                    desc.next written' w' answers)
                                  (λ r more a h. more a h ∙ kept a h))
                          ]))
            ])
    ]
