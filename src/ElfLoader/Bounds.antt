-- ===== src/ElfLoader/Bounds.antt =====
-- Loading stores nothing outside guest memory, however it ends.
use node_vmm.Prelude.{
  ℕ, zero, suc, ◌+◌, ◌-◌, ◌≤◌, ◌≡◌, refl, ◌∙◌, arith, ltb, leb, ◌!=◌, Bool, true, false, if_intro,
  Bool-cases, inl, inr, ok, Result,
}
use node_vmm.Prelude.State.{continue-keeps, lift-keeps}
use node_vmm.Bytes.{Memory, check, checked_add, checked_mul, check_range}
use node_vmm.Bytes.Guards.{check_range_iff}
use node_vmm.WinIo.Files.{place}
use node_vmm.VirtioRng.Ring.{IsKept}
use node_vmm.ElfLoader.{
  Loaded, zero_fill, load_segment, load_if_needed, load_segments, load_elf_kernel,
}
use node_vmm.ElfLoader.Header.{
  ProgramHeader, check_header, program_header, program_header_size, phoff_of, phnum_of, entry_of,
  pt_load,
}

-- Of numbers of any size, a sum that passes the check is the true sum, or is cut to less.
checked_add-le : (a b r : ℕ) (what : _) → checked_add a b what ≡ ok r → r ≤ a + b
unfolding checked_add check
checked_add-le a b r what h = ground arith

check-true : (b : Bool) (what : _) → check b what ≡ ok tt → b ≡ true
unfolding check
check-true true what h = refl
check-true false what h = absurd (ground (arith, h))

place_above :
    (n dst : ℕ) (bytes : ℕ → ℕ) (m : Memory) (a : ℕ) → dst + n ≤ a → place n dst bytes m a ≡ m a
place_above n dst bytes m a h = ground arith

module _ (mem_size size : ℕ) (image m₀ : Memory) where
  abbrev Within : Loaded → Type 0
  Within s = IsKept mem_size m₀ s.0

  zero_fill-IsKept :
      (ph : ProgramHeader) (s : Loaded)
      → ph.paddr + ph.memsz ≤ mem_size
      → Within s
      → Within (zero_fill mem_size size image ph s).1
  unfolding zero_fill
  zero_fill-IsKept ph s inside kept = elim (Bool-cases (ltb ph.filesz ph.memsz)) [
    | inr e ↦ rw (zero_fill, e) kept
    | inl e ↦
        rw (zero_fill, e)
          (lift-keeps Within (checked_add ph.paddr ph.filesz "kernel zero-fill range") s _ kept
            λ start q.
              let b : start ≤ ph.paddr + ph.filesz = checked_add-le ph.paddr ph.filesz start _ q in
              λ a h.
                place_above (ph.memsz - ph.filesz) start (λ k. 0) s.0 a (ground arith) ∙ kept a h)
  ]

  load_segment-IsKept :
      (ph : ProgramHeader) (s : Loaded)
      → Within s
      → Within (load_segment mem_size size image ph s).1
  unfolding load_segment
  load_segment-IsKept ph s kept =
      lift-keeps Within
        (check (leb ph.filesz ph.memsz) "kernel segment file size exceeds memory size") s _ kept
        λ d e.
          lift-keeps Within (check_range size ph.offset ph.filesz "kernel segment file range") s _
            kept
            λ d' e'.
              lift-keeps Within
                (check_range mem_size ph.paddr ph.memsz "kernel segment guest range") s _ kept
                λ d'' e''.
                  let inside : ph.paddr + ph.memsz ≤ mem_size =
                    (check_range_iff mem_size ph.paddr ph.memsz "kernel segment guest range").0
                      e'' in
                  let fits : leb ph.filesz ph.memsz ≡ true =
                    check-true (leb ph.filesz ph.memsz) _ e in
                  let s₁ : Loaded =
                    (place ph.filesz ph.paddr (λ k. image (ph.offset + k)) s.0, s.1) in
                  let kept₁ : Within s₁ = λ a h.
                    place_above ph.filesz ph.paddr (λ k. image (ph.offset + k)) s.0 a (ground arith)
                    ∙ kept a h in
                  continue-keeps Within (zero_fill mem_size size image ph s₁) _
                    (zero_fill-IsKept ph s₁ inside kept₁)
                    λ r s₂ kept₂.
                      lift-keeps Within (checked_add ph.paddr ph.memsz "kernel end") s₂ _ kept₂
                        λ end q. kept₂

  load_segments-IsKept :
      (n i : ℕ) (s : Loaded) → Within s → Within (load_segments mem_size size image n i s).1
  unfolding load_segments
  load_segments-IsKept zero i s kept = kept
  load_segments-IsKept (suc n) i s kept =
      lift-keeps Within (checked_mul i program_header_size "kernel program header offset") s _ kept
        λ off e.
          lift-keeps Within (checked_add (phoff_of image) off "kernel program header offset") s _
            kept
            λ p e'.
              continue-keeps Within (load_if_needed mem_size size image (program_header image p) s)
                _
                (if_intro (λ (r : Result (Unit {0}) × Loaded). Within r.1)
                  ((program_header image p).type != pt_load) kept
                  (load_segment-IsKept (program_header image p) s kept))
                (λ r s' kept'. load_segments-IsKept n (i + 1) s' kept')

-- Loading a kernel changes guest memory only inside it, whatever the file holds, and also where it
-- throws.
pub load_elf_kernel-IsKept :
    (mem_size size kernel_end : ℕ) (image m : Memory)
    → IsKept mem_size m (load_elf_kernel mem_size size image (m, kernel_end)).1.0
unfolding load_elf_kernel
load_elf_kernel-IsKept mem_size size kernel_end image m =
    let K : Loaded → Type 0 = Within mem_size size image m in
    lift-keeps K (check_header size image) (m, kernel_end) _ (λ a h. refl)
      λ d e.
        continue-keeps K (load_segments mem_size size image (phnum_of image) 0 (m, kernel_end)) _
          (load_segments-IsKept mem_size size image m (phnum_of image) 0 (m, kernel_end)
            (λ a h. refl))
          (λ r s kept.
            lift-keeps K (check (entry_of image != 0) "kernel ELF entrypoint is zero") s _ kept
              λ d' e'. kept)
