-- ===== src/ElfLoader/Loading.antt =====
-- An image that is sound is loaded.
use Prim.Native.String.{String}
use mathlib.Core.Path.{subst}
use node_vmm.Prelude.{
  ℕ, zero, suc, ◌-◌, ◌∙◌, ◌⊎◌, ◌+◌, ◌*◌, ◌≤◌, ◌<◌, ◌^◌, ◌≡◌, ◌≢◌, refl, sym, ap, arith, ltb, leb,
  ◌!=◌, Bool, true, Bool-cases, inl, inr, ok, ℕ_discrete,
}
use node_vmm.Prelude.State.{Finishes, Finishes-continue, Finishes-weaken}
use node_vmm.Bytes.{Memory, check, checked_add, checked_mul, check_range}
use node_vmm.Bytes.Guards.{check_range_iff, checked_add_iff, checked_mul_iff}
use node_vmm.WinIo.Files.{place}
use node_vmm.WinIo.Transfer.{place_inside}
use node_vmm.ElfLoader.{
  Loaded, zero_fill, load_segment, load_if_needed, load_segments, load_elf_kernel,
}
use node_vmm.ElfLoader.Header.{
  ProgramHeader, check_header, program_header, program_header_size, phoff_of, phnum_of, entry_of,
  pt_load,
}

check_holds : (b : Bool) (what : String) → b ≡ true → check b what ≡ ok tt
unfolding check
check_holds b what h = rw h refl

place_beside :
    (n dst : ℕ) (src m : ℕ → ℕ) (a : ℕ) → (a < dst) ⊎ (dst + n ≤ a) → place n dst src m a ≡ m a
place_beside n dst src m a h = ground arith

module _ (mem_size size : ℕ) (image : Memory) where
  -- A segment that lies in the file and whose place lies in guest memory.
  pub record IsLoadable (ph : ProgramHeader) : Type 0 where
    pub file_fits : ph.filesz ≤ ph.memsz
    pub in_file : ph.offset + ph.filesz ≤ size
    pub in_memory : ph.paddr + ph.memsz ≤ mem_size

  -- `end` is not below the end of the segment, where it is one to be loaded.
  abbrev pub Covers : ℕ → ProgramHeader → Type 0
  Covers end ph = ph.type ≡ pt_load → ph.paddr + ph.memsz ≤ end

  -- The bytes that the file has of a segment stand at its place, with zeros behind them up to its
  -- size in memory.
  abbrev pub HasContent : ProgramHeader → Memory → Type 0
  HasContent ph m =
      ((k : ℕ) → k < ph.filesz → m (ph.paddr + k) ≡ image (ph.offset + k))
      × ((k : ℕ) → ph.filesz ≤ k → k < ph.memsz → m (ph.paddr + k) ≡ 0)

  -- An address beside the place of a segment.
  abbrev IsBeside : ℕ → ProgramHeader → Type 0
  IsBeside a ph = (a < ph.paddr) ⊎ (ph.paddr + ph.memsz ≤ a)

  abbrev IsFilled : ProgramHeader → Loaded → Unit {0} → Loaded → Type 0
  IsFilled ph s done s' =
      (s'.1 ≡ s.1)
      × ((a : ℕ) → (a < ph.paddr + ph.filesz) ⊎ (ph.paddr + ph.memsz ≤ a) → s'.0 a ≡ s.0 a)
      × ((a : ℕ) → ph.paddr + ph.filesz ≤ a → a < ph.paddr + ph.memsz → s'.0 a ≡ 0)

  abbrev IsExtended : ProgramHeader → Loaded → Unit {0} → Loaded → Type 0
  IsExtended ph s done s' =
      (s.1 ≤ s'.1)
      × (Covers s'.1 ph)
      × (s.1 ≤ mem_size → s'.1 ≤ mem_size)
      × (ph.type ≡ pt_load → HasContent ph s'.0)
      × ((a : ℕ) → (ph.type ≡ pt_load → IsBeside a ph) → s'.0 a ≡ s.0 a)

  zero_fill-IsFilled :
      (ph : ProgramHeader) (s : Loaded)
      → mem_size < 2 ^ 64
      → IsLoadable ph
      → Finishes (IsFilled ph s) (zero_fill mem_size size image ph s)
  unfolding zero_fill Finishes
  zero_fill-IsFilled ph s small loads = elim (Bool-cases (ltb ph.filesz ph.memsz)) [
    | inr e ↦
        rw (zero_fill, e) (refl, (λ a h. refl), λ a h l. absurd (ground (arith, loads.file_fits)))
    | inl e ↦
        let start : ℕ = ph.paddr + ph.filesz in
        let less : ph.filesz < ph.memsz = ground arith in
        let q : checked_add ph.paddr ph.filesz "kernel zero-fill range" ≡ ok start =
          (checked_add_iff ph.paddr ph.filesz start "kernel zero-fill range"
              (omega (arith, loads.in_memory)) (omega (arith, loads.in_memory, loads.file_fits))).1
            (omega (arith, loads.in_memory, loads.file_fits), refl) in
        rw (zero_fill, e, q)
          (
            refl,
            (λ a h. place_beside (ph.memsz - ph.filesz) start (λ k. 0) s.0 a (omega arith)),
            (λ a h l.
                ap (place (ph.memsz - ph.filesz) start (λ k. 0) s.0)
                  (let at : a ≡ start + (a - start) = omega arith in at)
                ∙ place_inside (ph.memsz - ph.filesz) start (λ k. 0) s.0 (a - start) (omega arith)),
          )
  ]

  load_segment-IsExtended :
      (ph : ProgramHeader) (s : Loaded)
      → mem_size < 2 ^ 64
      → ph.type ≡ pt_load
      → IsLoadable ph
      → Finishes (IsExtended ph s) (load_segment mem_size size image ph s)
  unfolding load_segment Finishes
  load_segment-IsExtended ph s small is_load loads =
      let e : check (leb ph.filesz ph.memsz) "kernel segment file size exceeds memory size"
          ≡ ok tt =
        check_holds (leb ph.filesz ph.memsz) _ (ground (arith, loads.file_fits)) in
      let e' : check_range size ph.offset ph.filesz "kernel segment file range" ≡ ok tt =
        (check_range_iff size ph.offset ph.filesz "kernel segment file range").1 loads.in_file in
      let e'' : check_range mem_size ph.paddr ph.memsz "kernel segment guest range" ≡ ok tt =
        (check_range_iff mem_size ph.paddr ph.memsz "kernel segment guest range").1
          loads.in_memory in
      let q : checked_add ph.paddr ph.memsz "kernel end" ≡ ok (ph.paddr + ph.memsz) =
        (checked_add_iff ph.paddr ph.memsz (ph.paddr + ph.memsz) "kernel end"
            (omega (arith, loads.in_memory)) (omega (arith, loads.in_memory))).1
          (omega (arith, loads.in_memory), refl) in
      let s₁ : Loaded = (place ph.filesz ph.paddr (λ k. image (ph.offset + k)) s.0, s.1) in
      rw (load_segment, e, e', e'')
        (Finishes-continue (IsFilled ph s₁) (IsExtended ph s) (zero_fill mem_size size image ph s₁)
          _ (zero_fill-IsFilled ph s₁ small loads)
          (λ done s₂ (same, kept, cleared). rw q (
            omega (arith, same),
            (λ t. omega arith),
            (λ h. omega (arith, same, loads.in_memory)),
            (λ t. (
              (λ k h.
                  kept (ph.paddr + k) (inl (omega arith))
                  ∙ place_inside ph.filesz ph.paddr (λ k'. image (ph.offset + k')) s.0 k h),
              λ k h l. cleared (ph.paddr + k) (omega arith) (omega arith),
            )),
            (λ a h.
                let beside : IsBeside a ph = h is_load in
                kept a (omega (arith, loads.file_fits))
                ∙ place_beside ph.filesz ph.paddr (λ k'. image (ph.offset + k')) s.0 a
                    (omega (arith, loads.file_fits))),
          )))

  load_if_needed-IsExtended :
      (ph : ProgramHeader) (s : Loaded)
      → mem_size < 2 ^ 64
      → (ph.type ≡ pt_load → IsLoadable ph)
      → Finishes (IsExtended ph s) (load_if_needed mem_size size image ph s)
  unfolding Finishes
  load_if_needed-IsExtended ph s small loads = elim (Bool-cases (ph.type != pt_load)) [
    | inl e ↦ rw e (
      omega arith,
      (λ t. absurd (ground arith)),
      (λ h. h),
      (λ t. absurd (ground arith)),
      λ a h. refl,
    )
    | inr e ↦ rw e (load_segment-IsExtended ph s small (ground arith) (loads (ground arith)))
  ]

  -- The program header at index `i`.
  abbrev pub segment : ℕ → ProgramHeader
  segment i = program_header image (phoff_of image + i * program_header_size)

  -- The places of two segments to be loaded share no byte.
  abbrev pub AreApart : ProgramHeader → ProgramHeader → Type 0
  AreApart ph ph' =
      ph.type ≡ pt_load
      → ph'.type ≡ pt_load
      → (ph.paddr + ph.memsz ≤ ph'.paddr) ⊎ (ph'.paddr + ph'.memsz ≤ ph.paddr)

  abbrev IsLoaded : ℕ → ℕ → Loaded → Unit {0} → Loaded → Type 0
  IsLoaded n i s done s' =
      (s.1 ≤ s'.1)
      × ((j : ℕ) → i ≤ j → j < i + n → Covers s'.1 (segment j))
      × (s.1 ≤ mem_size → s'.1 ≤ mem_size)
      × ((j : ℕ) → i ≤ j → j < i + n → (segment j).type ≡ pt_load → HasContent (segment j) s'.0)
      × ((a : ℕ)
          → ((j : ℕ) → i ≤ j → j < i + n → (segment j).type ≡ pt_load → IsBeside a (segment j))
          → s'.0 a ≡ s.0 a)

  -- What a segment holds stays where nothing is stored at its place.
  content_stays :
      (ph : ProgramHeader) (m m' : Memory)
      → IsLoadable ph
      → ((k : ℕ) → k < ph.memsz → m' (ph.paddr + k) ≡ m (ph.paddr + k))
      → HasContent ph m
      → HasContent ph m'
  content_stays ph m m' loads same (bytes, zeros) = (
    (λ k h. same k (omega (arith, loads.file_fits)) ∙ bytes k h),
    λ k h l. same k l ∙ zeros k h l,
  )

  load_segments-IsLoaded :
      (n i : ℕ) (s : Loaded)
      → mem_size < 2 ^ 64
      → phoff_of image + (i + n) * program_header_size < 2 ^ 64
      → ((j : ℕ) → j < i + n → (segment j).type ≡ pt_load → IsLoadable (segment j))
      → ((j j' : ℕ) → j < j' → j' < i + n → AreApart (segment j) (segment j'))
      → Finishes (IsLoaded n i s) (load_segments mem_size size image n i s)
  unfolding load_segments Finishes
  load_segments-IsLoaded zero i s small table loads apart = (
    omega arith,
    (λ j h h'. absurd (omega arith)),
    (λ h. h),
    (λ j h h'. absurd (omega arith)),
    λ a h. refl,
  )
  load_segments-IsLoaded (suc n) i s small table loads apart =
      let e : checked_mul i program_header_size "kernel program header offset"
          ≡ ok (i * program_header_size) =
        (checked_mul_iff i program_header_size (i * program_header_size)
            "kernel program header offset").1
          (omega arith, refl) in
      let e' : checked_add (phoff_of image) (i * program_header_size) "kernel program header offset"
          ≡ ok (phoff_of image + i * program_header_size) =
        (checked_add_iff (phoff_of image) (i * program_header_size)
            (phoff_of image + i * program_header_size) "kernel program header offset" (omega arith)
            (omega arith)).1
          (omega arith, refl) in
      rw (load_segments, e, e')
        (Finishes-continue (IsExtended (segment i) s) (IsLoaded (suc n) i s)
          (load_if_needed mem_size size image (segment i) s) _
          (load_if_needed-IsExtended (segment i) s small (loads i (omega arith)))
          (λ done s₁ (grows, covers, bound, filled, kept).
            Finishes-weaken _ (IsLoaded (suc n) i s)
              (load_segments mem_size size image n (i + 1) s₁)
              (load_segments-IsLoaded n (i + 1) s₁ small (omega arith)
                (λ j h. loads j (omega arith)) (λ j j' h h'. apart j j' h (omega arith)))
              (λ done' s₂ (grows', covers', bound', filled', kept'). (
                omega arith,
                (λ j h h'. elim (ℕ_discrete j i) [
                  | yes q ↦ λ t. omega (arith, subst (Covers s₁.1) (ap segment (sym q)) covers t)
                  | no q ↦ covers' j (omega arith) (omega arith)
                ]),
                (λ h. bound' (bound h)),
                (λ j h h' t. elim (ℕ_discrete j i) [
                  | no q ↦ filled' j (omega arith) (omega arith) t
                  | yes q ↦
                      let t' : (segment i).type ≡ pt_load =
                        ap (λ x. (segment x).type) (sym q) ∙ t in
                      subst (λ x. HasContent (segment x) s₂.0) (sym q)
                        (content_stays (segment i) s₁.0 s₂.0 (loads i (omega arith) t')
                          (λ k l. kept' ((segment i).paddr + k) (λ j' l' h'' u.
                            let beside = apart i j' (omega arith) (omega arith) t' u in
                            omega (arith, beside)))
                          (filled t'))
                ]),
                λ a h.
                    kept' a (λ j l h' t. h j (omega arith) (omega arith) t)
                    ∙ kept a (λ t. h i (omega arith) (omega arith) t),
              ))))

  -- An image whose header passes the checks, with its table in the file, an entry other than 0, and
  -- segments to be loaded that lie in the file and whose places lie in guest memory and do not
  -- overlap, is loaded: each of these segments stands at its place, its bytes of the file with zeros
  -- behind them up to its size in memory. The entry is that of the image, and the end of the kernel is
  -- not below the end of any segment that was loaded and not above the end of guest memory.
  pub load_elf_kernel-Finishes :
      (m : Memory)
      → mem_size < 2 ^ 64
      → size < 2 ^ 64
      → check_header size image ≡ ok tt
      → phoff_of image + phnum_of image * program_header_size ≤ size
      → entry_of image ≢ 0
      → ((j : ℕ) → j < phnum_of image → (segment j).type ≡ pt_load → IsLoadable (segment j))
      → ((j j' : ℕ) → j < j' → j' < phnum_of image → AreApart (segment j) (segment j'))
      → Finishes
          (λ info s'.
            (info.entry ≡ entry_of image)
            × (info.kernel_end ≤ mem_size)
            × ((j : ℕ) → j < phnum_of image → Covers info.kernel_end (segment j))
            × ((j : ℕ)
                → j < phnum_of image
                → (segment j).type ≡ pt_load
                → HasContent (segment j) s'.0))
          (load_elf_kernel mem_size size image (m, 0))
  unfolding load_elf_kernel Finishes
  load_elf_kernel-Finishes m small small' header table entry loads apart =
      let e : check (entry_of image != 0) "kernel ELF entrypoint is zero" ≡ ok tt =
        check_holds (entry_of image != 0) _ (ground arith) in
      rw (load_elf_kernel, header)
        (Finishes-continue (IsLoaded (phnum_of image) 0 (m, 0)) _
          (load_segments mem_size size image (phnum_of image) 0 (m, 0)) _
          (load_segments-IsLoaded (phnum_of image) 0 (m, 0) small (omega arith)
            (λ j h. loads j (omega arith)) (λ j j' h h'. apart j j' h (omega arith)))
          (λ done s' (grows, covers, bound, filled, kept). rw e (
            refl,
            bound (omega arith),
            (λ j h. covers j (omega arith) (omega arith)),
            λ j h t. filled j (omega arith) (omega arith) t,
          )))
