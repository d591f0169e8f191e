-- ===== src/ElfLoader/Tests.antt =====
-- An image with one segment of four bytes, and twelve more to be cleared.
use node_vmm.Prelude.{ℕ, zero, suc, ◌≤◌, ◌<◌, ◌≡◌, refl, arith, ok, err, Result}
use node_vmm.Prelude.State.{Finishes}
use node_vmm.Bytes.{
  Memory, poke, check, checked_add, checked_mul, check_range, read_u16, read_u32, read_u64,
  read_bytes,
}
use node_vmm.VirtioRng.Ring.{IsKept}
use node_vmm.ElfLoader.{KernelInfo, Loaded, load_elf_kernel, load_segments, load_segment, zero_fill}
use node_vmm.ElfLoader.Header.{pt_load, check_header, entry_of, phnum_of, phoff_of}
use node_vmm.ElfLoader.Bounds.{load_elf_kernel-IsKept}
use node_vmm.ElfLoader.Loading.{IsLoadable, Covers, HasContent, segment, load_elf_kernel-Finishes}

abbrev header : Memory
header = poke 56 1 (
    poke 54 56 (
      poke 32 64 (
        poke 26 0x10 (
          poke 18 62 (
            poke 5 1
              (poke 4 2 (poke 3 0x46 (poke 2 0x4c (poke 1 0x45 (poke 0 0x7f (λ a. 0)))))))))))

abbrev image : Memory
image = poke 120 7 (poke 104 16 (poke 96 4 (poke 90 0x10 (poke 72 120 (poke 64 1 header)))))

abbrev outcome : Result KernelInfo × Loaded → ℕ × ℕ × ℕ × ℕ
outcome (ok info, (m, kernel_end)) = (info.entry, info.kernel_end, m 0x100000, m 0x10000f)
outcome (err e, (m, kernel_end)) = (0, 0, 0, 0)

load_elf_kernel_here :
    outcome (load_elf_kernel 0x200000 124 image ((λ a. 9), 0)) ≡ (0x100000, 0x100010, 7, 0)
unfolding load_elf_kernel load_segments load_segment zero_fill check_header check checked_add
    checked_mul check_range read_u16 read_u32 read_u64 read_bytes
load_elf_kernel_here = refl

load_elf_kernel-IsKept_example :
    IsKept 0x200000 header (load_elf_kernel 0x200000 124 image (header, 0)).1.0
load_elf_kernel-IsKept_example = load_elf_kernel-IsKept 0x200000 124 0 image header

header_accepted : check_header 124 image ≡ ok tt
unfolding check_header check checked_mul check_range read_u16 read_u64 read_bytes
header_accepted = refl

segment-IsLoadable : IsLoadable 0x200000 124 image (segment 0x200000 124 image 0)
unfolding read_u32 read_u64 read_bytes
segment-IsLoadable = record {
  file_fits = omega arith;
  in_file = omega arith;
  in_memory = omega arith;
}

one_segment : phnum_of image ≡ 1
unfolding read_u16
one_segment = refl

entry_here : entry_of image ≡ 0x100000
unfolding read_u64 read_bytes
entry_here = refl

table_here : phoff_of image ≡ 64
unfolding read_u64 read_bytes
table_here = refl

segments-IsLoadable :
    (j : ℕ) → j < phnum_of image → IsLoadable 0x200000 124 image (segment 0x200000 124 image j)
segments-IsLoadable zero h = segment-IsLoadable
segments-IsLoadable (suc j) h = absurd (omega (arith, one_segment))

load_elf_kernel-Finishes_example :
    Finishes
      (λ info s'.
        (info.entry ≡ entry_of image)
        × (info.kernel_end ≤ 0x200000)
        × ((j : ℕ)
            → j < phnum_of image
            → Covers 0x200000 124 image info.kernel_end (segment 0x200000 124 image j))
        × ((j : ℕ)
            → j < phnum_of image
            → (segment 0x200000 124 image j).type ≡ pt_load
            → HasContent 0x200000 124 image (segment 0x200000 124 image j) s'.0))
      (load_elf_kernel 0x200000 124 image ((λ a. 9), 0))
load_elf_kernel-Finishes_example =
    load_elf_kernel-Finishes 0x200000 124 image (λ a. 9) (omega arith) (omega arith) header_accepted
      (omega (arith, one_segment, table_here)) (ground (arith, entry_here))
      (λ j h t. segments-IsLoadable j h) (λ j j' h h'. absurd (omega (arith, one_segment)))
