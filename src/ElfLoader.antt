-- ===== src/ElfLoader.antt =====
-- native/whp/elf_loader.cc: loading the segments of a kernel image into guest memory. The bytes of
-- the image are `image`, of which there are `size`.
pub mod Header
pub mod Bounds
pub mod Loading
mod Tests
use node_vmm.Prelude.{
  ℕ, zero, suc, ◌+◌, ◌-◌, ◌*◌, max, Bool, ◌&&◌, ltb, leb, ◌==◌, ◌!=◌, if◌then◌else◌,
}
use node_vmm.Prelude.State.{M, ◌>>=◌, ◌>>◌, return, lift, modify}
use node_vmm.Bytes.{Memory, check, checked_add, checked_mul, check_range}
use node_vmm.WinIo.Files.{place}
use Header.{
  ProgramHeader, program_header_size, pt_load, program_header, entry_of, phoff_of, phnum_of,
  check_header,
}

pub record KernelInfo : Type 0 where
  pub entry : ℕ
  pub kernel_end : ℕ

-- The guest memory, and `info.kernel_end`.
abbrev pub Loaded : Type 0
Loaded = Memory × ℕ

abbrev pub on_memory : (Memory → Memory) → M Loaded (Unit {0})
on_memory f = modify (λ (m, kernel_end). (f m, kernel_end))

abbrev pub zeroed : ℕ → ℕ → Memory → Memory
zeroed n start m = place n start (λ k. 0) m

module _ (mem_size size : ℕ) (image : Memory) where
  -- The bytes that the file does not have are 0.
  unfoldable pub zero_fill : ProgramHeader → M Loaded (Unit {0})
  zero_fill ph s =
      if ltb ph.filesz ph.memsz
      then (do
        zero_start ← lift (checked_add ph.paddr ph.filesz "kernel zero-fill range")
        on_memory (zeroed (ph.memsz - ph.filesz) zero_start))
          s
      else return tt s

  -- A segment to be loaded.
  unfoldable pub load_segment : ProgramHeader → M Loaded (Unit {0})
  load_segment ph s =
      (do
        lift (check (leb ph.filesz ph.memsz) "kernel segment file size exceeds memory size")
        lift (check_range size ph.offset ph.filesz "kernel segment file range")
        lift (check_range mem_size ph.paddr ph.memsz "kernel segment guest range")
        on_memory (place ph.filesz ph.paddr (λ k. image (ph.offset + k)))
        zero_fill ph
        end ← lift (checked_add ph.paddr ph.memsz "kernel end")
        modify (λ (m, kernel_end). (m, max kernel_end end)))
        s

  abbrev pub load_if_needed : ProgramHeader → M Loaded (Unit {0})
  load_if_needed ph s = if ph.type != pt_load then return tt s else load_segment ph s

  -- The loop over the program headers, `n` rounds from `i` on.
  unfoldable pub load_segments : ℕ → ℕ → M Loaded (Unit {0})
  load_segments zero i s = return tt s
  load_segments (suc n) i s =
      (do
        off ← lift (checked_mul i program_header_size "kernel program header offset")
        ph_off ← lift (checked_add (phoff_of image) off "kernel program header offset")
        load_if_needed (program_header image ph_off)
        load_segments n (i + 1))
        s

  -- `kernel_end` is 0 at first.
  unfoldable pub load_elf_kernel : M Loaded KernelInfo
  load_elf_kernel s =
      (do
        lift (check_header size image)
        load_segments (phnum_of image) 0
        lift (check (entry_of image != 0) "kernel ELF entrypoint is zero")
        (λ (m, kernel_end).
            return (record { entry = entry_of image; kernel_end = kernel_end }) (m, kernel_end)))
        s
