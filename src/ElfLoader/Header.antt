-- ===== src/ElfLoader/Header.antt =====
-- The headers of an image.
use node_vmm.Prelude.{ℕ, ◌+◌, Bool, ◌&&◌, leb, ◌==◌, Result, ◌>>=◌, ◌>>◌}
use node_vmm.Bytes.{Memory, check, checked_mul, check_range, read_u16, read_u32, read_u64}

-- The fields of `Elf64Phdr` that are used.
pub record ProgramHeader : Type 0 where
  pub type : ℕ
  pub offset : ℕ
  pub paddr : ℕ
  pub filesz : ℕ
  pub memsz : ℕ

abbrev pub header_size : ℕ
header_size = 64

abbrev pub program_header_size : ℕ
program_header_size = 56

abbrev pub pt_load : ℕ
pt_load = 1

abbrev pub program_header : Memory → ℕ → ProgramHeader
program_header image p = record {
  type = read_u32 p image;
  offset = read_u64 (p + 8) image;
  paddr = read_u64 (p + 24) image;
  filesz = read_u64 (p + 32) image;
  memsz = read_u64 (p + 40) image;
}

-- `eh->entry`, `eh->phoff` and `eh->phnum`.
abbrev pub entry_of : Memory → ℕ
entry_of image = read_u64 24 image

abbrev pub phoff_of : Memory → ℕ
phoff_of image = read_u64 32 image

abbrev pub phnum_of : Memory → ℕ
phnum_of image = read_u16 56 image

abbrev pub has_magic : Memory → Bool
has_magic image = image 0 == 0x7f && (image 1 == 0x45 && (image 2 == 0x4c && image 3 == 0x46))

-- The checks of the header.
unfoldable pub check_header : ℕ → Memory → Result (Unit {0})
check_header size image = do
  check (leb header_size size) "kernel is too small"
  check (has_magic image) "kernel must be an ELF vmlinux for WHP v1"
  check (image 4 == 2) "kernel must be ELF64"
  check (image 5 == 1) "kernel must be little-endian ELF"
  check (read_u16 18 image == 62) "kernel must be x86_64 ELF"
  check (read_u16 54 image == program_header_size) "kernel ELF program header size is unsupported"
  ph_size ← checked_mul (phnum_of image) program_header_size "kernel program header table"
  check_range size (phoff_of image) ph_size "kernel program header table"
