-- ===== src/PageTables.antt =====
-- native/whp/page_tables.cc: BuildPageTables, the page tables that the guest starts with. `base` is
-- the guest address of the first of six pages.
pub mod Stores
pub mod Entries
pub mod Identity
mod Tests
use node_vmm.Prelude.{ℕ, zero, suc, ◌+◌, ◌*◌, bit_or}
use node_vmm.Bytes.{Memory, u64, write_u64}

abbrev pub page_size : ℕ
page_size = 0x1000

-- Present, writable, for user mode.
abbrev pub flags : ℕ
flags = 0x07

-- Present, writable, a page of 2 MiB.
abbrev pub huge : ℕ
huge = 0x83

-- The page directory of GiB `i`.
abbrev pub directory : ℕ → ℕ → ℕ
directory base i = u64 (u64 (base + 2 * page_size) + i * page_size)

-- The inner loop, `n` rounds from `j` on.
unfoldable pub map_pages : ℕ → ℕ → ℕ → ℕ → Memory → Memory
map_pages zero i j pd m = m
map_pages (suc n) i j pd m =
    map_pages n i (j + 1) pd
      (write_u64 (pd + j * 8) (bit_or (u64 ((i * 512 + j) * 0x200000)) huge) m)

-- The outer loop, `n` rounds from `i` on.
unfoldable pub map_tables : ℕ → ℕ → ℕ → Memory → Memory
map_tables zero i base m = m
map_tables (suc n) i base m =
    let entry = bit_or (directory base i) flags in
    map_tables n (i + 1) base
      (map_pages 512 i 0 (directory base i) (write_u64 (u64 (base + page_size) + i * 8) entry m))

unfoldable pub build_page_tables : ℕ → Memory → Memory
build_page_tables base m =
    map_tables 4 0 base (write_u64 base (bit_or (u64 (base + page_size)) flags) m)
