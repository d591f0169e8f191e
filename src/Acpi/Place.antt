-- ===== src/Acpi/Place.antt =====
-- `CreateAcpiTables`: the tables one after the other in low memory, and the pointer to them.
use node_vmm.Prelude.{ℕ, ◌+◌, ◌-◌, bit_and, Bool, ltb, List, length}
use node_vmm.Prelude.State.{M, lift, modify, return, ◌>>=◌, ◌>>◌}
use node_vmm.Bits.Fields.{bit_not}
use node_vmm.Bytes.{u64, Memory, check, check_range}
use node_vmm.Boot.Params.{copy_bytes}
use node_vmm.Acpi.Tables.{
  build_dsdt_table, build_hpet_table, build_fadt, build_madt, build_rsdt, build_xsdt, build_rsdp,
}

-- For a power of 2.
abbrev pub align_up : ℕ → ℕ → ℕ
align_up value align = bit_and (u64 (value + align - 1)) (bit_not 64 (align - 1))

abbrev pub rsdp_addr : ℕ
rsdp_addr = 0xe0000

-- The cursor, and guest memory.
abbrev pub Low : Type 0
Low = ℕ × Memory

unfoldable pub write_table : ℕ → List ℕ → M Low ℕ
write_table mem_size table (cursor, m) =
    let addr : ℕ = align_up cursor 8 in
    let end : ℕ = u64 (addr + length table) in
    (do
      lift (check_range mem_size addr (length table) "ACPI table")
      modify (λ (c, m'). (end, copy_bytes addr table m'))
      lift (check (ltb end rsdp_addr) "ACPI tables overflow low memory")
      return addr)
      (addr, m)

-- The pointer structure.
unfoldable pub write_rsdp : ℕ → ℕ → ℕ → M Low ℕ
write_rsdp mem_size rsdt xsdt s =
    (do
      lift (check_range mem_size rsdp_addr (length (build_rsdp rsdt xsdt)) "RSDP")
      modify (λ (cursor, m). (cursor, copy_bytes rsdp_addr (build_rsdp rsdt xsdt) m))
      return rsdp_addr)
      s

-- The tables after the description of the devices is built.
unfoldable pub write_tables : ℕ → ℕ → List ℕ → M Low ℕ
unfolding write_table write_rsdp
write_tables mem_size cpus dsdt s =
    (do
      dsdt_addr ← write_table mem_size dsdt
      fadt ← write_table mem_size (build_fadt dsdt_addr)
      madt ← write_table mem_size (build_madt cpus)
      hpet ← write_table mem_size build_hpet_table
      rsdt ← write_table mem_size (build_rsdt fadt madt hpet)
      xsdt ← write_table mem_size (build_xsdt fadt madt hpet)
      write_rsdp mem_size rsdt xsdt)
      s

unfoldable pub create_acpi_tables : ℕ → Bool → ℕ → ℕ → M Low ℕ
unfolding write_tables
create_acpi_tables mem_size network_enabled cpus disk_count s =
    (do dsdt ← lift (build_dsdt_table network_enabled disk_count); write_tables mem_size cpus dsdt)
      s

abbrev pub first_cursor : ℕ
first_cursor = 0xa0000
