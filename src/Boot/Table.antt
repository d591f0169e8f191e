-- ===== src/Boot/Table.antt =====
-- `WriteMpTable`: the table of processors, buses and interrupt lines. A buffer is a list of bytes.
use node_vmm.Prelude.{
  ℕ, zero, suc, ◌+◌, ◌-◌, ◌*◌, ◌/◌, ◌^◌, bit_and, ◌==◌, if◌then◌else◌, List, [], ◌∷◌, ◌++◌, length,
  Result, ok, ◌>>◌,
}
use node_vmm.Bits.Fields.{bit_not}
use node_vmm.Bytes.{Memory, u8, u64, check_range}
use node_vmm.Uart.Console.{codes}
use node_vmm.Boot.Params.{copy_bytes}

-- The sum of `Checksum`'s loop.
unfoldable pub sum_bytes : ℕ → List ℕ → ℕ
sum_bytes sum [] = sum
sum_bytes sum (b ∷ bytes) = sum_bytes (u8 (sum + b)) bytes

-- `~sum + 1` on `int`, cut to a byte.
unfoldable pub checksum : List ℕ → ℕ
checksum bytes = u8 (bit_not 8 (sum_bytes 0 bytes) + 1)

-- The bytes of a word, lowest first.
abbrev pub bytes_of_u16 : ℕ → List ℕ
bytes_of_u16 v = u8 v ∷ u8 (v / 2 ^ 8) ∷ []

abbrev pub bytes_of_u32 : ℕ → List ℕ
bytes_of_u32 v = u8 v ∷ u8 (v / 2 ^ 8) ∷ u8 (v / 2 ^ 16) ∷ u8 (v / 2 ^ 24) ∷ []

abbrev pub max_legacy_gsi : ℕ
max_legacy_gsi = 23

abbrev pub cpu_entry : ℕ → List ℕ
cpu_entry cpu =
    0
    ∷ u8 cpu
    ∷ 0x14
    ∷ (if cpu == 0 then 3 else 1)
    ∷ (bytes_of_u32 0x600 ++ (bytes_of_u32 0x201 ++ bytes_of_u32 0 ++ bytes_of_u32 0))

-- The entries of the processors from `cpu` on, `n` of them.
unfoldable pub cpu_entries : ℕ → ℕ → List ℕ
cpu_entries zero cpu = []
cpu_entries (suc n) cpu = cpu_entry cpu ++ cpu_entries n (cpu + 1)

abbrev pub irq_entry : ℕ → ℕ → ℕ → List ℕ
irq_entry io_apic_id pit_io_apic_pin irq =
    3 ∷ 0 ∷ 0 ∷ 0 ∷ 0 ∷ u8 irq ∷ io_apic_id ∷ u8 (if irq == 0 then pit_io_apic_pin else irq) ∷ []

unfoldable pub irq_entries : ℕ → ℕ → ℕ → ℕ → List ℕ
irq_entries zero io_apic_id pit_io_apic_pin irq = []
irq_entries (suc n) io_apic_id pit_io_apic_pin irq =
    irq_entry io_apic_id pit_io_apic_pin irq ++ irq_entries n io_apic_id pit_io_apic_pin (irq + 1)

unfoldable pub table_entries : ℕ → ℕ → List ℕ
unfolding cpu_entries irq_entries
table_entries cpus pit_io_apic_pin =
    cpu_entries cpus 0
    ++ ((1 ∷ 0 ∷ codes "ISA   ")
        ++ ((2 ∷ u8 (cpus + 1) ∷ 0x14 ∷ 1 ∷ bytes_of_u32 0xfec00000)
            ++ (irq_entries (max_legacy_gsi + 1) (u8 (cpus + 1)) pit_io_apic_pin 0
                ++ ((4 ∷ 3 ∷ 0 ∷ 0 ∷ 0 ∷ 0 ∷ 0 ∷ 0 ∷ [])
                    ++ (4 ∷ 1 ∷ 0 ∷ 0 ∷ 0 ∷ 0 ∷ 0xff ∷ 1 ∷ [])))))

-- The pointer structure and the header, each with its checksum byte `sum`.
abbrev pub pointer : ℕ → ℕ → List ℕ
pointer start sum =
    codes "_MP_" ++ (bytes_of_u32 (start + 16) ++ (1 ∷ 4 ∷ sum ∷ 0 ∷ 0 ∷ 0 ∷ 0 ∷ 0 ∷ []))

-- The version, the names, no table of the vendor, the count of entries and the local APICs.
abbrev pub header : ℕ → ℕ → ℕ → List ℕ
header entries_size entry_count sum =
    codes "PCMP"
    ++ (bytes_of_u16 (44 + entries_size)
        ++ ((4 ∷ sum ∷ codes "FC      ")
            ++ (codes "000000000000"
                ++ ((0 ∷ 0 ∷ 0 ∷ 0 ∷ 0 ∷ 0 ∷ bytes_of_u16 entry_count)
                    ++ (bytes_of_u32 0xfee00000 ++ bytes_of_u32 0)))))

abbrev pub with_checksum : (ℕ → List ℕ) → List ℕ
with_checksum bytes = bytes (checksum (bytes 0))

-- The header with the entries, for any checksum byte.
unfoldable pub configuration : ℕ → ℕ → ℕ → List ℕ
unfolding table_entries
configuration cpus pit_io_apic_pin sum =
    let entries = table_entries cpus pit_io_apic_pin in
    header (length entries) (cpus + 28) sum ++ entries

abbrev pub table_size : ℕ → ℕ
table_size cpus = 16 + 44 + 20 * cpus + 8 + 8 + 8 * (max_legacy_gsi + 1) + 8 * 2

abbrev pub table_start : ℕ → ℕ
table_start cpus = bit_and (u64 (0xa0000 + 2 ^ 64 - table_size cpus)) (bit_not 64 0xf)

-- For a positive number of processors.
unfoldable pub write_mp_table : ℕ → ℕ → ℕ → Memory → Result Memory
write_mp_table mem_size cpus pit_io_apic_pin m = do
  check_range mem_size (table_start cpus) (table_size cpus) "MP table"
  ok (
      copy_bytes (table_start cpus)
        (with_checksum (pointer (table_start cpus))
          ++ with_checksum (configuration cpus pit_io_apic_pin))
        m)
