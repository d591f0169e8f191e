-- ===== src/Acpi/Sums.antt =====
-- The bytes of each table sum to 0.
use mathlib.Core.Path.{subst}
use node_vmm.Prelude.{ℕ, Bool, ◌<◌, Result, ok, err, ◌>>=◌, ◌≡◌, List, ◌++◌, take, drop}
use node_vmm.Boot.Table.{sum_bytes, checksum, bytes_of_u32}
use node_vmm.Boot.Checks.{sealed}
use node_vmm.Acpi.Encode.{bytes_of_u64}
use node_vmm.Acpi.Tables.{
  finalize_sdt, with_header, build_dsdt_table, build_hpet_table, build_fadt, build_madt, build_rsdt,
  build_xsdt, build_rsdp, rsdp_front,
}
use node_vmm.Acpi.Devices.{build_dsdt_body}
use node_vmm.Acpi.Sizes.{build_dsdt_table_small}
use node_vmm.VirtioNet.Receive.{zeros}

pub sum_bytes-finalize_sdt : (table : List ℕ) → sum_bytes 0 (finalize_sdt table) ≡ 0
unfolding finalize_sdt
sum_bytes-finalize_sdt table = sealed (take 9 table) (drop 10 table)

-- The description of the devices, where it could be built.
abbrev HasSum : Result (List ℕ) → Type 0
HasSum (ok table) = sum_bytes 0 table ≡ 0
HasSum (err e) = Unit {0}

with_header-HasSum :
    (body : Result (List ℕ)) → HasSum (body >>= λ b. ok (with_header "DSDT" 2 "GCDSDT01" b))
with_header-HasSum (ok b) = sum_bytes-finalize_sdt _
with_header-HasSum (err e) = tt

-- With at most 17 disks the description of the devices is built. Its bytes sum to 0, and so do those
-- of each of the other tables of a machine, wherever they point, those of the pointer structure, and
-- on their own its first 20 bytes, which are all that ACPI 1.0 has.
pub sum_bytes-tables :
    (network : Bool) (disk_count dsdt fadt madt hpet rsdt xsdt cpus : ℕ)
    → disk_count < 18
    → ((body : List ℕ) × (build_dsdt_table network disk_count ≡ ok body) × (sum_bytes 0 body ≡ 0))
      × (sum_bytes 0 (build_fadt dsdt) ≡ 0)
      × (sum_bytes 0 (build_madt cpus) ≡ 0)
      × (sum_bytes 0 build_hpet_table ≡ 0)
      × (sum_bytes 0 (build_rsdt fadt madt hpet) ≡ 0)
      × (sum_bytes 0 (build_xsdt fadt madt hpet) ≡ 0)
      × (sum_bytes 0 (take 20 (build_rsdp rsdt xsdt)) ≡ 0)
      × (sum_bytes 0 (build_rsdp rsdt xsdt) ≡ 0)
unfolding build_dsdt_table build_fadt build_madt build_hpet_table build_rsdt build_xsdt build_rsdp
sum_bytes-tables network disk_count dsdt fadt madt hpet rsdt xsdt cpus few = (
  (let (body, e, small) = build_dsdt_table_small network disk_count few in
      (body, e, subst HasSum e (with_header-HasSum (build_dsdt_body network disk_count)))),
  search sum_bytes-finalize_sdt,
  search sum_bytes-finalize_sdt,
  search sum_bytes-finalize_sdt,
  search sum_bytes-finalize_sdt,
  search sum_bytes-finalize_sdt,
  sealed (take 8 (rsdp_front rsdt 0)) (drop 9 (rsdp_front rsdt 0)),
  sealed (rsdp_front rsdt (checksum (rsdp_front rsdt 0)) ++ (bytes_of_u32 36 ++ bytes_of_u64 xsdt))
      (zeros 3),
)
