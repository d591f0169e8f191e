-- ===== src/Acpi/Sizes.antt =====
-- How large the tables are.
use node_vmm.Prelude.{
  ℕ, zero, suc, ◌+◌, ◌*◌, ◌≤◌, ◌<◌, ◌≡◌, refl, arith, Bool, true, false, ◌&&◌, leb, List, length,
  Result, ok, err,
}
use node_vmm.Acpi.Encode.{encode_integer, resource_template}
use node_vmm.Acpi.{append_pkg_length, length_len, length_bytes}
use node_vmm.Bytes.{check}
use node_vmm.Acpi.Tables.{
  build_dsdt_table, build_hpet_table, build_fadt, build_madt, build_rsdt, build_xsdt, build_rsdp,
  lapic_entries,
}

pub length-build_fadt : (dsdt : ℕ) → length (build_fadt dsdt) ≡ 276
unfolding build_fadt
length-build_fadt dsdt = refl

pub length-build_hpet_table : length build_hpet_table ≡ 56
unfolding build_hpet_table
length-build_hpet_table = refl

pub length-build_rsdt : (fadt madt hpet : ℕ) → length (build_rsdt fadt madt hpet) ≡ 48
unfolding build_rsdt
length-build_rsdt fadt madt hpet = refl

pub length-build_xsdt : (fadt madt hpet : ℕ) → length (build_xsdt fadt madt hpet) ≡ 60
unfolding build_xsdt
length-build_xsdt fadt madt hpet = refl

pub length-build_rsdp : (rsdt xsdt : ℕ) → length (build_rsdp rsdt xsdt) ≡ 36
unfolding build_rsdp
length-build_rsdp rsdt xsdt = refl

length-lapic_entries : (n i : ℕ) → length (lapic_entries n i) ≡ 8 * n
unfolding lapic_entries
length-lapic_entries zero i = omega arith
length-lapic_entries (suc n) i = omega (arith, length-lapic_entries n (i + 1))

pub length-build_madt : (cpus : ℕ) → length (build_madt cpus) ≡ 66 + 8 * cpus
unfolding build_madt
length-build_madt cpus = omega (arith, length-lapic_entries cpus 0)

-- The description of the devices, of `n` disks.
is_small : Result (List ℕ) → Bool
is_small (ok table) = leb (length table) 4096
is_small (err e) = false

is_small_lem :
    (r : Result (List ℕ))
    → is_small r ≡ true
    → (table : List ℕ) × (r ≡ ok table) × (length table ≤ 4096)
unfolding is_small
is_small_lem (ok table) h = (table, refl, ground arith)
is_small_lem (err e) h = absurd (ground (arith, h))

-- The first `n` counts of disks.
all_small : Bool → ℕ → Bool
unfolding is_small
all_small network zero = true
all_small network (suc n) = is_small (build_dsdt_table network n) && all_small network n

all_small_lem :
    (network : Bool) (n k : ℕ)
    → all_small network n ≡ true
    → k < n
    → is_small (build_dsdt_table network k) ≡ true
unfolding all_small
all_small_lem network zero k h l = absurd (omega arith)
all_small_lem network (suc n) k h l = ground (arith, all_small_lem network n k)

with_network : all_small true 18 ≡ true
unfolding all_small build_dsdt_table check append_pkg_length length_bytes length_len encode_integer
    resource_template
with_network = refl

without_network : all_small false 18 ≡ true
unfolding all_small build_dsdt_table check append_pkg_length length_bytes length_len encode_integer
    resource_template
without_network = refl

pub build_dsdt_table_small :
    (network : Bool) (disk_count : ℕ)
    → disk_count < 18
    → (table : List ℕ) × (build_dsdt_table network disk_count ≡ ok table) × (length table ≤ 4096)
build_dsdt_table_small true disk_count h =
    is_small_lem _ (all_small_lem true 18 disk_count with_network h)
build_dsdt_table_small false disk_count h =
    is_small_lem _ (all_small_lem false 18 disk_count without_network h)
