-- ===== src/Acpi/Tests.antt =====
-- The length of a package at concrete sizes.
use node_vmm.Prelude.{◌≡◌, refl, ℕ, arith, true, some, List, [], ◌∷◌, ◌++◌, take, ok, err}
use node_vmm.Acpi.{append_pkg_length, length_len, length_bytes}
use node_vmm.Prelude.State.{Finishes}
use node_vmm.Bytes.{check}
use node_vmm.Uart.Console.{codes}
use node_vmm.Boot.Table.{sum_bytes}
use node_vmm.Acpi.Encode.{encode_path}
use node_vmm.Acpi.Devices.{virtio_mmio_device_name}
use node_vmm.Acpi.Tables.{
  build_dsdt_table, build_hpet_table, build_fadt, build_madt, build_rsdt, build_xsdt, build_rsdp,
}
use node_vmm.Acpi.Place.{rsdp_addr, create_acpi_tables, first_cursor}
use node_vmm.Acpi.Linked.{AreLinked, create_acpi_tables-AreLinked, create_acpi_tables-err}
use node_vmm.Acpi.Sums.{sum_bytes-tables}
use node_vmm.Acpi.Length.{read_pkg_length, read_pkg_length-append}

append_pkg_length_here : append_pkg_length [] 100 true ≡ 0x46 ∷ 6 ∷ []
unfolding append_pkg_length length_len length_bytes
append_pkg_length_here = refl

read_pkg_length-append_example :
    read_pkg_length (append_pkg_length [] 4093 true ++ 7 ∷ []) ≡ some (4095, 7 ∷ [])
unfolding append_pkg_length length_len length_bytes
read_pkg_length-append_example = read_pkg_length-append 4093 true (7 ∷ []) (omega arith)

create_acpi_tables-AreLinked_example :
    (body : List ℕ) × (build_dsdt_table true 1 ≡ ok body)
    × Finishes
        (λ addr s. (addr ≡ rsdp_addr) × AreLinked 2 body s.1)
        (create_acpi_tables 0x100000 true 2 1 (first_cursor, λ a. 0))
create_acpi_tables-AreLinked_example =
    create_acpi_tables-AreLinked 0x100000 true 2 1 (λ a. 0) (omega arith) (omega arith)
      (omega arith)

create_acpi_tables-err_example :
    create_acpi_tables 0x100000 true 2 18 (first_cursor, λ a. 0)
    ≡ (err "too many virtio-mmio devices", (first_cursor, λ a. 0))
create_acpi_tables-err_example =
    create_acpi_tables-err 0x100000 true 2 18 (first_cursor, λ a. 0) (omega arith) (omega arith)

sum_bytes-tables_example :
    ((body : List ℕ) × (build_dsdt_table true 1 ≡ ok body) × (sum_bytes 0 body ≡ 0))
    × (sum_bytes 0 (build_fadt 0xa0000) ≡ 0)
    × (sum_bytes 0 (build_madt 2) ≡ 0)
    × (sum_bytes 0 build_hpet_table ≡ 0)
    × (sum_bytes 0 (build_rsdt 0xa1000 0xa1200 0xa1300) ≡ 0)
    × (sum_bytes 0 (build_xsdt 0xa1000 0xa1200 0xa1300) ≡ 0)
    × (sum_bytes 0 (take 20 (build_rsdp 0xa1400 0xa1500)) ≡ 0)
    × (sum_bytes 0 (build_rsdp 0xa1400 0xa1500) ≡ 0)
sum_bytes-tables_example =
    sum_bytes-tables true 1 0xa0000 0xa1000 0xa1200 0xa1300 0xa1400 0xa1500 2 (omega arith)

encode_path_here : encode_path (codes "_SB_.COM1") ≡ ok (0x2e ∷ codes "_SB_COM1")
unfolding encode_path check
encode_path_here = refl

virtio_mmio_device_name_here : virtio_mmio_device_name 17 ≡ ok (codes "V017")
unfolding virtio_mmio_device_name check
virtio_mmio_device_name_here = refl
