-- ===== src/Acpi/Linked.antt =====
-- From the pointer structure to the description of the devices, in memory.
use node_vmm.Prelude.{
  ℕ, ◌+◌, ◌-◌, ◌^◌, ◌≤◌, ◌<◌, ◌≡◌, refl, arith, Bool, true, false, ltb, List, [], ◌∷◌, length, ok,
  err,
}
use node_vmm.Prelude.State.{Finishes, Finishes-lift}
use node_vmm.Bytes.{u32, Memory, check, check_range}
use node_vmm.Boot.Params.{copy_bytes}
use node_vmm.Boot.Copies.{copy_bytes-Stands}
use node_vmm.Acpi.Devices.{build_dsdt_body, check_virtio_mmio_device_count}
use node_vmm.Acpi.Tables.{
  build_dsdt_table, build_hpet_table, build_fadt, build_madt, build_rsdt, build_xsdt, build_rsdp,
}
use node_vmm.Acpi.Place.{Low, rsdp_addr, write_rsdp, write_tables, create_acpi_tables, first_cursor}
use node_vmm.Acpi.Placed.{AllStand, AllStand-copy, then_table}
use node_vmm.Acpi.Names.{
  Names, build_rsdp-Names, build_rsdt-Names, build_xsdt-Names, build_fadt-Names,
}
use node_vmm.Acpi.Sizes.{
  length-build_fadt, length-build_madt, length-build_hpet_table, length-build_rsdt,
  length-build_xsdt, length-build_rsdp, build_dsdt_table_small,
}

-- The tables, the last one first.
abbrev pub tables_of : ℕ → List ℕ → ℕ → ℕ → ℕ → ℕ → ℕ → ℕ → List (ℕ × List ℕ)
tables_of cpus body dsdt fadt madt hpet rsdt xsdt =
    (xsdt, build_xsdt fadt madt hpet)
    ∷ (rsdt, build_rsdt fadt madt hpet)
    ∷ (hpet, build_hpet_table)
    ∷ (madt, build_madt cpus)
    ∷ (fadt, build_fadt dsdt)
    ∷ (dsdt, body)
    ∷ []

-- Each table stands, whole, and the bytes of its address stand where the table before it names it:
-- in the pointer structure the RSDT at 16 and the XSDT at 24, in each of these the others from 36
-- on, and in the FADT the DSDT at 40 and 140.
abbrev pub AreLinked : ℕ → List ℕ → Memory → Type 0
AreLinked cpus body m =
    (dsdt : ℕ) × (fadt : ℕ) × (madt : ℕ) × (hpet : ℕ) × (rsdt : ℕ) × (xsdt : ℕ) × AllStand
      ((rsdp_addr, build_rsdp rsdt xsdt) ∷ tables_of cpus body dsdt fadt madt hpet rsdt xsdt)
      (rsdp_addr + 36) m
    × (Names 4 (rsdp_addr + 16) rsdt m × Names 8 (rsdp_addr + 24) xsdt m)
    × (Names 4 (rsdt + 36) fadt m × Names 4 (rsdt + 40) madt m × Names 4 (rsdt + 44) hpet m)
    × (Names 8 (xsdt + 36) fadt m × Names 8 (xsdt + 44) madt m × Names 8 (xsdt + 52) hpet m)
    × (Names 4 (fadt + 40) dsdt m × Names 8 (fadt + 140) dsdt m)

-- The names are in the bytes of the tables.
all_named :
    (cpus : ℕ) (body : List ℕ) (dsdt fadt madt hpet rsdt xsdt : ℕ) (m : Memory)
    → AllStand
        ((rsdp_addr, build_rsdp rsdt xsdt) ∷ tables_of cpus body dsdt fadt madt hpet rsdt xsdt)
        (rsdp_addr + 36)
        m
    → AreLinked cpus body m
all_named cpus body dsdt fadt madt hpet rsdt xsdt m all =
    let (s_rsdp, l_rsdp, all₁) = all in
    let (s_xsdt, l_xsdt, all₂) = all₁ in
    let (s_rsdt, l_rsdt, all₃) = all₂ in
    let (s_hpet, l_hpet, all₄) = all₃ in
    let (s_madt, l_madt, all₅) = all₄ in
    let (s_fadt, l_fadt, all₆) = all₅ in
    (
      dsdt,
      fadt,
      madt,
      hpet,
      rsdt,
      xsdt,
      all,
      build_rsdp-Names rsdp_addr rsdt xsdt m s_rsdp,
      build_rsdt-Names rsdt fadt madt hpet m s_rsdt,
      build_xsdt-Names xsdt fadt madt hpet m s_xsdt,
      build_fadt-Names fadt dsdt m s_fadt,
    )

-- The last step, after the other tables.
write_rsdp-AreLinked :
    (mem_size cpus : ℕ) (body : List ℕ) (dsdt fadt madt hpet rsdt xsdt cursor : ℕ) (m : Memory)
    → rsdp_addr + 36 ≤ mem_size
    → cursor ≤ rsdp_addr
    → AllStand (tables_of cpus body dsdt fadt madt hpet rsdt xsdt) cursor m
    → Finishes
        (λ addr s. (addr ≡ rsdp_addr) × AreLinked cpus body s.1)
        (write_rsdp mem_size rsdt xsdt (cursor, m))
unfolding write_rsdp Finishes check_range check
write_rsdp-AreLinked mem_size cpus body dsdt fadt madt hpet rsdt xsdt cursor m inside below all =
    let rsdp_len = length-build_rsdp rsdt xsdt in
    let fits : check_range mem_size rsdp_addr (length (build_rsdp rsdt xsdt)) "RSDP" ≡ ok tt =
      ground arith in
    Finishes-lift (λ addr s. (addr ≡ rsdp_addr) × AreLinked cpus body s.1)
      (check_range mem_size rsdp_addr (length (build_rsdp rsdt xsdt)) "RSDP") tt (cursor, m) _ fits
      (
        refl,
        all_named cpus body dsdt fadt madt hpet rsdt xsdt
            (copy_bytes rsdp_addr (build_rsdp rsdt xsdt) m)
            (
              copy_bytes-Stands rsdp_addr (build_rsdp rsdt xsdt) m,
              omega arith,
              AllStand-copy (tables_of cpus body dsdt fadt madt hpet rsdt xsdt) cursor
                  (rsdp_addr + 36) rsdp_addr (build_rsdp rsdt xsdt) m all below (omega arith),
            ),
      )

write_tables-AreLinked :
    (mem_size cpus : ℕ) (body : List ℕ) (m : Memory)
    → length body ≤ 4096
    → cpus ≤ 1024
    → rsdp_addr + 36 ≤ mem_size
    → Finishes
        (λ addr s. (addr ≡ rsdp_addr) × AreLinked cpus body s.1)
        (write_tables mem_size cpus body (first_cursor, m))
unfolding write_tables Finishes check_range check
write_tables-AreLinked mem_size cpus body m small cpus_le inside =
    let Q : ℕ → Low → Type 0 = λ addr s. (addr ≡ rsdp_addr) × AreLinked cpus body s.1 in
    let madt_len = length-build_madt cpus in
    let hpet_len = length-build_hpet_table in
    let Tables : Type 0 = List (ℕ × List ℕ) in
    then_table Q mem_size body [] first_cursor m _ tt (omega arith) (omega arith)
      λ dsdt c₁ m₁ l₁ s₁.
        let fadt_len = length-build_fadt dsdt in
        let t₁ : Tables = (dsdt, body) ∷ [] in
        then_table Q mem_size (build_fadt dsdt) t₁ c₁ m₁ _ s₁ (omega arith) (omega arith)
          λ fadt c₂ m₂ l₂ s₂.
            let t₂ : Tables = (fadt, build_fadt dsdt) ∷ t₁ in
            then_table Q mem_size (build_madt cpus) t₂ c₂ m₂ _ s₂ (omega arith) (omega arith)
              λ madt c₃ m₃ l₃ s₃.
                let t₃ : Tables = (madt, build_madt cpus) ∷ t₂ in
                then_table Q mem_size build_hpet_table t₃ c₃ m₃ _ s₃ (omega arith) (omega arith)
                  λ hpet c₄ m₄ l₄ s₄.
                    let rsdt_len = length-build_rsdt fadt madt hpet in
                    let xsdt_len = length-build_xsdt fadt madt hpet in
                    let t₄ : Tables = (hpet, build_hpet_table) ∷ t₃ in
                    then_table Q mem_size (build_rsdt fadt madt hpet) t₄ c₄ m₄ _ s₄ (omega arith)
                      (omega arith)
                      λ rsdt c₅ m₅ l₅ s₅.
                        let t₅ : Tables = (rsdt, build_rsdt fadt madt hpet) ∷ t₄ in
                        then_table Q mem_size (build_xsdt fadt madt hpet) t₅ c₅ m₅ _ s₅
                          (omega arith) (omega arith)
                          λ xsdt c₆ m₆ l₆ s₆.
                            write_rsdp-AreLinked mem_size cpus body dsdt fadt madt hpet rsdt xsdt c₆
                              m₆ inside (omega arith) s₆

-- With at most 17 disks and 1024 processors, in a guest memory that reaches beyond the low
-- megabyte's ACPI area, the tables are written: each stands, whole and beside the others, and the
-- bytes of its address are in the table before it, from the pointer structure at 0xE0000 on.
pub create_acpi_tables-AreLinked :
    (mem_size : ℕ) (network_enabled : Bool) (cpus disk_count : ℕ) (m : Memory)
    → disk_count < 18
    → cpus ≤ 1024
    → rsdp_addr + 36 ≤ mem_size
    → (body : List ℕ) × (build_dsdt_table network_enabled disk_count ≡ ok body)
      × Finishes
          (λ addr s. (addr ≡ rsdp_addr) × AreLinked cpus body s.1)
          (create_acpi_tables mem_size network_enabled cpus disk_count (first_cursor, m))
unfolding create_acpi_tables
create_acpi_tables-AreLinked mem_size network_enabled cpus disk_count m few cpus_le inside =
    let (body, e, small) = build_dsdt_table_small network_enabled disk_count few in
    (
      body,
      e,
      Finishes-lift (λ addr s. (addr ≡ rsdp_addr) × AreLinked cpus body s.1)
          (build_dsdt_table network_enabled disk_count) body (first_cursor, m) _ e
          (write_tables-AreLinked mem_size cpus body m small cpus_le inside),
    )

-- For more than 17 disks the lines of the interrupt controller do not suffice: nothing is written.
pub create_acpi_tables-err :
    (mem_size : ℕ) (network_enabled : Bool) (cpus disk_count : ℕ) (s : Low)
    → 17 < disk_count
    → disk_count + 2 < 2 ^ 32
    → create_acpi_tables mem_size network_enabled cpus disk_count s
      ≡ (err "too many virtio-mmio devices", s)
unfolding create_acpi_tables build_dsdt_table build_dsdt_body check_virtio_mmio_device_count check
create_acpi_tables-err mem_size network_enabled cpus disk_count s many h =
    let count : ℕ = u32 (u32 (disk_count + 1) + 1) in
    let some_device : ltb 0 count ≡ true = ground arith in
    let too_many : ltb (5 + count - 1) 24 ≡ false = ground arith in rw (some_device, too_many) refl
