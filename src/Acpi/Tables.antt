-- ===== src/Acpi/Tables.antt =====
-- The tables, as the bytes of their vectors.
use Prim.Native.String.{String}
use node_vmm.Prelude.{
  ℕ, zero, suc, ◌+◌, ◌^◌, Bool, List, [], ◌∷◌, ◌++◌, length, take, drop, Result, ok, ◌>>=◌,
}
use node_vmm.Bytes.{u8, u32}
use node_vmm.Boot.Table.{bytes_of_u16, bytes_of_u32, checksum}
use node_vmm.Uart.Console.{codes}
use node_vmm.VirtioNet.Receive.{zeros}
use node_vmm.Acpi.Encode.{bytes_of_u64}
use node_vmm.Acpi.Devices.{build_dsdt_body}

-- A store of some bytes into a vector.
abbrev pub put_at : ℕ → List ℕ → List ℕ → List ℕ
put_at off bytes out = take off out ++ (bytes ++ drop (off + length bytes) out)

-- The loop and the complement of `TableChecksum` are those of `Checksum`.
abbrev pub table_checksum : List ℕ → ℕ
table_checksum table = checksum table

unfoldable pub build_sdt_header : String → ℕ → ℕ → String → List ℕ
build_sdt_header sig len rev table_id =
    codes sig
    ++ (bytes_of_u32 len
        ++ ((rev ∷ 0 ∷ codes "GOCRKR")
            ++ (codes table_id
                ++ (bytes_of_u32 0 ++ (bytes_of_u32 0x47434154 ++ bytes_of_u32 0x20260402)))))

-- Byte 9 makes the sum 0.
unfoldable pub finalize_sdt : List ℕ → List ℕ
finalize_sdt table =
    let back : List ℕ = drop 10 table in
    take 9 table ++ table_checksum (take 9 table ++ 0 ∷ back) ∷ back

-- A header before a body.
abbrev pub with_header : String → ℕ → String → List ℕ → List ℕ
with_header sig rev table_id body =
    finalize_sdt (build_sdt_header sig (u32 (36 + length body)) rev table_id ++ body)

unfoldable pub build_dsdt_table : Bool → ℕ → Result (List ℕ)
unfolding build_dsdt_body build_sdt_header finalize_sdt
build_dsdt_table network_enabled disk_count = do
  body ← build_dsdt_body network_enabled disk_count
  ok (with_header "DSDT" 2 "GCDSDT01" body)

-- After the header: the identity of the timer block, its address, and zeros.
unfoldable pub build_hpet_table : List ℕ
unfolding build_sdt_header finalize_sdt
build_hpet_table =
    with_header "HPET" 1 "GCHPET01"
      (bytes_of_u32 0x8086a201 ++ (zeros 4 ++ (bytes_of_u64 0xfed00000 ++ zeros 4)))

unfoldable pub build_fadt : ℕ → List ℕ
unfolding build_sdt_header finalize_sdt
build_fadt dsdt_addr =
    let blank : List ℕ = put_at 0 (build_sdt_header "FACP" 276 6 "GCFADT01") (zeros 276) in
    let fixed : List ℕ = put_at 112 (bytes_of_u32 (2 ^ 20 + 2 ^ 8 + 2 ^ 4 + 2 ^ 5)) (
      put_at 109 (bytes_of_u16 4) (
        put_at 108 (0x32 ∷ []) (
          put_at 91 (4 ∷ [])
            (put_at 76 (bytes_of_u32 0x408) (put_at 40 (bytes_of_u32 dsdt_addr) blank))))) in
    finalize_sdt (
      put_at 268 (codes "GOCRKVM ") (
        put_at 212 (bytes_of_u64 0x408) (
          put_at 208 (1 ∷ 32 ∷ 0 ∷ 3 ∷ [])
            (put_at 140 (bytes_of_u64 dsdt_addr) (put_at 131 (5 ∷ []) fixed)))))

-- The local interrupt controllers, `n` of them from processor `i` on.
unfoldable pub lapic_entries : ℕ → ℕ → List ℕ
lapic_entries zero i = []
lapic_entries (suc n) i = (0 ∷ 8 ∷ u8 i ∷ u8 i ∷ bytes_of_u32 1) ++ lapic_entries n (i + 1)

unfoldable pub build_madt : ℕ → List ℕ
unfolding build_sdt_header finalize_sdt lapic_entries
build_madt cpus = with_header "APIC" 6 "GCMADT01" (
    (bytes_of_u32 0xfee00000 ++ bytes_of_u32 1)
    ++ ((1 ∷ 12 ∷ 0 ∷ 0 ∷ bytes_of_u32 0xfec00000 ++ bytes_of_u32 0)
        ++ ((2 ∷ 10 ∷ 0 ∷ 0 ∷ bytes_of_u32 2 ++ bytes_of_u16 0) ++ lapic_entries cpus 0)))

-- The addresses of the tables, in 32 bits and in 64.
unfoldable pub build_rsdt : ℕ → ℕ → ℕ → List ℕ
unfolding build_sdt_header finalize_sdt
build_rsdt fadt madt hpet =
    with_header "RSDT" 1 "GCRSDT01" (bytes_of_u32 fadt ++ (bytes_of_u32 madt ++ bytes_of_u32 hpet))

unfoldable pub build_xsdt : ℕ → ℕ → ℕ → List ℕ
unfolding build_sdt_header finalize_sdt
build_xsdt fadt madt hpet =
    with_header "XSDT" 1 "GCXSDT01" (bytes_of_u64 fadt ++ (bytes_of_u64 madt ++ bytes_of_u64 hpet))

-- The first 20 bytes, with the checksum byte `sum`, and what follows byte 32.
abbrev pub rsdp_front : ℕ → ℕ → List ℕ
rsdp_front rsdt_addr sum = codes "RSD PTR " ++ (sum ∷ codes "GOCRKR" ++ 2 ∷ bytes_of_u32 rsdt_addr)

unfoldable pub build_rsdp : ℕ → ℕ → List ℕ
build_rsdp rsdt_addr xsdt_addr =
    let first : List ℕ = rsdp_front rsdt_addr (checksum (rsdp_front rsdt_addr 0)) in
    let front : List ℕ = first ++ (bytes_of_u32 36 ++ bytes_of_u64 xsdt_addr) in
    front ++ checksum (front ++ zeros 4) ∷ zeros 3
