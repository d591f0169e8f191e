-- ===== src/Acpi/Names.antt =====
-- The addresses that the tables hold, as bytes in memory.
use node_vmm.Prelude.{
  ℕ, zero, suc, ◌+◌, ◌*◌, ◌/◌, ◌^◌, ◌<◌, ◌≤◌, ◌≡◌, refl, ap, ◌∙◌, sym, arith, List, [], ◌∷◌, length,
  take, drop,
}
use node_vmm.Bytes.{u8, Memory}
use node_vmm.Boot.Table.{bytes_of_u32}
use node_vmm.Boot.Copies.{byte_at, byte_at-take, Stands}
use node_vmm.Acpi.Encode.{bytes_of_u64}
use node_vmm.Acpi.Tables.{build_fadt, build_rsdt, build_xsdt, build_rsdp}
use node_vmm.Acpi.Sizes.{length-build_fadt, length-build_rsdt, length-build_xsdt, length-build_rsdp}

-- The first `n` bytes of a number stand at `p`, the lowest first.
abbrev pub Names : ℕ → ℕ → ℕ → Memory → Type 0
Names n p v m = (k : ℕ) → k < n → m (p + k) ≡ u8 (v / 2 ^ (8 * k))

byte_at-drop : (n k : ℕ) (bytes : List ℕ) → byte_at (drop n bytes) k ≡ byte_at bytes (n + k)
unfolding byte_at
byte_at-drop zero k bytes = ap (byte_at bytes) (let e : k ≡ 0 + k = omega arith in e)
byte_at-drop (suc n) k [] = refl
byte_at-drop (suc n) k (b ∷ bytes) =
    byte_at-drop n k bytes
    ∙ ap (byte_at (b ∷ bytes)) (let e : suc (n + k) ≡ suc n + k = omega arith in e)

byte_at-bytes_of_u32 : (v k : ℕ) → k < 4 → u8 (byte_at (bytes_of_u32 v) k) ≡ u8 (v / 2 ^ (8 * k))
unfolding byte_at
byte_at-bytes_of_u32 v zero h = omega arith
byte_at-bytes_of_u32 v (suc zero) h = omega arith
byte_at-bytes_of_u32 v (suc (suc zero)) h = omega arith
byte_at-bytes_of_u32 v (suc (suc (suc zero))) h = omega arith
byte_at-bytes_of_u32 v (suc (suc (suc (suc k)))) h = absurd (omega arith)

byte_at-bytes_of_u64 : (v k : ℕ) → k < 8 → u8 (byte_at (bytes_of_u64 v) k) ≡ u8 (v / 2 ^ (8 * k))
unfolding byte_at
byte_at-bytes_of_u64 v zero h = omega arith
byte_at-bytes_of_u64 v (suc zero) h = omega arith
byte_at-bytes_of_u64 v (suc (suc zero)) h = omega arith
byte_at-bytes_of_u64 v (suc (suc (suc zero))) h = omega arith
byte_at-bytes_of_u64 v (suc (suc (suc (suc zero)))) h = omega arith
byte_at-bytes_of_u64 v (suc (suc (suc (suc (suc zero))))) h = omega arith
byte_at-bytes_of_u64 v (suc (suc (suc (suc (suc (suc zero)))))) h = omega arith
byte_at-bytes_of_u64 v (suc (suc (suc (suc (suc (suc (suc zero))))))) h = omega arith
byte_at-bytes_of_u64 v (suc (suc (suc (suc (suc (suc (suc (suc k)))))))) h = absurd (omega arith)

-- A number whose bytes are part of a table, where that stands.
Stands-Names :
    (n p off v : ℕ) (bytes table : List ℕ) (m : Memory)
    → ((k : ℕ) → k < n → u8 (byte_at bytes k) ≡ u8 (v / 2 ^ (8 * k)))
    → take n (drop off table) ≡ bytes
    → off + n ≤ length table
    → Stands p table m
    → Names n (p + off) v m
Stands-Names n p off v bytes table m number part inside stands k h =
    ap m (let e : p + off + k ≡ p + (off + k) = omega arith in e)
    ∙ (stands (off + k) (omega arith)
        ∙ (ap u8 (
              sym (byte_at-drop off k table)
              ∙ (sym (byte_at-take n k (drop off table) h) ∙ ap (λ l. byte_at l k) part))
            ∙ number k h))

-- The pointer structure names the two tables of tables.
pub build_rsdp-Names :
    (p rsdt xsdt : ℕ) (m : Memory)
    → Stands p (build_rsdp rsdt xsdt) m
    → Names 4 (p + 16) rsdt m × Names 8 (p + 24) xsdt m
unfolding build_rsdp
build_rsdp-Names p rsdt xsdt m s =
    let len = length-build_rsdp rsdt xsdt in
    let table : List ℕ = build_rsdp rsdt xsdt in
    (
      Stands-Names 4 p 16 rsdt (bytes_of_u32 rsdt) table m (byte_at-bytes_of_u32 rsdt) refl
          (omega arith) s,
      Stands-Names 8 p 24 xsdt (bytes_of_u64 xsdt) table m (byte_at-bytes_of_u64 xsdt) refl
          (omega arith) s,
    )

pub build_rsdt-Names :
    (p fadt madt hpet : ℕ) (m : Memory)
    → Stands p (build_rsdt fadt madt hpet) m
    → Names 4 (p + 36) fadt m × Names 4 (p + 40) madt m × Names 4 (p + 44) hpet m
unfolding build_rsdt
build_rsdt-Names p fadt madt hpet m s =
    let len = length-build_rsdt fadt madt hpet in
    let table : List ℕ = build_rsdt fadt madt hpet in
    (
      Stands-Names 4 p 36 fadt (bytes_of_u32 fadt) table m (byte_at-bytes_of_u32 fadt) refl
          (omega arith) s,
      Stands-Names 4 p 40 madt (bytes_of_u32 madt) table m (byte_at-bytes_of_u32 madt) refl
          (omega arith) s,
      Stands-Names 4 p 44 hpet (bytes_of_u32 hpet) table m (byte_at-bytes_of_u32 hpet) refl
          (omega arith) s,
    )

pub build_xsdt-Names :
    (p fadt madt hpet : ℕ) (m : Memory)
    → Stands p (build_xsdt fadt madt hpet) m
    → Names 8 (p + 36) fadt m × Names 8 (p + 44) madt m × Names 8 (p + 52) hpet m
unfolding build_xsdt
build_xsdt-Names p fadt madt hpet m s =
    let len = length-build_xsdt fadt madt hpet in
    let table : List ℕ = build_xsdt fadt madt hpet in
    (
      Stands-Names 8 p 36 fadt (bytes_of_u64 fadt) table m (byte_at-bytes_of_u64 fadt) refl
          (omega arith) s,
      Stands-Names 8 p 44 madt (bytes_of_u64 madt) table m (byte_at-bytes_of_u64 madt) refl
          (omega arith) s,
      Stands-Names 8 p 52 hpet (bytes_of_u64 hpet) table m (byte_at-bytes_of_u64 hpet) refl
          (omega arith) s,
    )

-- The fixed table names the description of the devices twice, as DSDT and X_DSDT.
pub build_fadt-Names :
    (p dsdt : ℕ) (m : Memory)
    → Stands p (build_fadt dsdt) m
    → Names 4 (p + 40) dsdt m × Names 8 (p + 140) dsdt m
unfolding build_fadt
build_fadt-Names p dsdt m s =
    let len = length-build_fadt dsdt in
    let table : List ℕ = build_fadt dsdt in
    (
      Stands-Names 4 p 40 dsdt (bytes_of_u32 dsdt) table m (byte_at-bytes_of_u32 dsdt) refl
          (omega arith) s,
      Stands-Names 8 p 140 dsdt (bytes_of_u64 dsdt) table m (byte_at-bytes_of_u64 dsdt) refl
          (omega arith) s,
    )
