-- ===== src/Acpi/Placed.antt =====
-- The tables stand in memory where the others say that they do.
use node_vmm.Prelude.{
  ℕ, ◌+◌, ◌-◌, ◌*◌, ◌/◌, ◌^◌, ◌≤◌, ◌<◌, ◌≡◌, ap, ◌∙◌, arith, inl, true, ltb, leb, List, [], ◌∷◌,
  length,
}
use node_vmm.Prelude.State.{M, Finishes, continue}
use node_vmm.Bits.Fields.{bit_and_mask, bit_and_shifted}
use node_vmm.Bytes.{u64, Memory, check, check_range}
use node_vmm.Boot.Params.{copy_bytes}
use node_vmm.Boot.Checks.{copy_bytes_outside}
use node_vmm.Boot.Copies.{Stands, copy_bytes-Stands}
use node_vmm.Acpi.Place.{Low, align_up, rsdp_addr, write_table}

-- Tables with their addresses, all below the cursor.
abbrev pub AllStand : List (ℕ × List ℕ) → ℕ → Memory → Type 0
AllStand [] cursor m = Unit {0}
AllStand ((addr, table) ∷ tables) cursor m =
    Stands addr table m × (addr + length table ≤ cursor) × AllStand tables cursor m

pub AllStand-copy :
    (tables : List (ℕ × List ℕ)) (cursor cursor' dst : ℕ) (bytes : List ℕ) (m : Memory)
    → AllStand tables cursor m
    → cursor ≤ dst
    → cursor ≤ cursor'
    → AllStand tables cursor' (copy_bytes dst bytes m)
AllStand-copy [] cursor cursor' dst bytes m all h l = tt
AllStand-copy ((addr, table) ∷ tables) cursor cursor' dst bytes m (stands, below, all) h l = (
  λ k j. copy_bytes_outside dst bytes m (addr + k) (inl (omega arith)) ∙ stands k j,
  omega arith,
  AllStand-copy tables cursor cursor' dst bytes m all h l,
)

align_up_lem : (cursor : ℕ) → cursor < 2 ^ 63 → align_up cursor 8 ≡ (cursor + 7) / 8 * 8
align_up_lem cursor h =
    bit_and_shifted (u64 (cursor + 8 - 1)) (2 ^ 61 - 1) 3
    ∙ (ap (λ t. t * 2 ^ 3) (bit_and_mask (u64 (cursor + 8 - 1) / 2 ^ 3) 61) ∙ omega arith)

-- A table is written, and the rest goes on with the cursor behind it.
pub then_table :
    {B : Type 0} (Q : B → Low → Type 0) (mem_size : ℕ) (table : List ℕ) (tables : List (ℕ × List ℕ))
    (cursor : ℕ) (m : Memory) (f : ℕ → M Low B)
    → AllStand tables cursor m
    → cursor + 7 + length table < rsdp_addr
    → rsdp_addr ≤ mem_size
    → ((addr cursor' : ℕ) (m' : Memory)
        → cursor' ≤ cursor + 7 + length table
        → AllStand ((addr, table) ∷ tables) cursor' m'
        → Finishes Q (f addr (cursor', m')))
    → Finishes Q (continue (write_table mem_size table (cursor, m)) f)
unfolding write_table check_range check
then_table Q mem_size table tables cursor m f all fits inside go =
    let addr : ℕ = align_up cursor 8 in
    let e : addr ≡ (cursor + 7) / 8 * 8 = align_up_lem cursor (omega arith) in
    let end : u64 (addr + length table) ≡ addr + length table = omega arith in
    let first : leb addr mem_size ≡ true = ground arith in
    let second : leb (length table) (mem_size - addr) ≡ true = ground arith in
    let third : ltb (u64 (addr + length table)) rsdp_addr ≡ true = ground arith in
    rw (first, second, third)
      (go addr (u64 (addr + length table)) (copy_bytes addr table m) (omega arith) (
        copy_bytes-Stands addr table m,
        omega arith,
        AllStand-copy tables cursor (u64 (addr + length table)) addr table m all (omega arith)
            (omega arith),
      ))
