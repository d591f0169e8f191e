-- ===== src/PageTables/Identity.antt =====
-- The tables map every address below 4 GiB to itself.
use node_vmm.Prelude.{
  ℕ, ◌+◌, ◌*◌, ◌/◌, ◌%◌, ◌^◌, ◌≤◌, ◌<◌, ◌≡◌, refl, ap, ◌∙◌, arith, bit_or, Bool, true, false, not,
  ◌&&◌, ◌==◌, if◌then◌else◌, Option, none, some,
}
use node_vmm.Bits.Fields.{bit_or_fields}
use node_vmm.Bytes.{Memory, u64, read_u64}
use node_vmm.Bytes.RoundTrip.{IsBytes}
use node_vmm.PageTables.{build_page_tables, flags, huge}
use node_vmm.PageTables.Stores.{page_entry}
use node_vmm.PageTables.Entries.{pd, top_entry, gib_entry, huge_entry}

-- The walk of the processor for a page of 2 MiB: the target of an entry, and its bits. An entry of the
-- upper two levels that is a page itself, of 1 GiB, or has that bit where it is reserved, is no way
-- to such a page.
abbrev target : ℕ → ℕ
target e = e / 2 ^ 12 % 2 ^ 40 * 2 ^ 12

abbrev is_present : ℕ → Bool
is_present e = e % 2 == 1

abbrev is_large : ℕ → Bool
is_large e = e / 2 ^ 7 % 2 == 1

abbrev pub translate : ℕ → Memory → ℕ → Option ℕ
translate base m va =
    let e4 = read_u64 (base + va / 2 ^ 39 % 512 * 8) m in
    let e3 = read_u64 (target e4 + va / 2 ^ 30 % 512 * 8) m in
    let e2 = read_u64 (target e3 + va / 2 ^ 21 % 512 * 8) m in
    if is_present e4
      && (not (is_large e4)
          && (is_present e3 && (not (is_large e3) && (is_present e2 && is_large e2))))
    then some (e2 / 2 ^ 21 % 2 ^ 31 * 2 ^ 21 + va % 2 ^ 21)
    else none

-- An entry of a table at a page, and an entry of a page of 2 MiB.
table_entry : (x : ℕ) → x % 0x1000 ≡ 0 → bit_or x flags ≡ x + 7
table_entry x h =
    ap (λ t. bit_or t flags) (let e : x ≡ x / 2 ^ 12 * 2 ^ 12 = omega arith in e)
    ∙ (bit_or_fields (x / 2 ^ 12) 12 7 (omega arith) ∙ omega arith)

page_entry_lem : (pd t j : ℕ) → t < 4 → j < 512 → page_entry pd t j ≡ (t * 512 + j) * 2 ^ 21 + 0x83
page_entry_lem pd t j h l =
    ap (λ x. bit_or x huge)
      (let e : u64 ((t * 512 + j) * 0x200000) ≡ (t * 512 + j) * 2 ^ 21 = omega arith in e)
    ∙ bit_or_fields (t * 512 + j) 21 0x83 (omega arith)

-- With the tables on six whole pages below 4 GiB, in a memory of bytes, the walk of the processor
-- takes every address below 4 GiB to itself.
pub translate-build_page_tables :
    (base va : ℕ) (m : Memory)
    → IsBytes m
    → base % 0x1000 ≡ 0
    → base + 0x6000 ≤ 2 ^ 32
    → va < 2 ^ 32
    → translate base (build_page_tables base m) va ≡ some va
translate-build_page_tables base va m b aligned low h =
    let m' : Memory = build_page_tables base m in
    let t : ℕ = va / 2 ^ 30 in
    let j : ℕ = va / 2 ^ 21 % 512 in
    let i4 : base + va / 2 ^ 39 % 512 * 8 ≡ base = omega arith in
    let i3 : va / 2 ^ 30 % 512 ≡ t = omega arith in
    let e4 : read_u64 base m' ≡ base + 0x1000 + 7 =
      top_entry base low m b ∙ table_entry (base + 0x1000) (omega arith) in
    let e3 : read_u64 (base + 0x1000 + t * 8) m' ≡ pd base low t + 7 =
      gib_entry base low t m b (omega arith) ∙ table_entry (pd base low t) (omega arith) in
    let e2 : read_u64 (pd base low t + j * 8) m' ≡ (t * 512 + j) * 2 ^ 21 + 0x83 =
      huge_entry base low t j m b (omega arith) (omega arith)
      ∙ page_entry_lem (pd base low t) t j (omega arith) (omega arith) in
    let t4 : target (base + 0x1000 + 7) ≡ base + 0x1000 = omega arith in
    let t3 : target (pd base low t + 7) ≡ pd base low t = omega arith in
    let page : ℕ = (t * 512 + j) * 2 ^ 21 + 0x83 in
    let p4 : is_present (base + 0x1000 + 7) ≡ true = ground arith in
    let p3 : is_present (pd base low t + 7) ≡ true = ground arith in
    let l4 : is_large (base + 0x1000 + 7) ≡ false = ground arith in
    let l3 : is_large (pd base low t + 7) ≡ false = ground arith in
    let p2 : is_present page ≡ true = ground arith in
    let l2 : is_large page ≡ true = ground arith in
    let v : page / 2 ^ 21 % 2 ^ 31 * 2 ^ 21 + va % 2 ^ 21 ≡ va = omega arith in
    rw (i4, e4, t4, i3, e3, t3, e2, p4, l4, p3, l3, p2, l2, v) refl
