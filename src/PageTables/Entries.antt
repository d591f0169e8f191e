-- ===== src/PageTables/Entries.antt =====
-- The entries that build_page_tables leaves in the tables.
use node_vmm.Prelude.{
  ℕ, zero, suc, ◌+◌, ◌*◌, ◌/◌, ◌^◌, ◌≤◌, ◌<◌, ◌≡◌, refl, ap, ap₂, ◌∙◌, arith, ◌⊎◌, inl, inr,
  ℕ_discrete, bit_or,
}
use node_vmm.Bits.Fields.{bit_or-lt}
use node_vmm.Bytes.{Memory, u8, u64, write_u64, read_u64}
use node_vmm.Bytes.RoundTrip.{IsBytes}
use node_vmm.PageTables.{
  map_pages, map_tables, build_page_tables, directory, page_size, flags, huge,
}
use node_vmm.PageTables.Stores.{
  Holds, write_u64-Holds, write_u64_outside, write_u64-IsBytes, read_u64-Holds, page_entry,
  map_pages_outside, map_pages-Holds, map_pages-IsBytes,
}

module _ (base : ℕ) (low : base + 0x6000 ≤ 2 ^ 32) where
  abbrev pub pdpt : ℕ
  pdpt = base + 0x1000

  abbrev pub pd : ℕ → ℕ
  pd i = base + 0x2000 + i * 0x1000

  -- Neither an entry nor a directory from `i` on.
  abbrev IsBefore : ℕ → ℕ → Type 0
  IsBefore i a = (a < pdpt + i * 8) ⊎ ((base + 0x2000 ≤ a) × (a < pd i))

  directory-eq : (i : ℕ) → i < 4 → directory base i ≡ pd i
  directory-eq i h = omega (arith, low)

  pdpt-eq : u64 (base + page_size) ≡ pdpt
  pdpt-eq = omega (arith, low)

  -- One round of the outer loop.
  abbrev round : ℕ → Memory → Memory
  round i m = map_pages 512 i 0 (pd i) (write_u64 (pdpt + i * 8) (bit_or (pd i) flags) m)

  map_tables-suc :
      (n i : ℕ) (m : Memory)
      → i < 4
      → map_tables (suc n) i base m ≡ map_tables n (i + 1) base (round i m)
  unfolding map_tables
  map_tables-suc n i m h =
      ap₂
        (λ d q.
          map_tables n (i + 1) base
            (map_pages 512 i 0 d (write_u64 (q + i * 8) (bit_or d flags) m)))
        (directory-eq i h) pdpt-eq

  round_before : (i a : ℕ) (m : Memory) → i < 4 → IsBefore i a → round i m a ≡ m a
  round_before i a m h (inl p) =
      map_pages_outside (pd i) i 512 0 a _ (inl (omega arith))
      ∙ write_u64_outside (pdpt + i * 8) (bit_or (pd i) flags) a m (inl (omega arith))
  round_before i a m h (inr (p, q)) =
      map_pages_outside (pd i) i 512 0 a _ (inl (omega arith))
      ∙ write_u64_outside (pdpt + i * 8) (bit_or (pd i) flags) a m (inr (omega arith))

  IsBefore-suc : (i a : ℕ) → IsBefore i a → IsBefore (i + 1) a
  IsBefore-suc i a (inl p) = inl (omega arith)
  IsBefore-suc i a (inr (p, q)) = inr (p, omega arith)

  map_tables_before :
      (n i a : ℕ) (m : Memory) → i + n ≤ 4 → IsBefore i a → map_tables n i base m a ≡ m a
  unfolding map_tables
  map_tables_before zero i a m h b = refl
  map_tables_before (suc n) i a m h b =
      ap (λ (f : Memory). f a) (map_tables-suc n i m (omega arith))
      ∙ (map_tables_before n (i + 1) a (round i m) (omega arith) (IsBefore-suc i a b)
          ∙ round_before i a m (omega arith) b)

  -- The entry and the pages of GiB `t`.
  abbrev HasTable : ℕ → Memory → Type 0
  HasTable t m =
      Holds (pdpt + t * 8) (bit_or (pd t) flags) m
      × ((j : ℕ) → j < 512 → Holds (pd t + j * 8) (page_entry (pd t) t j) m)

  round-HasTable : (i : ℕ) (m : Memory) → i < 4 → HasTable i (round i m)
  round-HasTable i m h = (
    (λ k l.
        map_pages_outside (pd i) i 512 0 (pdpt + i * 8 + k) _ (inl (omega arith))
        ∙ write_u64-Holds (pdpt + i * 8) (bit_or (pd i) flags) m k l),
    (λ j l. map_pages-Holds (pd i) i 512 0 j _ (omega arith) (omega arith)),
  )

  map_tables-HasTable :
      (n i t : ℕ) (m : Memory) → i + n ≤ 4 → i ≤ t → t < i + n → HasTable t (map_tables n i base m)
  map_tables-HasTable zero i t m h g l = absurd (omega arith)
  map_tables-HasTable (suc n) i t m h g l =
      let e : map_tables (suc n) i base m ≡ map_tables n (i + 1) base (round i m) =
        map_tables-suc n i m (omega arith) in
      elim (ℕ_discrete t i) [
        | no ne ↦
            rw e (
              map_tables-HasTable n (i + 1) t (round i m) (omega arith) (omega arith) (omega arith))
        | yes q ↦
            let (entry, pages) = round-HasTable i m (omega arith) in
            rw (e, q)
              (
                (λ k b.
                    map_tables_before n (i + 1) (pdpt + i * 8 + k) (round i m) (omega arith)
                      (inl (omega arith))
                    ∙ entry k b),
                (λ j b k c.
                    map_tables_before n (i + 1) (pd i + j * 8 + k) (round i m) (omega arith)
                      (inr (omega arith, omega arith))
                    ∙ pages j b k c),
              )
      ]

  map_tables-IsBytes : (n i : ℕ) (m : Memory) → IsBytes m → IsBytes (map_tables n i base m)
  unfolding map_tables
  map_tables-IsBytes zero i m b = b
  map_tables-IsBytes (suc n) i m b =
      map_tables-IsBytes n (i + 1) _
        (map_pages-IsBytes (directory base i) i 512 0 _ (write_u64-IsBytes _ _ m b))

  -- What the walk loads on its way to an address.
  pub top_entry :
      (m : Memory) → IsBytes m → read_u64 base (build_page_tables base m) ≡ bit_or pdpt flags
  unfolding build_page_tables
  top_entry m b =
      let m₁ : Memory = write_u64 base (bit_or (u64 (base + page_size)) flags) m in
      read_u64-Holds base (bit_or pdpt flags) (map_tables 4 0 base m₁)
        (map_tables-IsBytes 4 0 m₁
          (write_u64-IsBytes base (bit_or (u64 (base + page_size)) flags) m b))
        (bit_or-lt 64 pdpt flags (omega (arith, low)) (omega arith))
        (λ k l.
          map_tables_before 4 0 (base + k) m₁ (omega arith) (inl (omega arith))
          ∙ (write_u64-Holds base (bit_or (u64 (base + page_size)) flags) m k l
              ∙ ap (λ q. u8 (bit_or q flags / 2 ^ (8 * k))) pdpt-eq))

  pub gib_entry :
      (t : ℕ) (m : Memory)
      → IsBytes m
      → t < 4
      → read_u64 (pdpt + t * 8) (build_page_tables base m) ≡ bit_or (pd t) flags
  unfolding build_page_tables
  gib_entry t m b h =
      let m₁ : Memory = write_u64 base (bit_or (u64 (base + page_size)) flags) m in
      let (entry, pages) = map_tables-HasTable 4 0 t m₁ (omega arith) (omega arith) (omega arith) in
      read_u64-Holds (pdpt + t * 8) (bit_or (pd t) flags) (map_tables 4 0 base m₁)
        (map_tables-IsBytes 4 0 m₁
          (write_u64-IsBytes base (bit_or (u64 (base + page_size)) flags) m b))
        (bit_or-lt 64 (pd t) flags (omega (arith, low)) (omega arith)) entry

  pub huge_entry :
      (t j : ℕ) (m : Memory)
      → IsBytes m
      → t < 4
      → j < 512
      → read_u64 (pd t + j * 8) (build_page_tables base m) ≡ page_entry (pd t) t j
  unfolding build_page_tables
  huge_entry t j m b h l =
      let m₁ : Memory = write_u64 base (bit_or (u64 (base + page_size)) flags) m in
      let (entry, pages) = map_tables-HasTable 4 0 t m₁ (omega arith) (omega arith) (omega arith) in
      read_u64-Holds (pd t + j * 8) (page_entry (pd t) t j) (map_tables 4 0 base m₁)
        (map_tables-IsBytes 4 0 m₁
          (write_u64-IsBytes base (bit_or (u64 (base + page_size)) flags) m b))
        (bit_or-lt 64 (u64 ((t * 512 + j) * 0x200000)) huge (omega arith) (omega arith)) (pages j l)
