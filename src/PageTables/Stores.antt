-- ===== src/PageTables/Stores.antt =====
-- What a load finds after stores elsewhere.
use node_vmm.Prelude.{
  ℕ, zero, suc, ◌+◌, ◌*◌, ◌/◌, ◌^◌, ◌≤◌, ◌<◌, ◌≡◌, refl, ap, ◌∙◌, arith, ◌⊎◌, ℕ_discrete, bit_or,
}
use node_vmm.Bytes.{Memory, u8, u64, write_u64, read_u64}
use node_vmm.Bytes.RoundTrip.{
  IsBytes, little_endian, write_bytes_outside, write_bytes_inside, write_bytes-IsBytes,
  little_endian_stored, read_bytes_lem,
}
use node_vmm.PageTables.{map_pages, huge}

-- The eight bytes of `v` stand at `p`.
abbrev pub Holds : ℕ → ℕ → Memory → Type 0
Holds p v m = (k : ℕ) → k < 8 → m (p + k) ≡ u8 (v / 2 ^ (8 * k))

pub write_u64-Holds : (p v : ℕ) (m : Memory) → Holds p v (write_u64 p v m)
unfolding write_u64
write_u64-Holds p v m k h = write_bytes_inside 8 0 p v k m (omega arith) (omega arith)

pub write_u64_outside : (p v a : ℕ) (m : Memory) → (a < p) ⊎ (p + 8 ≤ a) → write_u64 p v m a ≡ m a
unfolding write_u64
write_u64_outside p v a m h = write_bytes_outside 8 0 p v a m (omega arith)

pub write_u64-IsBytes : (p v : ℕ) (m : Memory) → IsBytes m → IsBytes (write_u64 p v m)
unfolding write_u64
write_u64-IsBytes p v m b = write_bytes-IsBytes 8 0 p v m b

pub read_u64-Holds :
    (p v : ℕ) (m : Memory) → IsBytes m → v < 2 ^ 64 → Holds p v m → read_u64 p m ≡ v
unfolding read_u64
read_u64-Holds p v m b h holds =
    read_bytes_lem 8 0 p 0 m b (omega arith) (omega arith)
    ∙ omega (
      arith,
      ap (λ t. little_endian 8 t m) (let e : p + 0 ≡ p = omega arith in e),
      little_endian_stored 8 p v m holds,
    )

module _ (pd i : ℕ) where
  abbrev pub page_entry : ℕ → ℕ
  page_entry j = bit_or (u64 ((i * 512 + j) * 0x200000)) huge

  pub map_pages_outside :
      (n j a : ℕ) (m : Memory)
      → (a < pd + j * 8) ⊎ (pd + (j + n) * 8 ≤ a)
      → map_pages n i j pd m a ≡ m a
  unfolding map_pages
  map_pages_outside zero j a m h = refl
  map_pages_outside (suc n) j a m h =
      map_pages_outside n (j + 1) a (write_u64 (pd + j * 8) (page_entry j) m) (omega arith)
      ∙ write_u64_outside (pd + j * 8) (page_entry j) a m (omega arith)

  pub map_pages-Holds :
      (n j t : ℕ) (m : Memory)
      → j ≤ t
      → t < j + n
      → Holds (pd + t * 8) (page_entry t) (map_pages n i j pd m)
  unfolding map_pages
  map_pages-Holds zero j t m g h = absurd (omega arith)
  map_pages-Holds (suc n) j t m g h = elim (ℕ_discrete t j) [
    | yes e ↦ λ k l.
        map_pages_outside n (j + 1) (pd + t * 8 + k) (write_u64 (pd + j * 8) (page_entry j) m)
          (omega arith)
        ∙ rw e (write_u64-Holds (pd + j * 8) (page_entry j) m k l)
    | no ne ↦
        map_pages-Holds n (j + 1) t (write_u64 (pd + j * 8) (page_entry j) m) (omega arith)
          (omega arith)
  ]

  pub map_pages-IsBytes : (n j : ℕ) (m : Memory) → IsBytes m → IsBytes (map_pages n i j pd m)
  unfolding map_pages
  map_pages-IsBytes zero j m b = b
  map_pages-IsBytes (suc n) j m b =
      map_pages-IsBytes n (j + 1) _ (write_u64-IsBytes (pd + j * 8) (page_entry j) m b)
