-- ===== src/VirtioBlk/Bitmap.antt =====
-- The bitmap of the sectors that are in the overlay.
use node_vmm.Prelude.{
  ℕ, zero, suc, ◌+◌, ◌-◌, ◌*◌, ◌/◌, ◌%◌, ◌^◌, ◌≤◌, ◌<◌, ◌≡◌, refl, ap, ◌∙◌, arith, ltb, leb, ◌&&◌,
  ◌||◌, ◌==◌, true, false, not, Bool-cases, inl, inr, dec_lt, bit_or, ℕ_discrete,
}
use node_vmm.Bits.{bit_at, bit_at-or, bit_at-le}
use node_vmm.Bits.Fields.{bit_at-mod}
use node_vmm.Bits.Flags.{bit_at_pow, is_set, is_set_bit}
use node_vmm.Bytes.{u8, u64, poke}
use node_vmm.VirtioBlk.State.{Disk, has_overlay, sector_dirty, mark_dirty}
use node_vmm.VirtioBlk.Disk.{mark_sectors, mark_dirty_range}

is_set-or : (x s k : ℕ) → k < 8 → is_set (u8 (bit_or x (2 ^ s))) k ≡ (is_set x k || k == s)
is_set-or x s k h =
    rw (is_set_bit (u8 (bit_or x (2 ^ s))) k, is_set_bit x k)
      (elim (ℕ_discrete k s) [
        | yes e ↦
            let one : bit_at (2 ^ s) k ≡ 1 = rw (bit_at_pow, e) (ground arith) in
            ground (arith, bit_at-mod (bit_or x (2 ^ s)) 8 k, bit_at-or x (2 ^ s) k, bit_at-le x k)
        | no n ↦
            let none_set : bit_at (2 ^ s) k ≡ 0 = rw bit_at_pow (ground arith) in
            ground (arith, bit_at-mod (bit_or x (2 ^ s)) 8 k, bit_at-or x (2 ^ s) k, bit_at-le x k)
      ])

-- The bitmap with the bit of `sector` set.
abbrev with_bit : ℕ → (ℕ → ℕ) → ℕ → ℕ
with_bit sector bitmap = poke (sector / 8) (bit_or (bitmap (sector / 8)) (2 ^ (sector % 8))) bitmap

is_set-with_bit :
    (bitmap : ℕ → ℕ) (sector t : ℕ)
    → is_set (with_bit sector bitmap (t / 8)) (t % 8)
      ≡ (is_set (bitmap (t / 8)) (t % 8) || t == sector)
is_set-with_bit bitmap sector t = elim (ℕ_discrete (t / 8) (sector / 8)) [
  | yes e ↦
      let same : ((t / 8) == (sector / 8)) ≡ true = ground arith in
      let bit : ((t % 8) == (sector % 8)) ≡ (t == sector) = ground arith in
      rw (same, e)
        (is_set-or (bitmap (sector / 8)) (sector % 8) (t % 8) (omega arith) ∙ rw bit refl)
  | no n ↦
      let other : ((t / 8) == (sector / 8)) ≡ false = ground arith in
      let bit : (t == sector) ≡ false = ground arith in rw (other, bit) (ground arith)
]

module _ {F : Type 0} where
  -- A disk with an overlay, and a sector on it.
  abbrev pub IsOnOverlay : Disk F → ℕ → Type 0
  IsOnOverlay disk sector = (has_overlay disk ≡ true) × (sector < disk.sectors)

  sector_dirty-eq :
      (disk : Disk F) (sector : ℕ)
      → IsOnOverlay disk sector
      → sector_dirty disk sector ≡ is_set (disk.dirty_sectors (sector / 8)) (sector % 8)
  unfolding sector_dirty
  sector_dirty-eq disk sector (o, p) =
      rw o (let e : leb disk.sectors sector ≡ false = ground arith in rw e refl)

  mark_dirty-eq :
      (disk : Disk F) (sector : ℕ)
      → IsOnOverlay disk sector
      → mark_dirty sector disk ≡ record disk { dirty_sectors = with_bit sector disk.dirty_sectors }
  unfolding mark_dirty
  mark_dirty-eq disk sector (o, p) =
      rw o (let e : leb disk.sectors sector ≡ false = ground arith in rw e refl)

  -- Marking a sector adds it to the dirty ones.
  sector_dirty-mark_dirty :
      (disk : Disk F) (sector t : ℕ)
      → IsOnOverlay disk sector
      → t < disk.sectors
      → sector_dirty (mark_dirty sector disk) t ≡ (sector_dirty disk t || t == sector)
  sector_dirty-mark_dirty disk sector t (o, p) q =
      rw (mark_dirty-eq disk sector (o, p), sector_dirty-eq disk t (o, q))
        (sector_dirty-eq (record disk { dirty_sectors = with_bit sector disk.dirty_sectors }) t
            (o, q)
          ∙ is_set-with_bit disk.dirty_sectors sector t)

  -- Only the bitmap changes.
  abbrev pub with_bitmap : Disk F → (ℕ → ℕ) → Disk F
  with_bitmap disk bitmap = record disk { dirty_sectors = bitmap }

  mark_dirty_bitmap :
      (disk : Disk F) (sector : ℕ)
      → mark_dirty sector disk ≡ with_bitmap disk (mark_dirty sector disk).dirty_sectors
  unfolding mark_dirty
  mark_dirty_bitmap disk sector =
      elim (Bool-cases (not (has_overlay disk) || leb disk.sectors sector)) [
        | inl e ↦ rw e refl
        | inr e ↦ rw e refl
      ]

  pub mark_sectors_bitmap :
      (n sector : ℕ) (disk : Disk F)
      → mark_sectors n sector disk ≡ with_bitmap disk (mark_sectors n sector disk).dirty_sectors
  unfolding mark_sectors
  mark_sectors_bitmap zero sector disk = refl
  mark_sectors_bitmap (suc n) sector disk =
      mark_sectors_bitmap n (sector + 1) (mark_dirty sector disk)
      ∙ ap
          (λ (d : Disk F).
            with_bitmap d (mark_sectors n (sector + 1) (mark_dirty sector disk)).dirty_sectors)
          (mark_dirty_bitmap disk sector)

  sector_dirty-mark_sectors :
      (n sector : ℕ) (disk : Disk F) (t : ℕ)
      → has_overlay disk ≡ true
      → sector + n ≤ disk.sectors
      → t < disk.sectors
      → sector_dirty (mark_sectors n sector disk) t
        ≡ (sector_dirty disk t || (leb sector t && ltb t (sector + n)))
  unfolding mark_sectors
  sector_dirty-mark_sectors zero sector disk t o p q = ground arith
  sector_dirty-mark_sectors (suc n) sector disk t o p q =
      let e : mark_dirty sector disk ≡ with_bitmap disk (mark_dirty sector disk).dirty_sectors =
        mark_dirty_bitmap disk sector in
      sector_dirty-mark_sectors n (sector + 1) (mark_dirty sector disk) t (ap has_overlay e ∙ o)
        (omega (arith, ap (λ (d : Disk F). d.sectors) e))
        (omega (arith, ap (λ (d : Disk F). d.sectors) e))
      ∙ ground (arith, sector_dirty-mark_dirty disk sector t (o, omega arith) q)

  pub mark_dirty_range_bitmap :
      (off len : ℕ) (disk : Disk F)
      → mark_dirty_range off len disk
        ≡ with_bitmap disk (mark_dirty_range off len disk).dirty_sectors
  unfolding mark_dirty_range
  mark_dirty_range_bitmap off len disk = elim (Bool-cases (not (has_overlay disk) || len == 0)) [
    | inl e ↦ rw (mark_dirty_range, e) refl
    | inr e ↦
        rw (mark_dirty_range, e)
          (mark_sectors_bitmap (u64 (off + len - 1) / 512 + 1 - off / 512) (off / 512) disk)
  ]

  sector_dirty_outside : (disk : Disk F) (t : ℕ) → disk.sectors ≤ t → sector_dirty disk t ≡ false
  unfolding sector_dirty
  sector_dirty_outside disk t h =
      let e : leb disk.sectors t ≡ true = ground arith in rw e (ground arith)

  -- A write of whole sectors marks exactly the sectors it covers.
  pub sector_dirty-mark_dirty_range :
      (sector len : ℕ) (disk : Disk F) (t : ℕ)
      → has_overlay disk ≡ true
      → sector * 512 + len ≤ disk.sectors * 512
      → disk.sectors * 512 < 2 ^ 63
      → len % 512 ≡ 0
      → sector_dirty (mark_dirty_range (sector * 512) len disk) t
        ≡ (sector_dirty disk t || (leb sector t && ltb t (sector + len / 512)))
  unfolding mark_dirty_range
  sector_dirty-mark_dirty_range sector len disk t o p small whole = elim (dec_lt t disk.sectors) [
    | yes q ↦ elim (Bool-cases (len == 0)) [
      | inl e ↦
          let z : (not (has_overlay disk) || len == 0) ≡ true = rw o (ground arith) in
          rw (mark_dirty_range, z) (ground arith)
      | inr e ↦
          let z : (not (has_overlay disk) || len == 0) ≡ false = rw o (ground arith) in
          let first : sector * 512 / 512 ≡ sector = omega arith in
          let count : u64 (sector * 512 + len - 1) / 512 + 1 - sector ≡ len / 512 = ground arith in
          rw (mark_dirty_range, z, first, count)
            (sector_dirty-mark_sectors (len / 512) sector disk t o (omega arith) q)
    ]
    | no q ↦
        let e : (mark_dirty_range (sector * 512) len disk).sectors ≡ disk.sectors =
          ap (λ (d : Disk F). d.sectors) (mark_dirty_range_bitmap (sector * 512) len disk) in
        ground (
          arith,
          sector_dirty_outside (mark_dirty_range (sector * 512) len disk) t (omega arith),
          sector_dirty_outside disk t (omega arith),
        )
  ]
