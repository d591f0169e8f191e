-- ===== src/VirtioBlk/Safety.antt =====
-- The device stores nothing outside guest memory, whatever the descriptors, the rings and the disk
-- hold, and also where it throws.
use node_vmm.Prelude.{
  ℕ, zero, suc, ◌+◌, ◌-◌, ◌/◌, ◌%◌, ◌≤◌, ◌≡◌, ◌∙◌, arith, ltb, ◌==◌, Bool, true, false, not, Option,
  none, some, Bool-cases, Option-cases, inl, inr, min, ok,
}
use node_vmm.Prelude.State.{continue-keeps, lift-keeps}
use node_vmm.Bytes.{Memory, u64, check, checked_mul, check_range}
use node_vmm.WinIo.{want, pread_loop, pread_all}
use node_vmm.WinIo.Files.{FileApi, IsBounded, place}
use node_vmm.VirtioRng.Ring.{IsKept}
use node_vmm.VirtioBlk.State.{Host, has_overlay, sector_dirty, guest_ptr}
use node_vmm.VirtioBlk.Disk.{read_from, read_sector, read_sectors, read_disk}

pub guest_ptr-ok :
    (mem_size offset size p : ℕ)
    → guest_ptr mem_size offset size ≡ ok p
    → (p ≡ offset) × (offset + size ≤ mem_size)
unfolding guest_ptr check_range check
guest_ptr-ok mem_size offset size p h = ground arith

pub place_outside :
    (n dst : ℕ) (bytes : ℕ → ℕ) (m : Memory) (a : ℕ) → dst + n ≤ a → place n dst bytes m a ≡ m a
place_outside n dst bytes m a h = ground arith

module _ {F : Type 0} (api : FileApi F) (bounded : IsBounded api) (mem_size : ℕ) (m₀ : Memory) where
  pread_loop-IsKept :
      (fuel dst len : ℕ) (f : F) (m : Memory)
      → dst + len ≤ mem_size
      → IsKept mem_size m₀ m
      → IsKept mem_size m₀ (pread_loop api fuel dst len (f, m)).1.1
  unfolding pread_loop
  pread_loop-IsKept zero dst len f m inside kept = elim (Bool-cases (len == 0)) [
    | inl e ↦ rw e kept
    | inr e ↦ rw e kept
  ]
  pread_loop-IsKept (suc fuel) dst zero f m inside kept = kept
  pread_loop-IsKept (suc fuel) dst (suc len) f m inside kept =
      elim (Option-cases (api.read_file (want (suc len)) f).0) [
        | inl e ↦ rw (pread_loop, e) kept
        | inr ((got, bytes), e) ↦ elim (Bool-cases (got == 0)) [
          | inl z ↦ rw (pread_loop, e, z) kept
          | inr z ↦
              let g : got ≤ want (suc len) = bounded (want (suc len)) got bytes f e in
              rw (pread_loop, e, z)
                (pread_loop-IsKept fuel (dst + got) (suc len - got)
                  (api.read_file (want (suc len)) f).1 (place got dst bytes m) (omega arith)
                  (λ a h. place_outside got dst bytes m a (omega arith) ∙ kept a h))
        ]
      ]

  pread_all-IsKept :
      (dst len off : ℕ) (f : F) (m : Memory)
      → dst + len ≤ mem_size
      → IsKept mem_size m₀ m
      → IsKept mem_size m₀ (pread_all api dst len off (f, m)).1.1
  unfolding pread_all
  pread_all-IsKept dst len off f m inside kept = elim (Bool-cases (api.seek off f).0) [
    | inl e ↦ rw (pread_all, e) (pread_loop-IsKept len dst len (api.seek off f).1 m inside kept)
    | inr e ↦ rw (pread_all, e) kept
  ]

  read_from-IsKept :
      (o : Option F) (dirty : Bool) (dst len off : ℕ) (h : Host F)
      → dst + len ≤ mem_size
      → IsKept mem_size m₀ h.memory
      → IsKept mem_size m₀ (read_from api o dirty (pread_all api dst len off) h).1.memory
  read_from-IsKept none dirty dst len off h inside kept =
      pread_all-IsKept dst len off h.disk.base h.memory inside kept
  read_from-IsKept (some f) true dst len off h inside kept =
      pread_all-IsKept dst len off f h.memory inside kept
  read_from-IsKept (some f) false dst len off h inside kept =
      pread_all-IsKept dst len off h.disk.base h.memory inside kept

  abbrev pub Inside : Host F → Type 0
  Inside h = IsKept mem_size m₀ h.memory

  read_sectors-IsKept :
      (fuel off dst len done : ℕ) (h : Host F)
      → dst + len ≤ mem_size
      → Inside h
      → Inside (read_sectors api fuel off dst len done h).1
  unfolding read_sectors
  read_sectors-IsKept zero off dst len done h inside kept = elim (Bool-cases (ltb done len)) [
    | inl e ↦ rw e kept
    | inr e ↦ rw e kept
  ]
  read_sectors-IsKept (suc fuel) off dst len done h inside kept = elim (Bool-cases (ltb done len)) [
    | inr e ↦ rw (read_sectors, e) kept
    | inl e ↦
        let current : ℕ = u64 (off + done) in
        let chunk : ℕ = min (len - done) (512 - current % 512) in
        rw (read_sectors, e)
          (continue-keeps Inside (read_sector api (current / 512) (dst + done) chunk current h)
            (λ r. read_sectors api fuel off dst len (done + chunk))
            (read_from-IsKept h.disk.overlay (sector_dirty h.disk (current / 512)) (dst + done)
              chunk current h (ground arith) kept)
            (λ r h' kept'. read_sectors-IsKept fuel off dst len (done + chunk) h' inside kept'))
  ]

  pub read_disk-IsKept :
      (sector dst len : ℕ) (h : Host F)
      → dst + len ≤ mem_size
      → Inside h
      → Inside (read_disk api sector dst len h).1
  unfolding read_disk
  read_disk-IsKept sector dst len h inside kept =
      lift-keeps Inside (checked_mul sector 512 "virtio-blk read offset") h _ kept λ off e.
        lift-keeps Inside (check_range h.disk.disk_bytes off len "virtio-blk read") h _ kept
          λ done e'. elim (Bool-cases (not (has_overlay h.disk))) [
            | inl n ↦ rw n (pread_all-IsKept dst len off h.disk.base h.memory inside kept)
            | inr n ↦ rw n (read_sectors-IsKept len off dst len 0 h inside kept)
          ]
