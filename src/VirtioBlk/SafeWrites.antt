-- ===== src/VirtioBlk/SafeWrites.antt =====
-- Writing to the disk does not change guest memory.
use node_vmm.Prelude.{
  ℕ, zero, suc, ◌+◌, ◌-◌, ◌*◌, ◌/◌, ◌≡◌, leb, ◌&&◌, ◌||◌, ◌==◌, not, Option, none, some, Bool-cases,
  inl, inr, Result, Result-cases,
}
use node_vmm.Prelude.State.{continue-keeps, lift-keeps}
use node_vmm.Bytes.{Memory, u64, check, checked_add, checked_mul, check_range}
use node_vmm.WinIo.{pread_all}
use node_vmm.WinIo.Files.{FileApi}
use node_vmm.VirtioBlk.State.{Host, has_overlay, sector_dirty}
use node_vmm.VirtioBlk.Disk.{
  copy_sector, copy_to, prepare_sectors, prepare_partial_overlay_sectors, write_to, write_file_at,
  write_through, write_disk,
}

module _ {F : Type 0} (api : FileApi F) (m₀ : Memory) where
  abbrev Same : Host F → Type 0
  Same h = h.memory ≡ m₀

  copy_sector-Same :
      (f : F) (buf : Memory) (start : ℕ) (h : Host F)
      → Same h
      → Same (copy_sector api f buf start h).1.0
  unfolding copy_sector
  copy_sector-Same f buf start h same =
      elim (Result-cases (pread_all api 0 512 start (h.disk.base, buf)).0) [
        | inl (e, q) ↦ rw (copy_sector, copy_to, q) same
        | inr (d, q) ↦ rw (copy_sector, copy_to, q) same
      ]

  copy_to-Same :
      (o : Option F) (buf : Memory) (start : ℕ) (h : Host F)
      → Same h
      → Same (copy_to api o buf start h).1.0
  copy_to-Same none buf start h same = same
  copy_to-Same (some f) buf start h same = copy_sector-Same f buf start h same

  prepare_sectors-Same :
      (n off end sector : ℕ) (buf : Memory) (h : Host F)
      → Same h
      → Same (prepare_sectors api n off end sector buf h).1
  unfolding prepare_sectors
  prepare_sectors-Same zero off end sector buf h same = same
  prepare_sectors-Same (suc n) off end sector buf h same =
      elim (Bool-cases (
        leb off (u64 (sector * 512)) && leb (u64 (u64 (sector * 512) + 512)) end
        || sector_dirty h.disk sector)) [
          | inl e ↦ rw (prepare_sectors, e) (prepare_sectors-Same n off end (sector + 1) buf h same)
          | inr e ↦
              let copied : Result (Unit {0}) × (Host F × Memory) =
                copy_to api h.disk.overlay buf (u64 (sector * 512)) h in
              let same' : Same copied.1.0 =
                copy_to-Same h.disk.overlay buf (u64 (sector * 512)) h same in
              elim (Result-cases copied.0) [
                | inl (x, q) ↦ rw (prepare_sectors, e, q) same'
                | inr (d, q) ↦
                    rw (prepare_sectors, e, q)
                      (prepare_sectors-Same n off end (sector + 1) copied.1.1 copied.1.0 same')
              ]
        ]

  prepare-Same :
      (off len : ℕ) (h : Host F) → Same h → Same (prepare_partial_overlay_sectors api off len h).1
  unfolding prepare_partial_overlay_sectors
  prepare-Same off len h same = elim (Bool-cases (not (has_overlay h.disk) || len == 0)) [
    | inl e ↦ rw (prepare_partial_overlay_sectors, e) same
    | inr e ↦
        rw (prepare_partial_overlay_sectors, e)
          (lift-keeps Same (check_range h.disk.disk_bytes off len "virtio-blk overlay prepare") h _
            same
            λ d e'.
              lift-keeps Same (checked_add off len "virtio-blk overlay range") h _ same λ end e''.
                prepare_sectors-Same ((end - 1) / 512 + 1 - off / 512) off end (off / 512) (λ a. 0)
                  h same)
  ]

  write_to-Same :
      (o : Option F) (src : ℕ → ℕ) (len off : ℕ) (h : Host F)
      → Same h
      → Same (write_to api o (write_file_at api src len off) h).1
  write_to-Same none src len off h same = same
  write_to-Same (some f) src len off h same = same

  pub write_disk-Same :
      (sector src len : ℕ) (h : Host F) → Same h → Same (write_disk api sector src len h).1
  unfolding write_disk
  write_disk-Same sector src len h same =
      lift-keeps Same (check (not h.disk.read_only) "virtio-blk write to read-only disk") h _ same
        λ d₀ e₀.
          lift-keeps Same (checked_mul sector 512 "virtio-blk write offset") h _ same λ off e.
            lift-keeps Same (check_range h.disk.disk_bytes off len "virtio-blk write") h _ same
              λ done e'.
                continue-keeps Same (prepare_partial_overlay_sectors api off len h) _
                  (prepare-Same off len h same)
                  λ d h' same'.
                    continue-keeps Same (write_through api (λ k. h.memory (src + k)) len off h') _
                      (write_to-Same h'.disk.overlay _ len off h' same') λ d' h'' same''. same''
