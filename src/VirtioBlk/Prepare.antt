-- ===== src/VirtioBlk/Prepare.antt =====
-- Before a write of whole sectors, nothing is copied to the overlay.
use node_vmm.Prelude.{
  ℕ, zero, suc, ◌+◌, ◌-◌, ◌*◌, ◌/◌, ◌%◌, ◌^◌, ◌≤◌, ◌<◌, ◌≡◌, refl, arith, leb, ◌&&◌, ◌||◌, ◌==◌,
  true, not, Bool-cases, inl, inr, ok,
}
use node_vmm.Bytes.{Memory, u64, checked_add, check_range}
use node_vmm.Bytes.Guards.{checked_add_iff, check_range_iff}
use node_vmm.WinIo.Files.{FileApi}
use node_vmm.VirtioBlk.State.{Host, has_overlay}
use node_vmm.VirtioBlk.Disk.{prepare_sectors, prepare_partial_overlay_sectors}

module _ {F : Type 0} (api : FileApi F) where
  -- Sectors that the write covers are not copied.
  prepare_sectors_covered :
      (n off end sector : ℕ) (buf : Memory) (h : Host F)
      → off ≤ sector * 512
      → (sector + n) * 512 ≤ end
      → end < 2 ^ 64
      → prepare_sectors api n off end sector buf h ≡ (ok tt, h)
  unfolding prepare_sectors
  prepare_sectors_covered zero off end sector buf h p q r = refl
  prepare_sectors_covered (suc n) off end sector buf h p q r =
      let covered : (leb off (u64 (sector * 512)) && leb (u64 (u64 (sector * 512) + 512)) end)
          ≡ true =
        ground arith in
      rw (prepare_sectors, covered)
        (prepare_sectors_covered n off end (sector + 1) buf h (omega arith) (omega arith) r)

  -- Nothing to prepare for whole sectors.
  pub prepare_whole_sectors :
      (sector len : ℕ) (h : Host F)
      → sector * 512 + len ≤ h.disk.disk_bytes
      → h.disk.disk_bytes < 2 ^ 63
      → len % 512 ≡ 0
      → prepare_partial_overlay_sectors api (sector * 512) len h ≡ (ok tt, h)
  unfolding prepare_partial_overlay_sectors
  prepare_whole_sectors sector len h inside small whole =
      elim (Bool-cases (not (has_overlay h.disk) || len == 0)) [
        | inl e ↦ rw (prepare_partial_overlay_sectors, e) refl
        | inr e ↦
            let e' : check_range h.disk.disk_bytes (sector * 512) len "virtio-blk overlay prepare"
                ≡ ok tt =
              (check_range_iff h.disk.disk_bytes (sector * 512) len "virtio-blk overlay prepare").1
                inside in
            let e'' : checked_add (sector * 512) len "virtio-blk overlay range"
                ≡ ok (sector * 512 + len) =
              (checked_add_iff (sector * 512) len (sector * 512 + len) "virtio-blk overlay range"
                  (omega arith) (omega arith)).1
                (omega arith, refl) in
            rw (prepare_partial_overlay_sectors, e, e', e'')
              (prepare_sectors_covered ((sector * 512 + len - 1) / 512 + 1 - sector * 512 / 512)
                (sector * 512) (sector * 512 + len) (sector * 512 / 512) (λ a. 0) h (omega arith)
                (ground arith) (omega arith))
      ]
