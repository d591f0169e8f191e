-- ===== src/VirtioBlk/Writing.antt =====
-- `WriteDisk` changes what the guest sees in its range, and nothing else.
use mathlib.Core.Path.{subst}
use node_vmm.Prelude.{
  ℕ, ◌+◌, ◌*◌, ◌%◌, ◌≤◌, ◌≡◌, refl, sym, arith, true, false, not, some, Option-cases, inl, inr, ok,
  err, Result,
}
use node_vmm.Prelude.State.{Finishes, Finishes-weaken, Finishes-continue}
use node_vmm.Bytes.{Memory, check, checked_mul, check_range}
use node_vmm.Bytes.Guards.{checked_mul_iff, check_range_iff}
use node_vmm.WinIo.{pwrite_all}
use node_vmm.WinIo.Files.{FileApi, IsFileApi, Contents}
use node_vmm.WinIo.Transfer.{pwrite_all-IsWritten}
use node_vmm.VirtioBlk.State.{Host}
use node_vmm.VirtioBlk.Disk.{
  mark_dirty_range, beside, write_file_at, write_to, write_through, write_disk,
}
use node_vmm.VirtioBlk.Prepare.{prepare_whole_sectors}
use node_vmm.VirtioBlk.Written.{IsWrittenHost, base_written, overlay_written}
use node_vmm.VirtioBlk.View.{IsAttached, put_base-Finishes, put_overlay-Finishes, image}

check-true : check true "virtio-blk write to read-only disk" ≡ ok tt
unfolding check
check-true = refl

beside-Finishes :
    {F : Type 0} (api : FileApi F) (P : Unit {0} → F → Type 0) (m : Memory)
    (r : Result (Unit {0}) × F)
    → Finishes P r
    → Finishes (λ done (f, m'). P done f × (m' ≡ m)) (beside api m r)
unfolding Finishes
beside-Finishes api P m (ok a, f) p = (p, refl)
beside-Finishes api P m (err e, f) p = absurd p

module _ {F : Type 0} (api : FileApi F) (holds : F → Contents) (works : IsFileApi api holds) where
  -- The two last steps of `WriteDisk`.
  write_and_mark :
      (src len sector : ℕ) (h : Host F)
      → IsAttached (image holds h.disk)
      → sector * 512 + len ≤ h.disk.disk_bytes
      → len % 512 ≡ 0
      → Finishes
          (λ done h'.
            IsWrittenHost api holds works src len
              (sector * 512)
              h
              done
              (record h' { disk = mark_dirty_range (sector * 512) len h'.disk }))
          (write_through api (λ k. h.memory (src + k)) len (sector * 512) h)
  write_and_mark src len sector h attached inside whole =
      let bytes_in : ℕ → ℕ = λ k. h.memory (src + k) in
      let off : ℕ = sector * 512 in
      let Q : Unit {0} → Host F → Type 0 = λ done h'.
        IsWrittenHost api holds works src len off h done
          (record h' { disk = mark_dirty_range off len h'.disk }) in
      elim (Option-cases h.disk.overlay) [
        | inl n ↦
            subst (λ o. Finishes Q (write_to api o (write_file_at api bytes_in len off) h)) (sym n)
              (put_base-Finishes Q h _ (
                Finishes-weaken _ _
                  (beside api h.memory (pwrite_all api bytes_in len off h.disk.base))
                  (beside-Finishes api _ h.memory (pwrite_all api bytes_in len off h.disk.base) (
                    pwrite_all-IsWritten api holds works bytes_in len off h.disk.base
                      (omega (arith, attached.small))))
                  (λ done (f, m) (written, same).
                    subst
                      (λ m'. IsWrittenHost api holds works src len off h done (record {
                        memory = m';
                        disk = mark_dirty_range off len (record h.disk { base = f });
                      }))
                      (sym same)
                      (base_written api holds works src len off h f attached n inside written))))
        | inr (f, n) ↦
            subst (λ o. Finishes Q (write_to api o (write_file_at api bytes_in len off) h)) (sym n)
              (put_overlay-Finishes Q h _ (
                Finishes-weaken _ _ (beside api h.memory (pwrite_all api bytes_in len off f))
                  (beside-Finishes api _ h.memory (pwrite_all api bytes_in len off f) (
                    pwrite_all-IsWritten api holds works bytes_in len off f
                      (omega (arith, attached.small))))
                  (λ done (f', m) (written, same).
                    subst
                      (λ m'. IsWrittenHost api holds works src len off h done (record {
                        memory = m';
                        disk = mark_dirty_range off len (record h.disk { overlay = some f' });
                      }))
                      (sym same)
                      (overlay_written api holds works src len sector h f f' attached n inside whole
                        written))))
      ]

  -- `WriteDisk` of whole sectors of a disk that is not read-only returns. The guest then sees the
  -- bytes of `src` in the range and what it saw before elsewhere; its memory is the same, and with
  -- an overlay the base file is the same.
  pub write_disk-IsWrittenHost :
      (sector src len : ℕ) (h : Host F)
      → IsAttached (image holds h.disk)
      → h.disk.read_only ≡ false
      → sector * 512 + len ≤ h.disk.disk_bytes
      → len % 512 ≡ 0
      → Finishes
          (IsWrittenHost api holds works src len (sector * 512) h)
          (write_disk api sector src len h)
  unfolding write_disk Finishes
  write_disk-IsWrittenHost sector src len h attached writable inside whole =
      let e : checked_mul sector 512 "virtio-blk write offset" ≡ ok (sector * 512) =
        (checked_mul_iff sector 512 (sector * 512) "virtio-blk write offset").1
          (omega (arith, attached.small), refl) in
      let e' : check_range h.disk.disk_bytes (sector * 512) len "virtio-blk write" ≡ ok tt =
        (check_range_iff h.disk.disk_bytes (sector * 512) len "virtio-blk write").1 inside in
      let c : check (not h.disk.read_only) "virtio-blk write to read-only disk" ≡ ok tt =
        rw writable check-true in
      rw (write_disk, c, e, e', prepare_whole_sectors api sector len h inside attached.small whole)
        (Finishes-continue _ _ (write_through api (λ k. h.memory (src + k)) len (sector * 512) h) _
          (write_and_mark src len sector h attached inside whole) (λ done h' written. written))
