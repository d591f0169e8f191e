-- ===== src/VirtioBlk/Reading.antt =====
-- `ReadDisk` gives the guest what it sees.
use mathlib.Core.Path.{subst}
use node_vmm.Prelude.{
  ℕ, zero, suc, ◌+◌, ◌-◌, ◌*◌, ◌/◌, ◌%◌, ◌≤◌, ◌<◌, ◌≡◌, refl, sym, ap, ap₂, ◌∙◌, arith, ltb, true,
  false, Option, none, some, Bool-cases, Option-cases, inl, inr, min, ok,
}
use node_vmm.Prelude.State.{Finishes, Finishes-weaken, Finishes-continue}
use node_vmm.Bytes.{u64, checked_mul, check_range}
use node_vmm.Bytes.Guards.{checked_mul_iff, check_range_iff}
use node_vmm.WinIo.{pread_all}
use node_vmm.WinIo.Files.{FileApi, IsFileApi, Contents}
use node_vmm.WinIo.Transfer.{place-place, place_ext, IsRead, pread_all-IsRead}
use node_vmm.VirtioBlk.State.{Disk, Host, has_overlay, sector_dirty, put_base, put_overlay}
use node_vmm.VirtioBlk.Disk.{read_from, read_sector, read_sectors, read_disk}
use node_vmm.VirtioBlk.View.{
  File, view, IsAttached, put_base-Finishes, put_overlay-Finishes, file, image, file-eq, view-none,
  view-some, IsReadHost,
}

module _ {F : Type 0} (api : FileApi F) (holds : F → Contents) (works : IsFileApi api holds) where
  -- A read of the base file, where the guest sees the base file.
  read_base :
      (dst len off : ℕ) (h : Host F)
      → IsAttached (image holds h.disk)
      → off + len ≤ h.disk.disk_bytes
      → ((k : ℕ)
          → k < len
          → view (image holds h.disk) (off + k) ≡ (holds h.disk.base).bytes (off + k))
      → Finishes
          (IsReadHost holds dst len off h)
          (put_base h (pread_all api dst len off (h.disk.base, h.memory)))
  read_base dst len off h attached inside seen =
      put_base-Finishes (IsReadHost holds dst len off h) h _ (
        Finishes-weaken (IsRead api holds works dst len off h.disk.base h.memory) _
          (pread_all api dst len off (h.disk.base, h.memory))
          (pread_all-IsRead api holds works dst len off h.disk.base h.memory
            (omega (arith, attached.base_size)) (omega (arith, attached.small)))
          (λ done (f, m) (same, filled). (
            ap (λ (b : File). record (image holds h.disk) { base = b })
                (file-eq holds h.disk.base f same),
            λ a.
                filled a
                ∙ sym (
                    place_ext len dst (λ k. view (image holds h.disk) (off + k))
                      (λ k. (holds h.disk.base).bytes (off + k)) h.memory a seen),
          )))

  -- A read of the overlay, where the guest sees the overlay.
  read_overlay :
      (dst len off : ℕ) (f : F) (h : Host F)
      → IsAttached (image holds h.disk)
      → h.disk.overlay ≡ some f
      → off + len ≤ h.disk.disk_bytes
      → ((k : ℕ) → k < len → view (image holds h.disk) (off + k) ≡ (holds f).bytes (off + k))
      → Finishes
          (IsReadHost holds dst len off h)
          (put_overlay h (pread_all api dst len off (f, h.memory)))
  read_overlay dst len off f h attached n inside seen =
      let size : (holds f).size ≡ h.disk.disk_bytes =
        attached.overlay_size (file holds f) (rw n refl) in
      put_overlay-Finishes (IsReadHost holds dst len off h) h _ (
        Finishes-weaken (IsRead api holds works dst len off f h.memory) _
          (pread_all api dst len off (f, h.memory))
          (pread_all-IsRead api holds works dst len off f h.memory (omega (arith, size))
            (omega (arith, attached.small)))
          (λ done (f', m) (same, filled). (
            ap (λ (b : File). record (image holds h.disk) { overlay = some b })
                  (file-eq holds f f' same)
                ∙ rw n refl,
            λ a.
                filled a
                ∙ sym (
                    place_ext len dst (λ k. view (image holds h.disk) (off + k))
                      (λ k. (holds f).bytes (off + k)) h.memory a seen),
          )))

  read_sector-IsReadHost :
      (dst len off : ℕ) (h : Host F)
      → IsAttached (image holds h.disk)
      → off + len ≤ h.disk.disk_bytes
      → off % 512 + len ≤ 512
      → Finishes (IsReadHost holds dst len off h) (read_sector api (off / 512) dst len off h)
  read_sector-IsReadHost dst len off h attached inside one = elim (Option-cases h.disk.overlay) [
    | inl n ↦
        subst
          (λ o.
            Finishes (IsReadHost holds dst len off h)
              (read_from api o (sector_dirty h.disk (off / 512)) (pread_all api dst len off) h))
          (sym n)
          (read_base dst len off h attached inside λ k q. view-none holds h.disk (off + k) n)
    | inr (f, n) ↦
        subst
          (λ o.
            Finishes (IsReadHost holds dst len off h)
              (read_from api o (sector_dirty h.disk (off / 512)) (pread_all api dst len off) h))
          (sym n)
          (elim (Bool-cases (sector_dirty h.disk (off / 512))) [
            | inl e ↦
                subst
                  (λ d.
                    Finishes (IsReadHost holds dst len off h)
                      (read_from api (some f) d (pread_all api dst len off) h))
                  (sym e)
                  (read_overlay dst len off f h attached n inside λ k q.
                    view-some holds h.disk f (off + k) n
                    ∙ rw (let s : (off + k) / 512 ≡ off / 512 = omega arith in s, e) refl)
            | inr e ↦
                subst
                  (λ d.
                    Finishes (IsReadHost holds dst len off h)
                      (read_from api (some f) d (pread_all api dst len off) h))
                  (sym e)
                  (read_base dst len off h attached inside λ k q.
                    view-some holds h.disk f (off + k) n
                    ∙ rw (let s : (off + k) / 512 ≡ off / 512 = omega arith in s, e) refl)
          ])
  ]

  read_sectors-IsReadHost :
      (fuel off dst len done : ℕ) (h : Host F)
      → IsAttached (image holds h.disk)
      → off + len ≤ h.disk.disk_bytes
      → done ≤ len
      → len ≤ done + fuel
      → Finishes
          (IsReadHost holds (dst + done) (len - done) (off + done) h)
          (read_sectors api fuel off dst len done h)
  unfolding read_sectors Finishes
  read_sectors-IsReadHost zero off dst len done h attached inside d enough =
      let e : ltb done len ≡ false = ground arith in rw e (refl, λ a. ground arith)
  read_sectors-IsReadHost (suc fuel) off dst len done h attached inside d enough =
      elim (Bool-cases (ltb done len)) [
        | inr e ↦ rw (read_sectors, e) (refl, λ a. ground arith)
        | inl e ↦
            let w : u64 (off + done) ≡ off + done = omega (arith, attached.small) in
            let chunk : ℕ = min (len - done) (512 - (off + done) % 512) in
            rw (read_sectors, e, w)
              (Finishes-continue (IsReadHost holds (dst + done) chunk (off + done) h)
                (IsReadHost holds (dst + done) (len - done) (off + done) h)
                (read_sector api ((off + done) / 512) (dst + done) chunk (off + done) h)
                (λ r. read_sectors api fuel off dst len (done + chunk))
                (read_sector-IsReadHost (dst + done) chunk (off + done) h attached (omega arith)
                  (omega arith))
                (λ r h' (same, filled).
                  Finishes-weaken _ (IsReadHost holds (dst + done) (len - done) (off + done) h)
                    (read_sectors api fuel off dst len (done + chunk) h')
                    (read_sectors-IsReadHost fuel off dst len (done + chunk) h' (rw same attached)
                      (omega (arith, ap (λ (d : Disk File). d.disk_bytes) same)) (omega arith)
                      (omega arith))
                    (λ r' h'' (same', filled'). (
                      same' ∙ same,
                      λ a.
                          filled' a
                          ∙ rw
                              (let q : len - (done + chunk) ≡ len - done - chunk = omega arith in q)
                              (place-place (len - done) chunk (dst + done) (dst + (done + chunk))
                                (λ k. view (image holds h.disk) (off + done + k))
                                (λ k. view (image holds h'.disk) (off + (done + chunk) + k))
                                (λ k. view (image holds h.disk) (off + done + k)) h.memory h'.memory
                                a (omega arith) (omega arith) (filled a) (λ k q. refl)
                                (λ k. ap₂ view same (omega arith))),
                    ))))
      ]

  -- `ReadDisk` of a range on the disk returns, and it puts what the guest sees there at `dst`,
  -- also where the range has clean and dirty sectors side by side.
  pub read_disk-IsReadHost :
      (sector dst len : ℕ) (h : Host F)
      → IsAttached (image holds h.disk)
      → sector * 512 + len ≤ h.disk.disk_bytes
      → Finishes (IsReadHost holds dst len (sector * 512) h) (read_disk api sector dst len h)
  unfolding read_disk
  read_disk-IsReadHost sector dst len h attached inside =
      let e : checked_mul sector 512 "virtio-blk read offset" ≡ ok (sector * 512) =
        (checked_mul_iff sector 512 (sector * 512) "virtio-blk read offset").1
          (omega (arith, attached.small), refl) in
      let e' : check_range h.disk.disk_bytes (sector * 512) len "virtio-blk read" ≡ ok tt =
        (check_range_iff h.disk.disk_bytes (sector * 512) len "virtio-blk read").1 inside in
      rw (read_disk, e, e')
        (elim (Option-cases h.disk.overlay) [
          | inl n ↦
              let o : has_overlay h.disk ≡ false =
                ap (λ (x : Option F). elim x [ none ↦ false | some f ↦ true ]) n in
              rw o (
                read_base dst len (sector * 512) h attached inside
                  λ k q. view-none holds h.disk (sector * 512 + k) n)
          | inr (f, n) ↦
              let o : has_overlay h.disk ≡ true =
                ap (λ (x : Option F). elim x [ none ↦ false | some f ↦ true ]) n in
              rw o (
                Finishes-weaken _ (IsReadHost holds dst len (sector * 512) h)
                  (read_sectors api len (sector * 512) dst len 0 h)
                  (read_sectors-IsReadHost len (sector * 512) dst len 0 h attached inside
                    (omega arith) (omega arith))
                  (λ r h' (same, filled). (
                    same,
                    λ a.
                        filled a
                        ∙ rw
                            (
                              let n : len - 0 ≡ len = omega arith in n,
                              let d : dst + 0 ≡ dst = omega arith in d,
                            )
                            (place_ext len dst
                              (λ k. view (image holds h.disk) (sector * 512 + 0 + k))
                              (λ k. view (image holds h.disk) (sector * 512 + k)) h.memory a
                              (λ k q. ap (view (image holds h.disk)) (omega arith))),
                  )))
        ])
