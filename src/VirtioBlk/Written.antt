-- ===== src/VirtioBlk/Written.antt =====
-- What the disk is after a write and its marks.
use mathlib.Core.Path.{subst}
use node_vmm.Prelude.{
  ℕ, ◌+◌, ◌*◌, ◌/◌, ◌%◌, ◌≤◌, ◌≡◌, refl, sym, ap, ◌∙◌, arith, ltb, leb, ◌&&◌, ◌||◌, ◌==◌, true,
  false, not, if◌then◌else◌, Option, none, some, Bool-cases, inl, inr,
}
use node_vmm.WinIo.Files.{FileApi, IsFileApi, Contents, place}
use node_vmm.WinIo.Transfer.{place_cong, IsWritten}
use node_vmm.VirtioBlk.State.{Disk, Host, has_overlay, sector_dirty}
use node_vmm.VirtioBlk.Disk.{mark_dirty_range}
use node_vmm.VirtioBlk.Bitmap.{with_bitmap, mark_dirty_range_bitmap, sector_dirty-mark_dirty_range}
use node_vmm.VirtioBlk.View.{
  File, view, IsAttached, file, image, overlay-image, view-none, view-some,
}

module _ {F : Type 0} (api : FileApi F) (holds : F → Contents) (works : IsFileApi api holds) where
  -- What the guest sees has changed in the range, and the base file only where there is no overlay.
  abbrev pub IsWrittenHost : ℕ → ℕ → ℕ → Host F → Unit {0} → Host F → Type 0
  IsWrittenHost src len off h done h' =
      IsAttached (image holds h'.disk)
      × ((a : ℕ)
          → view (image holds h'.disk) a
            ≡ place len off (λ k. h.memory (src + k)) (view (image holds h.disk)) a)
      × (h'.memory ≡ h.memory)
      × (h'.disk.disk_bytes ≡ h.disk.disk_bytes)
      × (has_overlay h.disk ≡ true → file holds h'.disk.base ≡ file holds h.disk.base)

  pub no_overlay : (disk : Disk F) → disk.overlay ≡ none → has_overlay disk ≡ false
  no_overlay disk n = ap (λ (x : Option F). elim x [ none ↦ false | some f ↦ true ]) n

  pub an_overlay : (disk : Disk F) (f : F) → disk.overlay ≡ some f → has_overlay disk ≡ true
  an_overlay disk f n = ap (λ (x : Option F). elim x [ none ↦ false | some f ↦ true ]) n

  mark_dirty_range-none :
      (off len : ℕ) (disk : Disk F)
      → has_overlay disk ≡ false
      → mark_dirty_range off len disk ≡ disk
  unfolding mark_dirty_range
  mark_dirty_range-none off len disk o =
      let z : (not (has_overlay disk) || len == 0) ≡ true = rw o refl in
      rw (mark_dirty_range, z) refl

  -- The write and the marks, without an overlay.
  pub base_written :
      (src len off : ℕ) (h : Host F) (f : F)
      → IsAttached (image holds h.disk)
      → h.disk.overlay ≡ none
      → off + len ≤ h.disk.disk_bytes
      → IsWritten api holds works (λ k. h.memory (src + k)) len off h.disk.base tt f
      → IsWrittenHost src len off h tt
          (record h { disk = mark_dirty_range off len (record h.disk { base = f }) })
  base_written src len off h f attached n inside (size, bytes) =
      let d : Disk F = record h.disk { base = f } in
      let e : mark_dirty_range off len d ≡ d =
        mark_dirty_range-none off len d (no_overlay h.disk n) in
      subst (λ d'. IsWrittenHost src len off h tt (record h { disk = d' })) (sym e)
        (
          record {
            small = attached.small;
            whole = attached.whole;
            base_size = ground (arith, size, attached.base_size);
            overlay_size = attached.overlay_size;
          },
          (λ a.
              view-none holds d a n
              ∙ (bytes a
                  ∙ place_cong len off off (λ k. h.memory (src + k)) (view (image holds h.disk))
                      (holds h.disk.base).bytes a refl (sym (view-none holds h.disk a n)))),
          refl,
          refl,
          (λ o. absurd (ground (arith, o, no_overlay h.disk n))),
        )

  -- The bitmap does not say where the overlay is.
  dirty-overlay :
      (disk : Disk F) (f f' : F) (t : ℕ)
      → disk.overlay ≡ some f
      → sector_dirty (record disk { overlay = some f' }) t ≡ sector_dirty disk t
  unfolding sector_dirty
  dirty-overlay disk f f' t n = rw n refl

  -- The write and the marks, with an overlay.
  pub overlay_written :
      (src len sector : ℕ) (h : Host F) (f f' : F)
      → IsAttached (image holds h.disk)
      → h.disk.overlay ≡ some f
      → sector * 512 + len ≤ h.disk.disk_bytes
      → len % 512 ≡ 0
      → IsWritten api holds works (λ k. h.memory (src + k)) len (sector * 512) f tt f'
      → IsWrittenHost src len (sector * 512) h tt (record h {
        disk = mark_dirty_range (sector * 512) len (record h.disk { overlay = some f' });
      })
  overlay_written src len sector h f f' attached n inside whole (size, bytes) =
      let off : ℕ = sector * 512 in
      let d : Disk F = record h.disk { overlay = some f' } in
      let bitmap : ℕ → ℕ = (mark_dirty_range off len d).dirty_sectors in
      let e : mark_dirty_range off len d ≡ with_bitmap d bitmap =
        mark_dirty_range_bitmap off len d in
      let marked : (t : ℕ)
          → sector_dirty (with_bitmap d bitmap) t
            ≡ (sector_dirty h.disk t || (leb sector t && ltb t (sector + len / 512))) =
        λ t.
          ap (λ (d' : Disk F). sector_dirty d' t) (sym e)
          ∙ (sector_dirty-mark_dirty_range sector len d t refl (omega (arith, attached.whole))
                (omega (arith, attached.whole, attached.small)) whole
              ∙ ap (λ b. b || (leb sector t && ltb t (sector + len / 512)))
                  (dirty-overlay h.disk f f' t n)) in
      let overlay_byte : (a : ℕ)
          → (if sector_dirty (with_bitmap d bitmap) (a / 512)
              then (holds f').bytes a
              else (holds h.disk.base).bytes a)
            ≡ place len off (λ k. h.memory (src + k)) (view (image holds h.disk)) a =
        λ a.
          let covered : (leb sector (a / 512) && ltb (a / 512) (sector + len / 512))
              ≡ (leb off a && ltb a (off + len)) =
            ground arith in
          rw (marked, covered, bytes a, view-some holds h.disk f a n)
            (elim (Bool-cases (leb off a && ltb a (off + len))) [
              | inl i ↦ rw i (ground arith)
              | inr i ↦ rw i (ground arith)
            ]) in
      subst (λ d'. IsWrittenHost src len off h tt (record h { disk = d' })) (sym e)
        (
          record {
            small = attached.small;
            whole = attached.whole;
            base_size = attached.base_size;
            overlay_size = λ g q.
                let q₀ : (holds f').size ≡ g.0 =
                  ap (λ (o : Option File). elim o [ none ↦ 0 | some x ↦ x.0 ]) q in
                let q₁ : (holds f).size ≡ h.disk.disk_bytes =
                  attached.overlay_size (file holds f) (overlay-image holds h.disk (some f) n) in
                ground (arith, size, q₀, q₁);
          },
          (λ a. view-some holds (with_bitmap d bitmap) f' a refl ∙ overlay_byte a),
          refl,
          refl,
          (λ o. refl),
        )
