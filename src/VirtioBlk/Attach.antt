-- ===== src/VirtioBlk/Attach.antt =====
-- The constructor: the files of a disk, and what the guest sees of them first.
use mathlib.Core.Path.{subst}
use node_vmm.Prelude.{
  ℕ, ◌/◌, ◌^◌, ◌<◌, ◌≡◌, refl, sym, ap, ◌∙◌, arith, ltb, ◌&&◌, ◌||◌, leb, Bool, true, false, not,
  if◌then◌else◌, Option, none, some, Bool-cases, inl, inr, Result, ok, err, Returns,
}
use Prim.Native.String.{String}
use node_vmm.Prelude.{◌>>=◌, ◌>>◌}
use node_vmm.Prelude.State.{continue}
use node_vmm.Bits.Fields.{bit_and_comm, bit_and-zero}
use node_vmm.Bytes.{check}
use node_vmm.WinIo.{mark_file_sparse, truncate_file_to}
use node_vmm.WinIo.Files.{FileApi, IsFileApi, Contents}
use node_vmm.VirtioBlk.State.{Disk, has_overlay, sector_dirty}
use node_vmm.VirtioBlk.View.{File, view, IsAttached, image, view-none, view-some}

-- A handle that is valid, or a size that the system gave.
abbrev opened : {A : Type 0} → Option A → String → Result A
opened (some a) message = ok a
opened none message = err message

module _ {F : Type 0} (api : FileApi F) where
  -- The overlay of the size of the disk, made sparse first.
  abbrev pub sized_overlay : ℕ → F → Result (Unit {0}) × F
  sized_overlay disk_bytes f =
      continue (mark_file_sparse api f) λ done. truncate_file_to api disk_bytes

  abbrev pub new_disk : F → Option F → ℕ → Bool → Disk F
  new_disk base overlay disk_bytes read_only = record {
    base = base;
    overlay = overlay;
    dirty_sectors = λ i. 0;
    disk_bytes = disk_bytes;
    sectors = disk_bytes / 512;
    read_only = read_only;
  }

  abbrev pub with_overlay : F → ℕ → Bool → Result (Unit {0}) × F → Result (Disk F)
  with_overlay base disk_bytes read_only (ok done, f) =
      ok (new_disk base (some f) disk_bytes read_only)
  with_overlay base disk_bytes read_only (err e, f) = err e

  abbrev pub attach_overlay : F → ℕ → Bool → Bool → Option F → Result (Disk F)
  attach_overlay base disk_bytes read_only same_path overlay_file = do
    check (not same_path) "overlayPath must not equal rootfsPath"
    f ← opened overlay_file "open overlay failed"
    with_overlay base disk_bytes read_only (sized_overlay disk_bytes f)

  -- `base_file` and `overlay_file` are what `CreateFileA` gave, `size` is what `GetFileSizeEx` gave,
  -- on 64 bits, and `same_path` compares the two paths.
  unfoldable pub attach : Bool → Bool → Bool → Option F → Option ℕ → Option F → Result (Disk F)
  attach read_only overlay same_path base_file size overlay_file = do
    check (not (read_only && overlay)) "read-only disk cannot use an overlay"
    base ← opened base_file "open rootfs failed"
    disk_bytes ← opened size "stat rootfs failed"
    check (ltb disk_bytes (2 ^ 63)) "negative rootfs size"
    (if overlay
        then attach_overlay base disk_bytes read_only same_path overlay_file
        else ok (new_disk base none disk_bytes read_only))

module _ {F : Type 0} (api : FileApi F) (holds : F → Contents) (works : IsFileApi api holds) where
  -- The disk is fit for reading and writing, and the guest sees the base file.
  abbrev pub IsFresh : F → Disk F → Type 0
  IsFresh base disk =
      IsAttached (image holds disk) × ((a : ℕ) → view (image holds disk) a ≡ (holds base).bytes a)

  clean : (disk : Disk F) (t : ℕ) → disk.dirty_sectors ≡ (λ i. 0) → sector_dirty disk t ≡ false
  unfolding sector_dirty
  clean disk t e = elim (Bool-cases (not (has_overlay disk) || leb disk.sectors t)) [
    | inl c ↦ rw (sector_dirty, c) refl
    | inr c ↦ rw (sector_dirty, c, e, bit_and_comm 0 _, bit_and-zero) refl
  ]

  sized_overlay-IsFresh :
      (base f : F) (disk_bytes : ℕ) (read_only : Bool)
      → disk_bytes < 2 ^ 63
      → (holds base).size ≡ disk_bytes
      → Returns
          (IsFresh base)
          (with_overlay api base disk_bytes read_only (sized_overlay api disk_bytes f))
  unfolding Returns mark_file_sparse truncate_file_to
  sized_overlay-IsFresh base f disk_bytes read_only small size =
      let f₁ : F = (api.set_sparse f).1 in
      let f₂ : F = (api.seek disk_bytes f₁).1 in
      let f₃ : F = (api.set_end_of_file f₂).1 in
      let marked : (api.set_sparse f).0 ≡ true = works.sparse_works f in
      let (sought, at_end, kept) = works.seek_works disk_bytes f₁ small in
      let (cut, cut_size, stays) = works.cut_works f₂ in
      let e : sized_overlay api disk_bytes f ≡ (ok tt, f₃) =
        rw (mark_file_sparse, marked, truncate_file_to, sought, cut) refl in
      let disk : Disk F = new_disk api base (some f₃) disk_bytes read_only in
      subst (λ r. Returns (IsFresh base) (with_overlay api base disk_bytes read_only r)) (sym e)
        (
          record {
            small = small;
            whole = refl;
            base_size = size;
            overlay_size = λ g q.
                let q₀ : (holds f₃).size ≡ g.0 =
                  ap (λ (o : Option File). elim o [ none ↦ 0 | some x ↦ x.0 ]) q in
                omega (arith, q₀, cut_size, at_end);
          },
          λ a. view-some holds disk f₃ a refl ∙ rw (clean disk (a / 512) refl) refl,
        )

  -- The constructor returns for a base file that opens, and an overlay that opens, at another path
  -- and for a disk that is not read-only, where there is one. The disk that it returns is fit for
  -- reading and writing, and the guest sees the base file.
  pub attach-IsFresh :
      (read_only overlay : Bool) (base f : F)
      → (read_only && overlay) ≡ false
      → (holds base).size < 2 ^ 63
      → Returns
          (IsFresh base)
          (attach api read_only overlay false (some base) (some (holds base).size) (some f))
  unfolding attach Returns check
  attach-IsFresh read_only overlay base f fits small =
      let ok₁ : check (not (read_only && overlay)) "read-only disk cannot use an overlay" ≡ ok tt =
        rw fits refl in
      let ok₂ : check (ltb (holds base).size (2 ^ 63)) "negative rootfs size" ≡ ok tt =
        let t : ltb (holds base).size (2 ^ 63) ≡ true = ground arith in rw t refl in
      rw (attach, ok₁, ok₂)
        (elim (Bool-cases overlay) [
          | inl o ↦ rw o (sized_overlay-IsFresh base f (holds base).size read_only small refl)
          | inr o ↦ rw o (
            record {
              small = small;
              whole = refl;
              base_size = refl;
              overlay_size = λ g q. absurd (ground (arith, q));
            },
            λ a. view-none holds (new_disk api base none (holds base).size read_only) a refl,
          )
        ])
