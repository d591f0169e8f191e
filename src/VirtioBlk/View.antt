-- ===== src/VirtioBlk/View.antt =====
-- The disk as the guest sees it: one array of bytes, whichever file they are in.
use mathlib.Core.Path.{fun_ext}
use node_vmm.Prelude.{
  ℕ, ◌+◌, ◌/◌, ◌^◌, ◌<◌, ◌≡◌, refl, ap, ap₂, ◌∙◌, Bool, if◌then◌else◌, Option, none, some,
  Option-cases, inl, inr, ok, err, Result,
}
use node_vmm.Prelude.State.{Finishes}
use node_vmm.Bytes.{Memory}
use node_vmm.WinIo.Files.{Contents, IsSameFile, place}
use node_vmm.VirtioBlk.State.{Disk, Host, sector_dirty, put_base, put_overlay}

-- A file without its position: its size and its bytes.
abbrev pub File : Type 0
File = ℕ × (ℕ → ℕ)

-- Byte `a` of the disk comes from the overlay where its sector is dirty, and from the base file
-- elsewhere.
abbrev pub seen : Option File → Bool → File → ℕ → ℕ
seen none dirty base a = base.1 a
seen (some f) dirty base a = if dirty then f.1 a else base.1 a

unfoldable pub view : Disk File → ℕ → ℕ
view disk a = seen disk.overlay (sector_dirty disk (a / 512)) disk.base a

-- The sizes that the constructor sets up.
pub record IsAttached (disk : Disk File) : Type 0 where
  pub small : disk.disk_bytes < 2 ^ 63
  pub whole : disk.sectors ≡ disk.disk_bytes / 512
  pub base_size : disk.base.0 ≡ disk.disk_bytes
  pub overlay_size : (f : File) → disk.overlay ≡ some f → f.0 ≡ disk.disk_bytes

pub put_base-Finishes :
    {F A : Type 0} (Q : A → Host F → Type 0) (h : Host F) (r : Result A × (F × Memory))
    → Finishes (λ a (f, m). Q a (record { memory = m; disk = record h.disk { base = f } })) r
    → Finishes Q (put_base h r)
unfolding Finishes
put_base-Finishes Q h (ok a, (f, m)) p = p
put_base-Finishes Q h (err e, (f, m)) p = absurd p

pub put_overlay-Finishes :
    {F A : Type 0} (Q : A → Host F → Type 0) (h : Host F) (r : Result A × (F × Memory))
    → Finishes
        (λ a (f, m). Q a (record { memory = m; disk = record h.disk { overlay = some f } }))
        r
    → Finishes Q (put_overlay h r)
unfolding Finishes
put_overlay-Finishes Q h (ok a, (f, m)) p = p
put_overlay-Finishes Q h (err e, (f, m)) p = absurd p

module _ {F : Type 0} (holds : F → Contents) where
  abbrev pub file : F → File
  file f = ((holds f).size, (holds f).bytes)

  abbrev pub image : Disk F → Disk File
  image disk = record {
    base = file disk.base;
    overlay = elim disk.overlay [ none ↦ none | some f ↦ some (file f) ];
    dirty_sectors = disk.dirty_sectors;
    disk_bytes = disk.disk_bytes;
    sectors = disk.sectors;
    read_only = disk.read_only;
  }

  pub file-eq : (f f' : F) → IsSameFile (holds f) (holds f') → file f' ≡ file f
  file-eq f f' (s, b) = ap₂ (λ (x : ℕ) (y : ℕ → ℕ). (x, y)) s (fun_ext b)

  pub sector_dirty-image :
      (disk : Disk F) (sector : ℕ) → sector_dirty (image disk) sector ≡ sector_dirty disk sector
  unfolding sector_dirty
  sector_dirty-image disk sector = elim (Option-cases disk.overlay) [
    | inl n ↦ rw n refl
    | inr (f, n) ↦ rw n refl
  ]

  abbrev pub overlay_file : Option F → Option File
  overlay_file o = elim o [ none ↦ none | some f ↦ some (file f) ]

  pub overlay-image :
      (disk : Disk F) (o : Option F) → disk.overlay ≡ o → (image disk).overlay ≡ overlay_file o
  overlay-image disk o n = ap overlay_file n

  pub view-none :
      (disk : Disk F) (a : ℕ)
      → disk.overlay ≡ none
      → view (image disk) a ≡ (holds disk.base).bytes a
  unfolding view
  view-none disk a n =
      ap (λ o. seen o (sector_dirty (image disk) (a / 512)) (file disk.base) a)
        (overlay-image disk none n)

  pub view-some :
      (disk : Disk F) (f : F) (a : ℕ)
      → disk.overlay ≡ some f
      → view (image disk) a
        ≡ (if sector_dirty disk (a / 512) then (holds f).bytes a else (holds disk.base).bytes a)
  unfolding view
  view-some disk f a n =
      ap (λ o. seen o (sector_dirty (image disk) (a / 512)) (file disk.base) a)
        (overlay-image disk (some f) n)
      ∙ ap (λ (d : Bool). if d then (holds f).bytes a else (holds disk.base).bytes a)
          (sector_dirty-image disk (a / 512))

  -- The memory has got a range of what the guest sees, and the disk is the same.
  abbrev pub IsReadHost : ℕ → ℕ → ℕ → Host F → Unit {0} → Host F → Type 0
  IsReadHost dst len off h done h' =
      (image h'.disk ≡ image h.disk)
      × ((a : ℕ) → h'.memory a ≡ place len dst (λ k. view (image h.disk) (off + k)) h.memory a)
