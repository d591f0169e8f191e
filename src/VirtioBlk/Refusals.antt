-- ===== src/VirtioBlk/Refusals.antt =====
-- What the disk refuses, before it has touched anything.
use Prim.Native.String.{String}
use node_vmm.Prelude.{
  ℕ, ◌+◌, ◌*◌, ◌<◌, ◌≤◌, ◌≡◌, refl, arith, true, not, ◌⊎◌, inl, inr, ok, err, Result, Result-cases,
}
use node_vmm.Bytes.{check, checked_mul, check_range}
use node_vmm.Bytes.Guards.{checked_mul_iff, check_range_iff}
use node_vmm.WinIo.Files.{FileApi}
use node_vmm.VirtioBlk.State.{Host}
use node_vmm.VirtioBlk.Disk.{read_disk, write_disk}

check_false : (message : String) → check (not true) message ≡ err message
unfolding check
check_false message = refl

-- It has thrown, and the host is the same.
abbrev pub IsRefused : {F : Type 0} → Host F → Result (Unit {0}) × Host F → Type 0
IsRefused h r = (e : String) × (r ≡ (err e, h))

-- A range that does not end on the disk fails one of the two checks.
out_of_range :
    (total sector len r : ℕ) (what what' : String)
    → total < sector * 512 + len
    → checked_mul sector 512 what ≡ ok r
    → (e : String) × (check_range total r len what' ≡ err e)
out_of_range total sector len r what what' h e =
    elim (Result-cases (check_range total r len what')) [
      | inl f ↦ f
      | inr (done, f) ↦
          let (fits, p) = (checked_mul_iff sector 512 r what).0 e in
          let q : r + len ≤ total = (check_range_iff total r len what').0 f in absurd (omega arith)
    ]

module _ {F : Type 0} (api : FileApi F) where
  -- A read that does not end on the disk throws, and it changes neither the memory nor the disk.
  pub read_disk_out_of_range :
      (sector dst len : ℕ) (h : Host F)
      → h.disk.disk_bytes < sector * 512 + len
      → IsRefused h (read_disk api sector dst len h)
  unfolding read_disk
  read_disk_out_of_range sector dst len h p =
      elim (Result-cases (checked_mul sector 512 "virtio-blk read offset")) [
        | inl (e, q) ↦ rw (read_disk, q) (e, refl)
        | inr (r, q) ↦
            let (e, q') =
              out_of_range h.disk.disk_bytes sector len r "virtio-blk read offset" "virtio-blk read"
                p q in
            rw (read_disk, q, q') (e, refl)
      ]

  -- A write to a read-only disk, or one that does not end on the disk, throws, and it changes
  -- neither the memory nor the disk.
  pub write_disk-IsRefused :
      (sector src len : ℕ) (h : Host F)
      → (h.disk.read_only ≡ true) ⊎ (h.disk.disk_bytes < sector * 512 + len)
      → IsRefused h (write_disk api sector src len h)
  unfolding write_disk
  write_disk-IsRefused sector src len h (inl read_only) =
      let q : check (not h.disk.read_only) "virtio-blk write to read-only disk"
          ≡ err "virtio-blk write to read-only disk" =
        rw read_only (check_false "virtio-blk write to read-only disk") in
      rw (write_disk, q) ("virtio-blk write to read-only disk", refl)
  write_disk-IsRefused sector src len h (inr outside) =
      elim (Result-cases (check (not h.disk.read_only) "virtio-blk write to read-only disk")) [
        | inl (e, q) ↦ rw (write_disk, q) (e, refl)
        | inr (done, q) ↦ elim (Result-cases (checked_mul sector 512 "virtio-blk write offset")) [
          | inl (e, q') ↦ rw (write_disk, q, q') (e, refl)
          | inr (r, q') ↦
              let (e, q'') =
                out_of_range h.disk.disk_bytes sector len r "virtio-blk write offset"
                  "virtio-blk write" outside q' in
              rw (write_disk, q, q', q'') (e, refl)
        ]
      ]
