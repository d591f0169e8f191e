-- ===== src/VirtioBlk/Disk.antt =====
-- Reading and writing ranges of the disk.
use node_vmm.Prelude.{
  ℕ, zero, suc, ◌+◌, ◌-◌, ◌*◌, ◌/◌, ◌%◌, min, Bool, true, false, not, ◌&&◌, ◌||◌, ltb, leb, ◌==◌,
  if◌then◌else◌, Option, none, some, Result, ok, err,
}
use node_vmm.Prelude.State.{M, ◌>>=◌, ◌>>◌, return, throw, lift, modify}
use node_vmm.Bytes.{Memory, u64, check, checked_add, checked_mul, check_range}
use node_vmm.WinIo.{pread_all, pwrite_all}
use node_vmm.WinIo.Files.{FileApi}
use node_vmm.VirtioBlk.State.{
  Disk, Host, has_overlay, sector_dirty, mark_dirty, on_base, on_overlay,
}

-- The loop of `mark_dirty_range`, `n` rounds of it.
unfoldable pub mark_sectors : {F : Type 0} → ℕ → ℕ → Disk F → Disk F
mark_sectors zero sector disk = disk
mark_sectors (suc n) sector disk = mark_sectors n (sector + 1) (mark_dirty sector disk)

unfoldable pub mark_dirty_range : {F : Type 0} → ℕ → ℕ → Disk F → Disk F
unfolding mark_sectors
mark_dirty_range byte_off len disk =
    let first = byte_off / 512 in
    let last = u64 (byte_off + len - 1) / 512 in
    if not (has_overlay disk) || len == 0 then disk else mark_sectors (last + 1 - first) first disk

module _ {F : Type 0} (api : FileApi F) where
  -- `PwriteAll` of `src`, by index, to the file that `on_base` or `on_overlay` names.
  abbrev pub beside : Memory → Result (Unit {0}) × F → Result (Unit {0}) × (F × Memory)
  beside m (r, f) = (r, (f, m))

  abbrev pub write_file_at : (ℕ → ℕ) → ℕ → ℕ → M (F × Memory) (Unit {0})
  write_file_at src len off (f, m) = beside m (pwrite_all api src len off f)

  -- A sector that only the base file has, copied to the overlay `f` through `sector_buf`.
  unfoldable pub copy_sector : F → Memory → ℕ → Host F → Result (Unit {0}) × (Host F × Memory)
  copy_sector f sector_buf sector_start h =
      let (r, (b, buf)) = pread_all api 0 512 sector_start (h.disk.base, sector_buf) in
      let h' : Host F = record h { disk = record h.disk { base = b } } in
      elim r [
        | err e ↦ (err e, (h', buf))
        | ok done ↦
            (let (r', h'') = on_overlay f (write_file_at buf 512 sector_start) h' in
              (r', (h'', buf)))
      ]

  abbrev pub copy_to : Option F → Memory → ℕ → Host F → Result (Unit {0}) × (Host F × Memory)
  copy_to none sector_buf sector_start h = (ok tt, (h, sector_buf))
  copy_to (some f) sector_buf sector_start h = copy_sector f sector_buf sector_start h

  -- The loop of `prepare_partial_overlay_sectors`, `n` rounds of it.
  unfoldable pub prepare_sectors : ℕ → ℕ → ℕ → ℕ → Memory → M (Host F) (Unit {0})
  prepare_sectors zero byte_off end sector sector_buf h = return tt h
  prepare_sectors (suc n) byte_off end sector sector_buf h =
      let sector_start = u64 (sector * 512) in
      let covers_full_sector = leb byte_off sector_start && leb (u64 (sector_start + 512)) end in
      elim (covers_full_sector || sector_dirty h.disk sector) [
        | true ↦ prepare_sectors n byte_off end (sector + 1) sector_buf h
        | false ↦
            (let (r, (h', buf)) = copy_to h.disk.overlay sector_buf sector_start h in
              elim r [
                | err e ↦ (err e, h')
                | ok done ↦ prepare_sectors n byte_off end (sector + 1) buf h'
              ])
      ]

  unfoldable pub prepare_partial_overlay_sectors : ℕ → ℕ → M (Host F) (Unit {0})
  prepare_partial_overlay_sectors byte_off len h =
      if not (has_overlay h.disk) || len == 0
      then return tt h
      else (do
        lift (check_range h.disk.disk_bytes byte_off len "virtio-blk overlay prepare")
        end ← lift (checked_add byte_off len "virtio-blk overlay range")
        prepare_sectors ((end - 1) / 512 + 1 - byte_off / 512) byte_off end (byte_off / 512)
            (λ a. 0))
          h

  -- `file` is the overlay where it has the sector.
  abbrev pub read_from : Option F → Bool → M (F × Memory) (Unit {0}) → M (Host F) (Unit {0})
  read_from none dirty act h = on_base act h
  read_from (some f) true act h = on_overlay f act h
  read_from (some f) false act h = on_base act h

  abbrev pub read_sector : ℕ → ℕ → ℕ → ℕ → M (Host F) (Unit {0})
  read_sector sector dst chunk off h =
      read_from h.disk.overlay (sector_dirty h.disk sector) (pread_all api dst chunk off) h

  -- The loop of `ReadDisk`, at most `fuel` rounds of it.
  unfoldable pub read_sectors : ℕ → ℕ → ℕ → ℕ → ℕ → M (Host F) (Unit {0})
  read_sectors zero byte_off dst len done h =
      if ltb done len then throw "out of fuel" h else return tt h
  read_sectors (suc fuel) byte_off dst len done h =
      let current_byte = u64 (byte_off + done) in
      let chunk = min (len - done) (512 - current_byte % 512) in
      elim (ltb done len) [
        | false ↦ return tt h
        | true ↦
            (do
              read_sector (current_byte / 512) (dst + done) chunk current_byte
              read_sectors fuel byte_off dst len (done + chunk))
              h
      ]

  -- The rest of `ReadDisk`, behind its checks.
  abbrev pub read_range : ℕ → ℕ → ℕ → M (Host F) (Unit {0})
  read_range byte_off dst len h =
      if not (has_overlay h.disk)
      then on_base (pread_all api dst len byte_off) h
      else read_sectors len byte_off dst len 0 h

  unfoldable pub read_disk : ℕ → ℕ → ℕ → M (Host F) (Unit {0})
  read_disk sector dst len h =
      (do
        byte_off ← lift (checked_mul sector 512 "virtio-blk read offset")
        lift (check_range h.disk.disk_bytes byte_off len "virtio-blk read")
        read_range byte_off dst len)
        h

  -- `PwriteAll` to `write_handle()`.
  abbrev pub write_to : Option F → M (F × Memory) (Unit {0}) → M (Host F) (Unit {0})
  write_to none act h = on_base act h
  write_to (some f) act h = on_overlay f act h

  abbrev pub write_through : (ℕ → ℕ) → ℕ → ℕ → M (Host F) (Unit {0})
  write_through src len off h = write_to h.disk.overlay (write_file_at src len off) h

  unfoldable pub write_disk : ℕ → ℕ → ℕ → M (Host F) (Unit {0})
  write_disk sector src len h =
      (do
        lift (check (not h.disk.read_only) "virtio-blk write to read-only disk")
        byte_off ← lift (checked_mul sector 512 "virtio-blk write offset")
        lift (check_range h.disk.disk_bytes byte_off len "virtio-blk write")
        prepare_partial_overlay_sectors byte_off len
        write_through (λ k. h.memory (src + k)) len byte_off
        modify (λ h'. record h' { disk = mark_dirty_range byte_off len h'.disk }))
        h
