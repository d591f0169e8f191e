-- ===== src/VirtioBlk/SafeData.antt =====
-- The data of a request: nothing is stored outside guest memory.
use node_vmm.Prelude.{
  ℕ, ◌+◌, ◌/◌, ◌%◌, ◌≡◌, refl, ap, ◌∙◌, arith, min, ◌==◌, ◌!=◌, Option-cases, inl, inr, Result,
  List, [], ◌∷◌, bit_and, if_intro,
}
use node_vmm.Prelude.State.{continue-keeps, lift-keeps}
use node_vmm.Bytes.{Memory, u32, u64, check}
use node_vmm.WinIo.Files.{FileApi, IsBounded}
use node_vmm.VirtioRng.State.{Desc, ring_desc_write}
use node_vmm.VirtioRng.Ring.{IsKept}
use node_vmm.VirtioBlk.State.{Host, guest_ptr}
use node_vmm.VirtioBlk.Disk.{read_disk, write_disk}
use node_vmm.VirtioBlk.Request.{
  keep_written, read_data, write_data, flush_disk, flush_unless_read_only, give_id, perform,
  device_id,
}
use node_vmm.VirtioBlk.Safety.{guest_ptr-ok, place_outside, read_disk-IsKept}
use node_vmm.VirtioBlk.SafeWrites.{write_disk-Same}

module _ {F : Type 0} (api : FileApi F) (bounded : IsBounded api) (mem_size : ℕ) (m₀ : Memory) where
  abbrev pub Within : Host F → Type 0
  Within h = IsKept mem_size m₀ h.memory

  abbrev pub WithinProgress : Host F × ℕ → Type 0
  WithinProgress s = IsKept mem_size m₀ s.0.memory

  read_data-IsKept :
      (ds : List Desc) (sector : ℕ) (s : Host F × ℕ)
      → WithinProgress s
      → WithinProgress (read_data api mem_size ds sector s).1
  unfolding read_data
  read_data-IsKept [] sector s kept = kept
  read_data-IsKept (d ∷ ds) sector s kept =
      lift-keeps WithinProgress
        (check (bit_and d.flags ring_desc_write != 0)
          "virtio-blk read data descriptor must be writable")
        s _ kept
        λ t e.
          lift-keeps WithinProgress
            (check (d.len % 512 == 0) "virtio-blk read length must be sector-aligned") s _ kept
            λ t' e'. lift-keeps WithinProgress (guest_ptr mem_size d.addr d.len) s _ kept λ p g.
              let (q, i) = guest_ptr-ok mem_size d.addr d.len p g in
              continue-keeps WithinProgress
                (keep_written api mem_size s.1 (read_disk api sector p d.len s.0)) _
                (read_disk-IsKept api bounded mem_size m₀ sector p d.len s.0 (omega arith) kept)
                (λ r s' kept'.
                  read_data-IsKept ds (u64 (sector + d.len / 512)) (s'.0, u32 (s'.1 + d.len)) kept')

  write_data-IsKept :
      (ds : List Desc) (sector : ℕ) (s : Host F × ℕ)
      → WithinProgress s
      → WithinProgress (write_data api mem_size ds sector s).1
  unfolding write_data
  write_data-IsKept [] sector s kept = kept
  write_data-IsKept (d ∷ ds) sector s kept =
      lift-keeps WithinProgress
        (check (bit_and d.flags ring_desc_write == 0)
          "virtio-blk write data descriptor must be read-only")
        s _ kept
        λ t e.
          lift-keeps WithinProgress
            (check (d.len % 512 == 0) "virtio-blk write length must be sector-aligned") s _ kept
            λ t' e'. lift-keeps WithinProgress (guest_ptr mem_size d.addr d.len) s _ kept λ p g.
              continue-keeps WithinProgress
                (keep_written api mem_size s.1 (write_disk api sector p d.len s.0)) _
                (λ a h.
                  ap (λ (m : Memory). m a) (write_disk-Same api s.0.memory sector p d.len s.0 refl)
                  ∙ kept a h)
                (λ r s' kept'. write_data-IsKept ds (u64 (sector + d.len / 512)) s' kept')

  flush_disk-Same : (h : Host F) → (flush_disk api mem_size h).1.memory ≡ h.memory
  unfolding flush_disk
  flush_disk-Same h = elim (Option-cases h.disk.overlay) [
    | inl n ↦ rw n refl
    | inr (f, n) ↦ rw n refl
  ]

  flush-Same : (h : Host F) → (flush_unless_read_only api mem_size h).1.memory ≡ h.memory
  flush-Same h =
      if_intro (λ (r : Result (Unit {0}) × Host F). r.1.memory ≡ h.memory) h.disk.read_only refl
        (flush_disk-Same h)

  give_id-IsKept :
      (ds : List Desc) (s : Host F × ℕ)
      → WithinProgress s
      → WithinProgress (give_id api mem_size ds s).1
  unfolding give_id
  give_id-IsKept [] s kept = kept
  give_id-IsKept (d ∷ ds) s kept =
      lift-keeps WithinProgress (guest_ptr mem_size d.addr (min d.len 9)) s _ kept λ p g.
        let (q, i) = guest_ptr-ok mem_size d.addr (min d.len 9) p g in
        λ a h. place_outside (min d.len 9) p device_id s.0.memory a (omega arith) ∙ kept a h

  pub perform-IsKept :
      (type sector : ℕ) (ds : List Desc) (s : Host F × ℕ)
      → WithinProgress s
      → WithinProgress (perform api mem_size type sector ds s).1
  unfolding perform
  perform-IsKept type sector ds s kept =
      let K : Result ℕ × (Host F × ℕ) → Type 0 = λ r. WithinProgress r.1 in
      if_intro K (type == 0)
        (continue-keeps WithinProgress (read_data api mem_size ds sector s) _
          (read_data-IsKept ds sector s kept) (λ r s' k. k))
        (if_intro K (type == 1)
          (continue-keeps WithinProgress (write_data api mem_size ds sector s) _
            (write_data-IsKept ds sector s kept) (λ r s' k. k))
          (if_intro K (type == 4)
            (continue-keeps WithinProgress
              (keep_written api mem_size s.1 (flush_unless_read_only api mem_size s.0)) _
              (λ a h. ap (λ (m : Memory). m a) (flush-Same s.0) ∙ kept a h) (λ r s' k. k))
            (if_intro K (type == 8)
              (continue-keeps WithinProgress (give_id api mem_size ds s) _
                (give_id-IsKept ds s kept) (λ r s' k. k))
              kept)))
