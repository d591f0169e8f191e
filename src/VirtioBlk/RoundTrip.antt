-- ===== src/VirtioBlk/RoundTrip.antt =====
-- A write and a read, one after the other.
use node_vmm.Prelude.{ℕ, ◌+◌, ◌*◌, ◌%◌, ◌≤◌, ◌≡◌, ap, ◌∙◌, arith, false}
use node_vmm.Prelude.State.{Finishes, Finishes-continue, Finishes-weaken, ◌>>◌}
use node_vmm.Bytes.{Memory}
use node_vmm.WinIo.Files.{FileApi, IsFileApi, Contents, place}
use node_vmm.WinIo.Transfer.{place_ext, place_inside}
use node_vmm.VirtioBlk.State.{Host}
use node_vmm.VirtioBlk.Disk.{read_disk, write_disk}
use node_vmm.VirtioBlk.View.{view, image, IsAttached, IsReadHost}
use node_vmm.VirtioBlk.Reading.{read_disk-IsReadHost}
use node_vmm.VirtioBlk.Written.{IsWrittenHost}
use node_vmm.VirtioBlk.Writing.{write_disk-IsWrittenHost}

module _ {F : Type 0} (api : FileApi F) (holds : F → Contents) (works : IsFileApi api holds) where
  -- What is written to whole sectors of a disk that is not read-only is what a read of the same
  -- sectors then gives, on the memory that the write left as it was.
  pub read_disk-write_disk :
      (sector src dst len : ℕ) (h : Host F)
      → IsAttached (image holds h.disk)
      → h.disk.read_only ≡ false
      → sector * 512 + len ≤ h.disk.disk_bytes
      → len % 512 ≡ 0
      → Finishes
          (λ done h'. (a : ℕ) → h'.memory a ≡ place len dst (λ k. h.memory (src + k)) h.memory a)
          ((write_disk api sector src len >> read_disk api sector dst len) h)
  read_disk-write_disk sector src dst len h attached writable inside whole =
      Finishes-continue (IsWrittenHost api holds works src len (sector * 512) h) _
        (write_disk api sector src len h) _
        (write_disk-IsWrittenHost api holds works sector src len h attached writable inside whole)
        (λ done h' (attached', seen, same, size, base).
          Finishes-weaken (IsReadHost holds dst len (sector * 512) h') _
            (read_disk api sector dst len h')
            (read_disk-IsReadHost api holds works sector dst len h' attached' (omega (arith, size)))
            (λ done' h'' (disk, filled) a.
              filled a
              ∙ (place_ext len dst (λ k. view (image holds h'.disk) (sector * 512 + k))
                    (λ k. h.memory (src + k)) h'.memory a
                    (λ k q.
                      seen (sector * 512 + k)
                      ∙ place_inside len (sector * 512) (λ k. h.memory (src + k))
                          (view (image holds h.disk)) k q)
                  ∙ ap (λ (m : Memory). place len dst (λ k. h.memory (src + k)) m a) same)))
