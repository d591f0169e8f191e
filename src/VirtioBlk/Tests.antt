-- ===== src/VirtioBlk/Tests.antt =====
-- A disk of two sectors with an overlay that has the second, and a queue with one request.
use node_vmm.Prelude.{
  ℕ, ◌+◌, ◌*◌, ◌≡◌, refl, arith, true, false, ltb, if◌then◌else◌, some, inl, Result, ok, err,
  Returns,
}
use node_vmm.Prelude.State.{Finishes, ◌>>◌}
use node_vmm.Bytes.{
  Memory, poke, check, checked_mul, check_range, read_u16, read_u32, read_u64, read_bytes,
  write_u16, write_u32, write_bytes,
}
use node_vmm.Bytes.RoundTrip.{IsBytes}
use node_vmm.WinIo.{pread_all, pread_loop}
use node_vmm.WinIo.Files.{Contents, place}
use node_vmm.WinIo.Slow.{slow_file, itself, slow_file-works, slow_file-IsBounded, two_sectors}
use node_vmm.VirtioRng.State.{Queue}
use node_vmm.VirtioRng.Ring.{IsKept}
use node_vmm.VirtioBlk.State.{Disk, Host, guest_ptr, sector_dirty}
use node_vmm.VirtioBlk.Disk.{read_disk, read_sectors, write_disk}
use node_vmm.VirtioBlk.Chain.{push, next_desc, walk_chain, walk_chain_inline}
use node_vmm.VirtioBlk.Used.{push_used_inline}
use node_vmm.VirtioBlk.Request.{
  read_data, perform, checked_chain, attempt, process_request, serve, handle_queue,
}
use node_vmm.VirtioBlk.Registers.{Blk, write_mmio}
use node_vmm.VirtioBlk.View.{image, IsAttached, IsReadHost}
use node_vmm.VirtioBlk.Reading.{read_disk-IsReadHost}
use node_vmm.VirtioBlk.Written.{IsWrittenHost}
use node_vmm.VirtioBlk.Writing.{write_disk-IsWrittenHost}
use node_vmm.VirtioBlk.Refusals.{IsRefused, write_disk-IsRefused}
use node_vmm.VirtioBlk.RoundTrip.{read_disk-write_disk}
use node_vmm.VirtioBlk.Completion.{IsPlaced, CaughtUp, handle_queue-Finishes}
use node_vmm.VirtioBlk.Window.{write_mmio-IsKept}
use node_vmm.VirtioBlk.Attach.{attach, IsFresh, attach-IsFresh}

abbrev nines : Contents
nines = record { bytes = λ a. 9; size = 1024; position = 0 }

-- Sector 1 is dirty.
abbrev disk : Disk Contents
disk = record {
  base = two_sectors;
  overlay = some nines;
  dirty_sectors = λ i. if ltb i 1 then 2 else 0;
  disk_bytes = 1024;
  sectors = 2;
  read_only = false;
}

-- The chain at 0x100: a header at 0x400, 512 bytes to fill at 0x800, a status byte at 0x500. The
-- request is a read of sector 1, and the available index is 1.
abbrev memory : Memory
memory = write_u32 0x408 1 (
    poke 0x202 1 (
      poke 0x12c 2 (
        poke 0x128 1 (
          poke 0x121 5 (
            poke 0x11e 2 (
              poke 0x11c 3 (
                poke 0x119 2 (
                  poke 0x111 8
                    (poke 0x10e 1 (poke 0x10c 1 (poke 0x108 16 (poke 0x101 4 (λ a. 0)))))))))))))

abbrev host : Host Contents
host = record { memory = memory; disk = disk }

abbrev queue : Queue
queue = record {
  size = 8;
  ready = true;
  last_avail = 0;
  desc_addr = 0x100;
  driver_addr = 0x200;
  device_addr = 0x300;
}

abbrev blk : Blk
blk = record {
  status = 15;
  drv_features = 0;
  dev_features_sel = 0;
  drv_features_sel = 0;
  queue_sel = 0;
  interrupt_status = 0;
  queues = λ i. queue;
  raised = 0;
}

-- The bytes read, the status byte, and the used index with the length.
abbrev outcome : Result (Unit {0}) × (Queue × Host Contents) → ℕ × ℕ × ℕ × ℕ
outcome (ok done, (q, h)) =
    (h.memory 0x9ff, h.memory 0x500, read_u16 0x302 h.memory, read_u16 0x308 h.memory)
outcome (err e, (q, h)) = (0, 0, 0, 0)

handle_queue_here : outcome (handle_queue slow_file 0x1000 (queue, host)) ≡ (9, 0, 1, 513)
unfolding handle_queue serve process_request attempt checked_chain walk_chain_inline walk_chain
    next_desc push perform read_data read_disk read_sectors sector_dirty pread_all pread_loop
    push_used_inline guest_ptr check checked_mul check_range read_u16 read_u32 read_u64 read_bytes
    write_u16 write_u32 write_bytes
handle_queue_here = refl

attached : IsAttached (image itself disk)
attached = record {
  small = omega arith;
  whole = refl;
  base_size = refl;
  overlay_size = λ f e. ground (arith, e);
}

read_disk-IsReadHost_example :
    Finishes (IsReadHost itself 0x800 1024 (0 * 512) host) (read_disk slow_file 0 0x800 1024 host)
read_disk-IsReadHost_example =
    read_disk-IsReadHost slow_file itself slow_file-works 0 0x800 1024 host attached (omega arith)

write_disk-IsWrittenHost_example :
    Finishes
      (IsWrittenHost slow_file itself slow_file-works 0x800 512 (1 * 512) host)
      (write_disk slow_file 1 0x800 512 host)
write_disk-IsWrittenHost_example =
    write_disk-IsWrittenHost slow_file itself slow_file-works 1 0x800 512 host attached refl
      (omega arith) refl

read_disk-write_disk_example :
    Finishes
      (λ done h'. (a : ℕ) → h'.memory a ≡ place 512 0x800 (λ k. memory (0x100 + k)) memory a)
      ((write_disk slow_file 0 0x100 512 >> read_disk slow_file 0 0x800 512) host)
read_disk-write_disk_example =
    read_disk-write_disk slow_file itself slow_file-works 0 0x100 0x800 512 host attached refl
      (omega arith) refl

abbrev read_only_host : Host Contents
read_only_host = record { memory = memory; disk = record disk { read_only = true } }

write_disk-IsRefused_example :
    IsRefused read_only_host (write_disk slow_file 0 0x800 512 read_only_host)
write_disk-IsRefused_example = write_disk-IsRefused slow_file 0 0x800 512 read_only_host (inl refl)

memory-IsBytes : IsBytes memory
unfolding write_u32 write_bytes
memory-IsBytes a = ground arith

queue-IsPlaced : IsPlaced 0x1000 queue
queue-IsPlaced = record {
  bounded = omega arith;
  size_pos = omega arith;
  avail_inside = omega arith;
  used_inside = omega arith;
  counter = omega arith;
}

handle_queue-Finishes_example :
    Finishes
      (CaughtUp slow_file 0x1000 (read_u16 (0x200 + 2) memory))
      (handle_queue slow_file 0x1000 (queue, host))
handle_queue-Finishes_example =
    handle_queue-Finishes slow_file 0x1000 queue host queue-IsPlaced memory-IsBytes

write_mmio-IsKept_example :
    IsKept 0x1000 memory
      (write_mmio slow_file 0x1000 0xd0000000 0xd0000050 64 4 (λ a. 0) (blk, host)).1.1.memory
write_mmio-IsKept_example =
    write_mmio-IsKept slow_file slow_file-IsBounded 0x1000 0xd0000000 0xd0000050 64 4 (λ a. 0) blk
      host

attach-IsFresh_example :
    Returns
      (IsFresh slow_file itself slow_file-works two_sectors)
      (attach slow_file false true false (some two_sectors) (some 1024) (some nines))
attach-IsFresh_example =
    attach-IsFresh slow_file itself slow_file-works false true two_sectors nines refl (omega arith)
