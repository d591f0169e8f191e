-- ===== src/VirtioBlk/Used.antt =====
-- The used ring, in guest memory.
use node_vmm.Prelude.{ℕ, ◌+◌, ◌*◌, ◌%◌}
use node_vmm.Prelude.State.{M, ◌>>=◌, ◌>>◌, lift, modify}
use node_vmm.Bytes.{u64, Memory, read_u16, write_u16, write_u32}
use node_vmm.VirtioBlk.State.{guest_ptr}

abbrev pub used_entry : ℕ → ℕ → ℕ → ℕ
used_entry device_addr q_size used = u64 (device_addr + 4 + used % q_size * 8)

unfoldable pub push_used_inline : ℕ → ℕ → ℕ → ℕ → ℕ → M Memory (Unit {0})
push_used_inline mem_size device_addr q_size id written m =
    (do
      idxp ← lift (guest_ptr mem_size (u64 (device_addr + 2)) 2)
      entry ← lift (guest_ptr mem_size (used_entry device_addr q_size (read_u16 idxp m)) 8)
      modify (write_u32 entry id)
      entry' ←
          lift (guest_ptr mem_size (u64 (used_entry device_addr q_size (read_u16 idxp m) + 4)) 4)
      modify (write_u32 entry' written)
      modify (write_u16 idxp (read_u16 idxp m + 1)))
      m
