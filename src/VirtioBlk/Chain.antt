-- ===== src/VirtioBlk/Chain.antt =====
-- The chain of descriptors, in guest memory.
use node_vmm.Prelude.{
  ℕ, zero, suc, ◌+◌, ◌*◌, bit_and, Bool, true, false, not, ◌||◌, ltb, ◌==◌, List, [], ◌∷◌, ◌++◌,
  length, Result, ok, err, ◌>>=◌, ◌>>◌,
}
use node_vmm.Bytes.{u64, Memory, check}
use node_vmm.VirtioRng.State.{Desc, ring_desc_next}
use node_vmm.VirtioRng.Queue.{read_desc}
use node_vmm.VirtioBlk.State.{guest_ptr}

abbrev pub max_queue_size : ℕ
max_queue_size = 256

abbrev pub ring_desc_indirect : ℕ
ring_desc_indirect = 4

-- `DescChain::push`.
unfoldable pub push : Desc → List Desc → Result (List Desc)
push desc chain = do
  check (ltb (length chain) max_queue_size) "virtio descriptor chain too long"
  ok (chain ++ desc ∷ [])

-- The descriptor at `idx`, with the checks of one round of the walk.
unfoldable pub next_desc : ℕ → ℕ → ℕ → (ℕ → Bool) → ℕ → Memory → Result Desc
next_desc mem_size desc_addr q_size seen idx m = do
  check (ltb idx q_size) "virtio descriptor next out of bounds"
  check (not (seen idx)) "virtio descriptor cycle"
  check (ltb idx q_size) "virtio descriptor index out of bounds"
  p ← guest_ptr mem_size (u64 (desc_addr + idx * 16)) 16
  check (bit_and (read_desc p m).flags ring_desc_indirect == 0)
      "virtio indirect descriptors are not supported"
  ok (read_desc p m)

-- The loop of `walk_chain_inline`, at most `fuel` rounds of it.
unfoldable pub walk_chain : ℕ → ℕ → ℕ → ℕ → (ℕ → Bool) → ℕ → List Desc → Memory → Result (List Desc)
walk_chain zero mem_size desc_addr q_size seen idx chain m = err "out of fuel"
walk_chain (suc fuel) mem_size desc_addr q_size seen idx chain m = do
  d ← next_desc mem_size desc_addr q_size seen idx m
  chain' ← push d chain
  elim (bit_and d.flags ring_desc_next == 0) [
    | true ↦ ok chain'
    | false ↦ walk_chain fuel mem_size desc_addr q_size (λ i. i == idx || seen i) d.next chain' m
  ]

-- A round sees one more of the `q_size` descriptors, and the last round throws.
unfoldable pub walk_chain_inline : ℕ → ℕ → ℕ → ℕ → Memory → Result (List Desc)
walk_chain_inline mem_size desc_addr q_size head m =
    walk_chain (suc q_size) mem_size desc_addr q_size (λ i. false) head [] m
