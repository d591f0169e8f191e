-- ===== src/Uart/Queue.antt =====
-- The receiver of the port as a queue: the bytes that wait, and the invariant.
pub mod Receive
pub mod Read
use mathlib.Core.Path.{subst}
use node_vmm.Prelude.{
  ℕ, zero, suc, ◌+◌, ◌-◌, ◌*◌, ◌^◌, ◌≤◌, ◌<◌, min, max, ◌≡◌, ◌≢◌, ◌⊎◌, refl, sym, ap, ap₂, ◌∙◌,
  arith, ltb, if_intro, Bool, true, false, not, ◌==◌, ◌!=◌, if◌then◌else◌, Bool-cases, inl, inr,
  List, [], ◌∷◌, ◌++◌, length, take, append_assoc, append-nil, length-take, length-append, bit_and,
  bit_or, ◌&&◌,
}
use node_vmm.Bits.{bit_at, bit_at-and, bit_at-or, bit_at-le}
use node_vmm.Bits.Fields.{bit_and_pow, bit_not}
use node_vmm.Uart.State.{Uart, rx_capacity, fifo_size, lsr_dr, lsr_oe, has_bits, without}
use node_vmm.Uart.Lines.{is_empty, fifo_enabled, rx_trigger_level, update_interrupt}
use node_vmm.Uart.Receive.{
  fill_fifo, drain_fifo, load_buffer, drain_rx_staging, buffered, stage_back, accept_staged,
  enqueue_rx,
}
use node_vmm.Uart.Registers.{dlab, pop_fifo, read_fifo, read_buffer, read_rbr, read, receive}

-- The bytes that the guest has not read yet, oldest first.
pub waiting : Uart → List ℕ
waiting u =
    if fifo_enabled u
    then u.rx_fifo ++ u.rx_staging
    else if has_bits u.lsr lsr_dr
    then u.rbr ∷ u.rx_staging
    else u.rx_staging

-- No byte stays behind while there is room in front of it, and both queues are bounded.
pub record IsValid (u : Uart) : Type 0 where
  pub fifo_drained : fifo_enabled u ≡ true → (u.rx_staging ≡ []) ⊎ (fifo_size ≤ length u.rx_fifo)
  pub buffer_drained : fifo_enabled u ≡ false → (u.rx_staging ≡ []) ⊎ (has_bits u.lsr lsr_dr ≡ true)
  pub fifo_bound : length u.rx_fifo ≤ fifo_size
  pub staging_bound : length u.rx_staging ≤ rx_capacity

-- The bit for a ready byte, under the changes of the other bits and its own.
dr_or : (x y : ℕ) → bit_at y 0 ≡ 0 → has_bits (bit_or x y) lsr_dr ≡ has_bits x lsr_dr
dr_or x y h = ground (arith, bit_and_pow (bit_or x y) 0, bit_and_pow x 0, bit_at-or x y 0)

dr_set : (x : ℕ) → has_bits (bit_or x lsr_dr) lsr_dr ≡ true
dr_set x = ground (arith, bit_and_pow (bit_or x lsr_dr) 0, bit_at-or x lsr_dr 0)

dr_cleared : (x : ℕ) → has_bits (without x lsr_dr) lsr_dr ≡ false
dr_cleared x = ground (arith, bit_and_pow (without x lsr_dr) 0, bit_at-and x (bit_not 8 lsr_dr) 0)

fill_fifo_lem :
    (staging fifo : List ℕ)
    → length fifo ≤ fifo_size
    → let (staging', fifo') = fill_fifo staging fifo in
      (fifo' ++ staging' ≡ fifo ++ staging)
      × ((staging' ≡ []) ⊎ (fifo_size ≤ length fifo'))
      × (length fifo' ≤ fifo_size)
      × (length staging' ≤ length staging)
unfolding fill_fifo
fill_fifo_lem [] fifo h = (refl, inl refl, h, omega arith)
fill_fifo_lem (b ∷ staging) fifo h = elim (Bool-cases (ltb (length fifo) fifo_size)) [
  | inl room ↦
      let ih =
        fill_fifo_lem staging (fifo ++ b ∷ [])
          (let l = length-append fifo (b ∷ []) in ground arith) in
      rw room (ih.0 ∙ append_assoc fifo (b ∷ []) staging, ih.1, ih.2, omega arith)
  | inr full ↦ rw full (refl, inr (ground arith), h, omega arith)
]

abbrev Moved : Uart → Uart → Type 0
Moved u d =
    (d.fcr ≡ u.fcr)
    × (d.rx_fifo ++ d.rx_staging ≡ u.rx_fifo ++ u.rx_staging)
    × ((d.rx_staging ≡ []) ⊎ (fifo_size ≤ length d.rx_fifo))
    × (length d.rx_fifo ≤ fifo_size)
    × (length d.rx_staging ≤ length u.rx_staging)

drain_fifo-Moved : (u : Uart) → length u.rx_fifo ≤ fifo_size → Moved u (drain_fifo u)
unfolding drain_fifo
drain_fifo-Moved u h =
    let (kept, drained, bound, less) = fill_fifo_lem u.rx_staging u.rx_fifo h in
    if_intro (Moved u) _ (refl, kept, drained, bound, less) (refl, kept, drained, bound, less)

-- What one operation leaves: a valid state in the same mode, with these bytes waiting.
pub record Leaves (u : Uart) (bytes : List ℕ) (d : Uart) : Type 0 where
  pub mode : d.fcr ≡ u.fcr
  pub bytes_left : waiting d ≡ bytes
  pub valid : IsValid d

load_buffer-Leaves :
    (staging : List ℕ) (u : Uart)
    → u.rx_staging ≡ staging
    → fifo_enabled u ≡ false
    → length u.rx_fifo ≤ fifo_size
    → length u.rx_staging ≤ rx_capacity
    → Leaves u (waiting u) (record (load_buffer staging u) { timeout_ipending = false })
unfolding waiting fifo_enabled
load_buffer-Leaves [] u e off h k = ground arith
load_buffer-Leaves (b ∷ staging) u e off h k = ground (arith, dr_set u.lsr)

drain_rx_staging-Leaves :
    (u : Uart)
    → length u.rx_fifo ≤ fifo_size
    → length u.rx_staging ≤ rx_capacity
    → Leaves u (waiting u) (drain_rx_staging u)
unfolding drain_rx_staging waiting fifo_enabled
drain_rx_staging-Leaves u h k = elim (Bool-cases (fifo_enabled u)) [
  | inl on ↦ ground (arith, drain_fifo-Moved u h)
  | inr off ↦ ground (arith, load_buffer-Leaves u.rx_staging u refl off h k)
]

update_interrupt-Leaves :
    (u d : Uart) (bytes : List ℕ) → Leaves u bytes d → Leaves u bytes (update_interrupt d)
unfolding update_interrupt waiting fifo_enabled
update_interrupt-Leaves u d bytes l = record {
  mode = l.mode;
  bytes_left = l.bytes_left;
  valid = record {
    fifo_drained = l.valid.fifo_drained;
    buffer_drained = l.valid.buffer_drained;
    fifo_bound = l.valid.fifo_bound;
    staging_bound = l.valid.staging_bound;
  };
}
