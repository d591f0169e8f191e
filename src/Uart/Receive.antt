-- ===== src/Uart/Receive.antt =====
-- The receive side: host bytes wait in a staging queue for the FIFO, or for the receive buffer.
use mathlib.Core.List.{reverse}
use node_vmm.Prelude.{
  ℕ, suc, ◌+◌, bit_or, Bool, false, ltb, if◌then◌else◌, List, [], ◌∷◌, ◌++◌, length,
}
use node_vmm.Uart.State.{Uart, rx_capacity, fifo_size, lsr_dr, lsr_oe, has_bits, without}
use node_vmm.Uart.Lines.{is_empty, fifo_enabled, rx_trigger_level, update_interrupt}

-- The `while` loop of `drain_rx_staging_locked`: the staging queue and the FIFO after it.
unfoldable pub fill_fifo : List ℕ → List ℕ → List ℕ × List ℕ
fill_fifo [] fifo = ([], fifo)
fill_fifo (b ∷ staging) fifo =
    let rest = fill_fifo staging (fifo ++ b ∷ []) in
    if ltb (length fifo) fifo_size then rest else (b ∷ staging, fifo)

unfoldable pub drain_fifo : Uart → Uart
unfolding rx_trigger_level
drain_fifo u =
    let (staging, fifo) = fill_fifo u.rx_staging u.rx_fifo in
    let moved = record u { rx_staging = staging; rx_fifo = fifo } in
    if is_empty fifo
    then record moved { lsr = without moved.lsr lsr_dr; timeout_ipending = false }
    else record moved {
      lsr = bit_or moved.lsr lsr_dr;
      timeout_ipending = ltb (length fifo) (rx_trigger_level moved);
    }

-- Without the FIFO: a byte moves into `rbr_` if that is free.
abbrev pub load_buffer : List ℕ → Uart → Uart
load_buffer [] u = u
load_buffer (b ∷ staging) u =
    if has_bits u.lsr lsr_dr
    then u
    else record u { rbr = b; rx_staging = staging; lsr = bit_or u.lsr lsr_dr }

unfoldable pub drain_rx_staging : Uart → Uart
unfolding fifo_enabled drain_fifo
drain_rx_staging u =
    if fifo_enabled u
    then drain_fifo u
    else record (load_buffer u.rx_staging u) { timeout_ipending = false }

-- What `queued` adds to the length of the staging queue.
unfoldable pub buffered : Uart → ℕ
unfolding fifo_enabled
buffered u = if fifo_enabled u then length u.rx_fifo else if has_bits u.lsr lsr_dr then 1 else 0

-- The loops of `enqueue_rx_locked`: the staging queue after them, and the count accepted.
unfoldable pub stage_back : ℕ → List ℕ → List ℕ → List ℕ × ℕ
stage_back held staging [] = (staging, 0)
stage_back held staging (b ∷ bytes) =
    let (staged, accepted) = stage_back held (staging ++ b ∷ []) bytes in
    if ltb (length staging + held) rx_capacity then (staged, suc accepted) else (staging, 0)

unfoldable pub stage_front : ℕ → List ℕ → List ℕ → List ℕ × ℕ
stage_front held staging [] = (staging, 0)
stage_front held staging (b ∷ bytes) =
    let (staged, accepted) = stage_front held (b ∷ staging) bytes in
    if ltb (length staging + held) rx_capacity then (staged, suc accepted) else (staging, 0)

-- The part of `enqueue_rx_locked` behind its guard: an overrun is noted, then the queue is drained.
unfoldable pub accept_staged : Uart → List ℕ → ℕ → ℕ → Uart
accept_staged u staged accepted len =
    let staged_u = record u { rx_staging = staged } in
    update_interrupt (
      drain_rx_staging
        (record staged_u { lsr = if ltb accepted len then bit_or u.lsr lsr_oe else u.lsr }))

unfoldable pub enqueue_rx : Bool → List ℕ → Uart → ℕ × Uart
enqueue_rx front [] u = (0, u)
enqueue_rx front (b ∷ bytes) u =
    let (staged, accepted) =
      if front
      then stage_front (buffered u) u.rx_staging (reverse (b ∷ bytes))
      else stage_back (buffered u) u.rx_staging (b ∷ bytes) in
    (accepted, accept_staged u staged accepted (length (b ∷ bytes)))

unfoldable pub clear_rx : Uart → Uart
clear_rx u = record u {
  rx_fifo = [];
  rx_staging = [];
  rbr = 0;
  timeout_ipending = false;
  lsr = without u.lsr 0x1f;
}
