-- ===== src/Uart/Queue/Receive.antt =====
-- Bytes from the host.
use mathlib.Core.Path.{subst}
use node_vmm.Prelude.{
  ℕ, ◌+◌, ◌-◌, ◌≤◌, min, ◌≡◌, refl, sym, ◌∙◌, arith, ltb, Bool, true, false, if◌then◌else◌,
  Bool-cases, inl, inr, List, [], ◌∷◌, ◌++◌, length, take, append_assoc, append-nil, length-take,
  length-append, bit_or,
}
use node_vmm.Uart.State.{Uart, rx_capacity, lsr_oe}
use node_vmm.Uart.Lines.{fifo_enabled}
use node_vmm.Uart.Receive.{drain_rx_staging, buffered, stage_back, accept_staged, enqueue_rx}
use node_vmm.Uart.Registers.{receive}
use node_vmm.Uart.Queue.{
  waiting, IsValid, Leaves, dr_or, drain_rx_staging-Leaves, update_interrupt-Leaves,
}

stage_back_lem :
    (held : ℕ) (staging bytes : List ℕ)
    → let (staged, n) = stage_back held staging bytes in
      (staged ≡ staging ++ take n bytes)
      × (n ≡ min (length bytes) (rx_capacity - (length staging + held)))
unfolding stage_back
stage_back_lem held staging [] = (sym (append-nil staging), omega arith)
stage_back_lem held staging (b ∷ bytes) =
    elim (Bool-cases (ltb (length staging + held) rx_capacity)) [
      | inl room ↦
          let (e, n) = stage_back_lem held (staging ++ b ∷ []) bytes in
          rw room (
            e
                ∙ append_assoc staging (b ∷ [])
                    (take (stage_back held (staging ++ b ∷ []) bytes).1 bytes),
            ground (arith, length-append staging (b ∷ [])),
          )
      | inr full ↦ rw full (sym (append-nil staging), ground arith)
    ]

-- The bytes counted by `queued` are those that wait.
length-waiting : (u : Uart) → length (waiting u) ≡ length u.rx_staging + buffered u
unfolding waiting buffered fifo_enabled
length-waiting u = ground (arith, length-append u.rx_fifo u.rx_staging)

waiting-append :
    (u : Uart) (bytes : List ℕ) (overrun : Bool)
    → waiting (record u {
      rx_staging = u.rx_staging ++ bytes;
      lsr = if overrun then bit_or u.lsr lsr_oe else u.lsr;
    })
      ≡ waiting u ++ bytes
unfolding waiting fifo_enabled
waiting-append u bytes true =
    ground (arith, append_assoc u.rx_fifo u.rx_staging bytes, dr_or u.lsr lsr_oe)
waiting-append u bytes false = ground (arith, append_assoc u.rx_fifo u.rx_staging bytes)

accept_staged-Leaves :
    (u : Uart) (bytes : List ℕ) (n len : ℕ)
    → IsValid u
    → length (u.rx_staging ++ take n bytes) ≤ rx_capacity
    → Leaves u (waiting u ++ take n bytes) (accept_staged u (u.rx_staging ++ take n bytes) n len)
unfolding accept_staged
accept_staged-Leaves u bytes n len v h =
    let staged : Uart = record u {
      rx_staging = u.rx_staging ++ take n bytes;
      lsr = if ltb n len then bit_or u.lsr lsr_oe else u.lsr;
    } in
    let l = drain_rx_staging-Leaves staged v.fifo_bound h in
    update_interrupt-Leaves u (drain_rx_staging staged) (waiting u ++ take n bytes) (record {
      mode = l.mode;
      bytes_left = l.bytes_left ∙ waiting-append u (take n bytes) (ltb n len);
      valid = l.valid;
    })

enqueue_rx-Leaves :
    (bytes : List ℕ) (u : Uart)
    → IsValid u
    → let (n, u') = enqueue_rx false bytes u in
      (n ≡ min (length bytes) (rx_capacity - length (waiting u)))
      × Leaves u (waiting u ++ take n bytes) u'
unfolding enqueue_rx
enqueue_rx-Leaves [] u v =
    (omega arith, record { mode = refl; bytes_left = sym (append-nil (waiting u)); valid = v })
enqueue_rx-Leaves (b ∷ bytes) u v =
    let (e, n) = stage_back_lem (buffered u) u.rx_staging (b ∷ bytes) in
    let count = (stage_back (buffered u) u.rx_staging (b ∷ bytes)).1 in
    (
      omega (arith, n, length-waiting u),
      subst
          (λ staged.
            Leaves u (waiting u ++ take count (b ∷ bytes))
              (accept_staged u staged count (length (b ∷ bytes))))
          (sym e)
          (accept_staged-Leaves u (b ∷ bytes) count (length (b ∷ bytes)) v (
            omega (
              arith,
              n,
              v.staging_bound,
              length-append u.rx_staging (take count (b ∷ bytes)),
              length-take count (b ∷ bytes),
            ))),
    )

-- In a valid state the port accepts as many of the host's bytes as there is room for, 4096 being
-- the capacity, and they wait in order behind those that wait already; the state stays valid.
pub receive_lem :
    (bytes : List ℕ) (u : Uart)
    → IsValid u
    → let (accepted, u') = receive bytes u in
      (accepted ≡ min (length bytes) (rx_capacity - length (waiting u)))
      × (waiting u' ≡ waiting u ++ take accepted bytes)
      × IsValid u'
unfolding receive
receive_lem bytes u v = let (n, l) = enqueue_rx-Leaves bytes u v in (n, l.bytes_left, l.valid)
