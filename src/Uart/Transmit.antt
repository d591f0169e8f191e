-- ===== src/Uart/Transmit.antt =====
-- The transmit side: loopback, terminal queries, and the way to the console.
use node_vmm.Prelude.{
  ℕ, bit_or, true, false, not, ◌&&◌, ◌||◌, ltb, ◌==◌, if◌then◌else◌, List, [], ◌∷◌, ◌++◌, length,
}
use node_vmm.Uart.State.{Uart, Terminal, fifo_size, lsr_empty, has_bits, without}
use node_vmm.Uart.Lines.{is_empty, fifo_enabled, update_interrupt}
use node_vmm.Uart.Receive.{enqueue_rx}
use node_vmm.Uart.Console.{emit_tx, is_prefix, bytes_equal}

-- One byte from the shift register, to the receiver in loopback and else to the console.
unfoldable pub shift_out : ℕ → Uart → Uart
unfolding enqueue_rx emit_tx
shift_out byte u =
    let loaded = record u { tsr = byte } in
    if has_bits u.mcr 0x10
    then (enqueue_rx false (byte ∷ []) loaded).1
    else emit_tx (byte ∷ []) loaded

-- The loop over `tx_fifo_`: each byte leaves the queue before it is sent.
unfoldable pub shift_out_all : List ℕ → Uart → Uart
unfolding shift_out
shift_out_all [] u = u
shift_out_all (byte ∷ bytes) u = shift_out_all bytes (shift_out byte (record u { tx_fifo = bytes }))

unfoldable pub transmitter_empty : Uart → Uart
transmitter_empty u = record u { lsr = bit_or u.lsr lsr_empty; thr_ipending = true }

unfoldable pub transmit_byte : ℕ → Uart → Uart
unfolding shift_out shift_out_all transmitter_empty fifo_enabled
transmit_byte value u =
    let tx : List ℕ =
      if ltb (length u.tx_fifo) fifo_size then u.tx_fifo ++ value ∷ [] else u.tx_fifo in
    transmitter_empty
      (if fifo_enabled u then shift_out_all tx (record u { tx_fifo = tx }) else shift_out value u)

unfoldable pub clear_tx : Uart → Uart
unfolding transmitter_empty
clear_tx u = transmitter_empty (record u { tx_fifo = []; thr = 0; tsr = 0; terminal_query = [] })

-- ESC [ 6 n, the query for the cursor's position.
abbrev pub query : List ℕ
query = 0x1b ∷ 0x5b ∷ 0x36 ∷ 0x6e ∷ []

-- What a complete query does: passed through, or answered from here.
unfoldable pub answer_query : Terminal → Uart → Uart
unfolding enqueue_rx emit_tx
answer_query terminal u =
    if u.dsr_passthrough && terminal.can_passthrough
    then emit_tx u.terminal_query u
    else (enqueue_rx false terminal.cursor_position_report u).1

unfoldable pub handle_tx_byte : Terminal → ℕ → Uart → Uart
unfolding transmit_byte update_interrupt answer_query emit_tx transmitter_empty
handle_tx_byte terminal value u =
    let busy = record u { thr = value; lsr = without u.lsr lsr_empty } in
    let asked = record busy { terminal_query = busy.terminal_query ++ value ∷ [] } in
    let answered = record (answer_query terminal asked) { terminal_query = [] } in
    let flushed = record (emit_tx asked.terminal_query asked) { terminal_query = [] } in
    if has_bits u.mcr 0x10
    then update_interrupt (transmit_byte value busy)
    else if not (is_empty u.terminal_query) || value == 0x1b
    then if is_prefix asked.terminal_query query
      then update_interrupt
          (transmitter_empty (if bytes_equal asked.terminal_query query then answered else asked))
      else update_interrupt (transmitter_empty flushed)
    else update_interrupt (transmit_byte value busy)
