-- ===== src/Uart/Tests.antt =====
-- The port at concrete bytes.
use node_vmm.Prelude.{
  ℕ, ◌-◌, ◌≡◌, refl, arith, min, true, false, List, [], ◌∷◌, ◌++◌, length, take, drop,
}
use node_vmm.Uart.State.{Uart, initial, rx_capacity}
use node_vmm.Uart.Lines.{fifo_enabled}
use node_vmm.Uart.Console.{
  normalize_crlf, halted_text, emit_tx, contains, track_console_markers, track_byte, advance_match,
  retreat, write_stdout,
}
use node_vmm.Uart.Registers.{dlab, read, receive}
use node_vmm.Uart.Queue.{waiting, IsValid}
use node_vmm.Uart.Queue.Receive.{receive_lem}
use node_vmm.Uart.Queue.Read.{front_or_zero, behind, read_lem}
use node_vmm.Uart.Markers.{halted, state_of, text_of, emit_all, concat, contains-emit_all}

abbrev fresh : Uart
fresh = initial 65536 true false

abbrev two : List ℕ
two = 65 ∷ 66 ∷ []

-- FIFO on, three bytes ready.
abbrev loaded : Uart
loaded = record fresh { fcr = 1; lsr = 0x61; rx_fifo = 65 ∷ 66 ∷ 67 ∷ [] }

fresh-IsValid : IsValid fresh
unfolding initial fifo_enabled
fresh-IsValid = ground arith

loaded-IsValid : IsValid loaded
unfolding initial fifo_enabled
loaded-IsValid = ground arith

receive_lem_example :
    let (accepted, u') = receive two fresh in
    (accepted ≡ min (length two) (rx_capacity - length (waiting fresh)))
    × (waiting u' ≡ waiting fresh ++ take accepted two)
    × IsValid u'
receive_lem_example = receive_lem two fresh fresh-IsValid

loaded-dlab : dlab loaded ≡ false
unfolding initial
loaded-dlab = refl

read_lem_example :
    let (value, u') = read 0 loaded in
    (value ≡ front_or_zero (waiting loaded)) × (waiting u' ≡ behind (waiting loaded)) × IsValid u'
read_lem_example = read_lem loaded loaded-IsValid loaded-dlab

-- The text is cut into two chunks.
abbrev chunks : List (List ℕ)
chunks = (120 ∷ []) ∷ text_of halted ∷ []

fresh_state : state_of halted fresh ≡ (0, false)
unfolding initial
fresh_state = refl

chunks_joined : concat chunks ≡ (120 ∷ []) ++ (text_of halted ++ [])
unfolding concat
chunks_joined = refl

contains-emit_all_example : contains (text_of halted) (emit_all chunks fresh) ≡ true
contains-emit_all_example =
    contains-emit_all halted chunks (120 ∷ []) [] fresh fresh_state chunks_joined

-- "rebooeboot: System halted" is taken for the marker, which it does not hold.
abbrev repeated : List ℕ
repeated = take 5 halted_text ++ drop 1 halted_text

repeated_here : contains halted_text (emit_tx repeated fresh) ≡ true
unfolding contains emit_tx track_console_markers track_byte advance_match retreat write_stdout
    initial normalize_crlf
repeated_here = refl

normalize_crlf_here : (normalize_crlf (97 ∷ 10 ∷ 13 ∷ 10 ∷ []) 0).0 ≡ 97 ∷ 13 ∷ 10 ∷ 13 ∷ 10 ∷ []
unfolding normalize_crlf
normalize_crlf_here = refl
