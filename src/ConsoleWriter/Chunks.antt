-- ===== src/ConsoleWriter/Chunks.antt =====
-- What `write` and the writer thread do to the pending bytes.
use node_vmm.Prelude.{
  ℕ, zero, suc, ltb, not, ◌||◌, ◌+◌, ◌≡◌, refl, ap, Bool, List, [], ◌∷◌, ◌++◌, length, take, drop,
  if_intro,
}
use node_vmm.Uart.Lines.{is_empty}
use node_vmm.ConsoleWriter.Scan.{terminal_safe_prefix, has_open_dec_redraw_frame}
use node_vmm.ConsoleWriter.Queue.{
  Console, Begun, blocked, refused, queued, flushing, begin_write, Turn, waits, leaves, takes,
  writer_turn, is_closed, max_pending_bytes, waits_on, chunk_length,
}

pub take-drop : (n : ℕ) (xs : List ℕ) → take n xs ++ drop n xs ≡ xs
take-drop zero xs = refl
take-drop (suc n) [] = refl
take-drop (suc n) (x ∷ xs) = ap (λ l. x ∷ l) (take-drop n xs)

abbrev pub Begins : List ℕ → Console → Begun → Type 0
Begins bytes c blocked = Unit {0}
Begins bytes c refused = Unit {0}
Begins bytes c (queued c') = c'.pending ≡ c.pending ++ bytes
Begins bytes c (flushing chunk c') = (chunk ≡ c.pending) × (c'.pending ≡ [])

pub begin_write-Begins : (bytes : List ℕ) (c : Console) → Begins bytes c (begin_write bytes c)
unfolding begin_write
begin_write-Begins bytes c = if_intro (Begins bytes c) (is_empty bytes) tt (
    if_intro (Begins bytes c) (not (is_closed c || ltb (length c.pending) max_pending_bytes)) tt (
      if_intro (Begins bytes c) (is_closed c) tt (
        if_intro (Begins bytes c) (ltb max_pending_bytes (length c.pending + length bytes))
          (refl, refl) refl)))

abbrev pub Turns : Console → Turn → Type 0
Turns c waits = Unit {0}
Turns c leaves = Unit {0}
Turns c (takes chunk c') = chunk ++ c'.pending ≡ c.pending

pub writer_turn-Turns :
    (timed_out : Bool) (observed : ℕ) (c : Console) → Turns c (writer_turn timed_out observed c)
unfolding writer_turn
writer_turn-Turns timed_out observed c =
    let seen : List ℕ = take observed c.pending in
    let safe : ℕ = terminal_safe_prefix seen in
    let open_redraw : Bool = has_open_dec_redraw_frame seen in
    let n : ℕ = chunk_length c.stopping safe open_redraw c.pending in
    if_intro (Turns c) (is_empty c.pending) (if_intro (Turns c) c.stopping tt tt) (
      if_intro (Turns c) (waits_on timed_out c.stopping safe open_redraw c.pending) tt
        (take-drop n c.pending))
