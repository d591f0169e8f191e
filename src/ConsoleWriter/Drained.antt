-- ===== src/ConsoleWriter/Drained.antt =====
-- What `stop` leaves behind.
use node_vmm.Prelude.{
  ℕ, arith, if◌then◌else◌, ◌≡◌, refl, ap, ◌∙◌, sym, Bool, true, List, [], ◌∷◌, ◌++◌, length, take,
  drop,
}
use mathlib.Core.Path.{subst}
use node_vmm.Uart.Lines.{is_empty}
use node_vmm.ConsoleWriter.Scan.{terminal_safe_prefix, has_open_dec_redraw_frame}
use node_vmm.ConsoleWriter.Queue.{
  Console, Turn, leaves, takes, writer_turn, System, Action, writer_takes, writer_writes, stop,
  turned, taken, step, run, chunk_length,
}

take_all : (xs : List ℕ) → take (length xs) xs ≡ xs
take_all [] = refl
take_all (x ∷ xs) = ap (λ l. x ∷ l) (take_all xs)

drop_all : (xs : List ℕ) → drop (length xs) xs ≡ []
drop_all [] = refl
drop_all (x ∷ xs) = drop_all xs

chunk_length_stopping :
    (safe : ℕ) (open_redraw : Bool) (pending : List ℕ)
    → chunk_length true safe open_redraw pending ≡ length pending
chunk_length_stopping safe open_redraw pending = ground arith

-- A writer that is to stop takes all that is pending, whatever stands there, or leaves its loop.
writer_turn_stopping :
    (timed_out : Bool) (observed : ℕ) (c : Console)
    → c.stopping ≡ true
    → writer_turn timed_out observed c
      ≡ (if is_empty c.pending then leaves else takes c.pending (record c { pending = [] }))
unfolding writer_turn
writer_turn_stopping timed_out observed c h =
    rw
      (
        h,
        chunk_length_stopping (terminal_safe_prefix (take observed c.pending))
            (has_open_dec_redraw_frame (take observed c.pending)) c.pending,
        take_all c.pending,
        drop_all c.pending,
      )
      refl

-- The writer thread has written all, and a turn then leaves the loop.
abbrev pub IsDrained : List ℕ → Turn → System → Type 0
IsDrained all next s =
    (s.written ≡ all) × (s.held ≡ []) × (s.console.pending ≡ []) × (next ≡ leaves)

-- The turn of a writer that is to stop, with nothing pending.
idle_turn :
    (t : Bool) (n : ℕ) (c : Console)
    → c.stopping ≡ true
    → c.pending ≡ []
    → writer_turn t n c ≡ leaves
idle_turn t n c h p =
    writer_turn_stopping t n c h
    ∙ ap (λ l. if is_empty l then leaves else takes l (record c { pending = [] })) p

turn_drains :
    (s : System) (t : Bool) (n : ℕ) (t' : Bool) (n' : ℕ) (pending : List ℕ)
    → s.console.stopping ≡ true
    → s.console.pending ≡ pending
    → s.held ≡ []
    → (let drained : System = step writer_writes (turned (writer_turn t n s.console) s) in
        IsDrained (s.written ++ pending) (writer_turn t' n' drained.console) drained)
unfolding step turned
turn_drains s t n t' n' [] h p e =
    rw (idle_turn t n s.console h p)
      (ap (λ l. s.written ++ l) e, refl, p, idle_turn t' n' s.console h p)
turn_drains s t n t' n' (b ∷ pending) h p e =
    let turn : writer_turn t n s.console ≡ takes (b ∷ pending) (record s.console { pending = [] }) =
      writer_turn_stopping t n s.console h
      ∙ ap (λ l. if is_empty l then leaves else takes l (record s.console { pending = [] })) p in
    rw turn (refl, refl, refl, idle_turn t' n' (record s.console { pending = [] }) h refl)

-- The writer thread writes its chunk, takes the next one and writes that too.
abbrev pub drain_actions : Bool → ℕ → List Action
drain_actions timed_out observed =
    writer_writes ∷ writer_takes timed_out observed ∷ writer_writes ∷ []

-- Once `stop` has been called on a writer that is enabled, the writer thread needs one turn, whatever
-- the clock says: it finishes the chunk that it holds, takes all that is pending in a single chunk
-- and writes it, and its next turn leaves the loop. What it hands to the terminal is what it held
-- and then what was pending.
pub run_drains :
    (s : System) (timed_out : Bool) (observed : ℕ) (timed_out' : Bool) (observed' : ℕ)
    → s.console.enabled ≡ true
    → (let drained : System = run (stop ∷ drain_actions timed_out observed) s in
        IsDrained
          (s.written ++ s.held ++ s.console.pending)
          (writer_turn timed_out' observed' drained.console)
          drained)
unfolding run step taken
run_drains s t n t' n' h =
    let stopped : System = record s { console = record s.console { stopping = true } } in
    let stops : step stop s ≡ stopped = ap (λ b. if b then stopped else s) h in
    subst
      (λ r.
        let drained : System = run (drain_actions t n) r in
        IsDrained (s.written ++ s.held ++ s.console.pending) (writer_turn t' n' drained.console)
          drained)
      (sym stops)
      (turn_drains (step writer_writes stopped) t n t' n' s.console.pending refl refl refl)
