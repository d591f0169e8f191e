-- ===== src/ConsoleWriter/Conserved.antt =====
-- No byte is lost or written twice, in whatever order the threads take their steps.
use node_vmm.Prelude.{
  ℕ, suc, arith, ◌==◌, if◌then◌else◌, ◌&&◌, ◌+◌, ◌≡◌, refl, ap, ◌∙◌, sym, Option, none, some, List,
  [], ◌∷◌, ◌++◌, if_intro,
}
use node_vmm.Uart.Lines.{is_empty}
use node_vmm.ConsoleWriter.Queue.{
  Begun, blocked, refused, queued, flushing, begin_write, Turn, waits, leaves, takes, writer_turn,
  System, Action, write, flush_pending, finish_flush, writer_takes, writer_writes, stop,
  finish_stop, started, turned, called, finished, taken, end_flush, step, run, is_closed,
}
use node_vmm.ConsoleWriter.Chunks.{Begins, begin_write-Begins, Turns, writer_turn-Turns}
use node_vmm.ConsoleWriter.Order.{flushed}

-- How often a byte occurs.
unfoldable pub occurrences : ℕ → List ℕ → ℕ
occurrences b [] = 0
occurrences b (c ∷ rest) = if b == c then suc (occurrences b rest) else occurrences b rest

occurrences-append :
    (b : ℕ) (xs ys : List ℕ) → occurrences b (xs ++ ys) ≡ occurrences b xs + occurrences b ys
unfolding occurrences
occurrences-append b [] ys = omega arith
occurrences-append b (c ∷ rest) ys = let ih = occurrences-append b rest ys in ground (arith, ih)

-- Each byte was accepted as often as it is written, held by a thread or pending.
abbrev pub IsConserved : ℕ → System → Type 0
IsConserved b s =
    occurrences b s.accepted
    ≡ occurrences b s.written
      + occurrences b s.held
      + occurrences b (flushed s.flush)
      + occurrences b s.console.pending

started-IsConserved :
    (x : ℕ) (b : Begun) (bytes : List ℕ) (s : System)
    → Begins bytes s.console b
    → s.flush ≡ none
    → IsConserved x s
    → IsConserved x (started b bytes s)
unfolding started occurrences
started-IsConserved x blocked bytes s b n h = h
started-IsConserved x refused bytes s b n h = h
started-IsConserved x (queued c) bytes s e n h = rw e (
    omega (
      arith,
      h,
      occurrences-append x s.accepted bytes,
      occurrences-append x s.console.pending bytes,
    ))
started-IsConserved x (flushing chunk c) bytes s (e, z) n h =
    let none_flushed : occurrences x (flushed s.flush) ≡ 0 =
      ap (λ f. occurrences x (flushed f)) n in
    rw (e, z) (omega (arith, h, none_flushed))

turned-IsConserved :
    (x : ℕ) (t : Turn) (s : System)
    → Turns s.console t
    → s.held ≡ []
    → IsConserved x s
    → IsConserved x (turned t s)
unfolding turned occurrences
turned-IsConserved x waits s t e h = h
turned-IsConserved x leaves s t e h = h
turned-IsConserved x (takes chunk c) s t e h =
    let none_held : occurrences x s.held ≡ 0 = ap (occurrences x) e in
    let split : occurrences x chunk + occurrences x c.pending ≡ occurrences x s.console.pending =
      sym (occurrences-append x chunk c.pending) ∙ ap (occurrences x) t in
    omega (arith, h, none_held, split)

end_flush-IsConserved :
    (x : ℕ) (chunk bytes : List ℕ) (s : System)
    → s.flush ≡ some (chunk, bytes)
    → IsConserved x s
    → IsConserved x (end_flush chunk bytes s)
unfolding end_flush occurrences
end_flush-IsConserved x chunk bytes s e h =
    let is_chunk : occurrences x (flushed s.flush) ≡ occurrences x chunk =
      ap (λ f. occurrences x (flushed f)) e in
    let out = occurrences-append x s.written chunk in
    if_intro (IsConserved x) (is_closed s.console) (omega (arith, h, is_chunk, out)) (
      omega (
        arith,
        h,
        is_chunk,
        out,
        occurrences-append x s.accepted bytes,
        occurrences-append x s.console.pending bytes,
      ))

called-IsConserved :
    (x : ℕ) (p : Option (List ℕ × List ℕ)) (next s : System)
    → (p ≡ none → IsConserved x next)
    → IsConserved x s
    → IsConserved x (called p next s)
unfolding called
called-IsConserved x none next s n h = n refl
called-IsConserved x (some p) next s n h = h

finished-IsConserved :
    (x : ℕ) (p : Option (List ℕ × List ℕ)) (s : System)
    → s.flush ≡ p
    → IsConserved x s
    → IsConserved x (finished p s)
unfolding finished
finished-IsConserved x none s e h = h
finished-IsConserved x (some (chunk, bytes)) s e h = end_flush-IsConserved x chunk bytes s e h

taken-IsConserved :
    (x : ℕ) (held : List ℕ) (next s : System)
    → (held ≡ [] → IsConserved x next)
    → IsConserved x s
    → IsConserved x (taken held next s)
unfolding taken
taken-IsConserved x [] next s n h = n refl
taken-IsConserved x (b ∷ held) next s n h = h

step-IsConserved : (x : ℕ) (a : Action) (s : System) → IsConserved x s → IsConserved x (step a s)
unfolding step occurrences
step-IsConserved x (write bytes) s h =
    called-IsConserved x s.flush (started (begin_write bytes s.console) bytes s) s
      (λ e.
        started-IsConserved x (begin_write bytes s.console) bytes s
          (begin_write-Begins bytes s.console) e h)
      h
step-IsConserved x flush_pending s h =
    called-IsConserved x s.flush
      (record s {
        console = record s.console { pending = [] };
        flush = some (s.console.pending, []);
      })
      s
      (λ e.
        started-IsConserved x (flushing s.console.pending (record s.console { pending = [] })) [] s
          (refl, refl) e h)
      h
step-IsConserved x finish_flush s h = finished-IsConserved x s.flush s refl h
step-IsConserved x (writer_takes timed_out observed) s h =
    taken-IsConserved x s.held (turned (writer_turn timed_out observed s.console) s) s
      (λ e.
        turned-IsConserved x (writer_turn timed_out observed s.console) s
          (writer_turn-Turns timed_out observed s.console) e h)
      h
step-IsConserved x writer_writes s h = omega (arith, h, occurrences-append x s.written s.held)
step-IsConserved x stop s h = if_intro (IsConserved x) s.console.enabled h h
step-IsConserved x finish_stop s h =
    if_intro (IsConserved x) (s.console.stopping && is_empty s.console.pending && is_empty s.held) h
      h

-- However the steps of the threads are interleaved, with overflowing writes, flushes and a stop
-- among them, each byte has been accepted just as often as it is handed to the terminal, held by a
-- thread or pending.
pub run-IsConserved :
    (x : ℕ) (actions : List Action) (s : System) → IsConserved x s → IsConserved x (run actions s)
unfolding run
run-IsConserved x [] s h = h
run-IsConserved x (a ∷ actions) s h =
    run-IsConserved x actions (step a s) (step-IsConserved x a s h)
