-- ===== src/ConsoleWriter/Order.antt =====
-- The bytes reach the terminal in the order in which they were accepted, where the two threads do
-- not hold chunks at the same time.
use node_vmm.Prelude.{
  ℕ, ◌&&◌, ◌≡◌, refl, ap, ◌∙◌, append_assoc, append-nil, sym, Option, none, some, List, [], ◌∷◌,
  ◌++◌, inl, inr, ◌⊎◌, if_intro,
}
use node_vmm.Uart.Lines.{is_empty}
use node_vmm.ConsoleWriter.Queue.{
  Begun, blocked, refused, queued, flushing, begin_write, Turn, waits, leaves, takes, writer_turn,
  System, Action, write, flush_pending, finish_flush, writer_takes, writer_writes, stop,
  finish_stop, started, turned, called, finished, taken, end_flush, step, run, is_closed,
}
use node_vmm.ConsoleWriter.Chunks.{Begins, begin_write-Begins, Turns, writer_turn-Turns}

-- The bytes that the caller holds.
abbrev pub flushed : Option (List ℕ × List ℕ) → List ℕ
flushed none = []
flushed (some (chunk, bytes)) = chunk

-- What has been accepted is what was written, what a thread holds, and what is pending.
abbrev pub InOrder : System → Type 0
InOrder s = s.accepted ≡ s.written ++ (s.held ++ (flushed s.flush ++ s.console.pending))

-- One of the threads at most holds a chunk.
abbrev pub Apart : System → Type 0
Apart s = (s.held ≡ []) ⊎ (flushed s.flush ≡ [])

append_behind :
    (w h f p bytes : List ℕ) → w ++ (h ++ (f ++ p)) ++ bytes ≡ w ++ (h ++ (f ++ (p ++ bytes)))
append_behind w h f p bytes = simp append_assoc

started-InOrder :
    (b : Begun) (bytes : List ℕ) (s : System)
    → Begins bytes s.console b
    → s.flush ≡ none
    → InOrder s
    → InOrder (started b bytes s)
unfolding started
started-InOrder blocked bytes s b n h = h
started-InOrder refused bytes s b n h = h
started-InOrder (queued c) bytes s e n h =
    ap (λ l. l ++ bytes) h
    ∙ append_behind s.written s.held (flushed s.flush) s.console.pending bytes
    ∙ ap (λ p. s.written ++ (s.held ++ (flushed s.flush ++ p))) (sym e)
started-InOrder (flushing chunk c) bytes s (e, z) n h = h ∙ simp (n, e, z, append-nil)

turned-InOrder :
    (t : Turn) (s : System)
    → Turns s.console t
    → s.held ≡ []
    → InOrder s
    → Apart (turned t s)
    → InOrder (turned t s)
unfolding turned
turned-InOrder waits s t e h a = h
turned-InOrder leaves s t e h a = h
turned-InOrder (takes chunk c) s t e h (inl none_held) = h ∙ simp (e, sym t, none_held)
turned-InOrder (takes chunk c) s t e h (inr none_flushed) = h ∙ simp (e, sym t, none_flushed)

-- The caller's chunk is written before that of the writer thread, one of which is empty.
finished_order :
    (w h f p : List ℕ) → (h ≡ []) ⊎ (f ≡ []) → w ++ (h ++ (f ++ p)) ≡ (w ++ f) ++ (h ++ p)
finished_order w h f p (inl e) = simp (e, append_assoc)
finished_order w h f p (inr e) = simp (e, append-nil)

end_flush-InOrder :
    (chunk bytes : List ℕ) (s : System)
    → s.flush ≡ some (chunk, bytes)
    → Apart s
    → InOrder s
    → InOrder (end_flush chunk bytes s)
unfolding end_flush
end_flush-InOrder chunk bytes s n a h =
    let moved : InOrder (record s { flush = none; written = s.written ++ chunk }) =
      h
      ∙ finished_order s.written s.held (flushed s.flush) s.console.pending a
      ∙ ap (λ f. (s.written ++ flushed f) ++ (s.held ++ s.console.pending)) n in
    if_intro InOrder (is_closed s.console) moved (
      ap (λ l. l ++ bytes) moved
      ∙ append_behind (s.written ++ chunk) s.held [] s.console.pending bytes)

called-InOrder :
    (p : Option (List ℕ × List ℕ)) (next s : System)
    → (p ≡ none → InOrder next)
    → InOrder s
    → InOrder (called p next s)
unfolding called
called-InOrder none next s n h = n refl
called-InOrder (some p) next s n h = h

finished-InOrder :
    (p : Option (List ℕ × List ℕ)) (s : System)
    → s.flush ≡ p
    → Apart s
    → InOrder s
    → InOrder (finished p s)
unfolding finished
finished-InOrder none s e a h = h
finished-InOrder (some (chunk, bytes)) s e a h = end_flush-InOrder chunk bytes s e a h

taken-InOrder :
    (held : List ℕ) (next s : System)
    → (held ≡ [] → Apart next → InOrder next)
    → InOrder s
    → Apart (taken held next s)
    → InOrder (taken held next s)
unfolding taken
taken-InOrder [] next s n h a = n refl a
taken-InOrder (b ∷ held) next s n h a = h

step-InOrder :
    (a : Action) (s : System) → Apart s → InOrder s → Apart (step a s) → InOrder (step a s)
unfolding step
step-InOrder (write bytes) s a h l =
    called-InOrder s.flush (started (begin_write bytes s.console) bytes s) s
      (λ e.
        started-InOrder (begin_write bytes s.console) bytes s (begin_write-Begins bytes s.console) e
          h)
      h
step-InOrder flush_pending s a h l =
    called-InOrder s.flush
      (record s {
        console = record s.console { pending = [] };
        flush = some (s.console.pending, []);
      })
      s (λ e. h ∙ simp (e, append-nil)) h
step-InOrder finish_flush s a h l = finished-InOrder s.flush s refl a h
step-InOrder (writer_takes timed_out observed) s a h l =
    taken-InOrder s.held (turned (writer_turn timed_out observed s.console) s) s
      (λ e l'.
        turned-InOrder (writer_turn timed_out observed s.console) s
          (writer_turn-Turns timed_out observed s.console) e h l')
      h l
step-InOrder writer_writes s a h l =
    h ∙ sym (append_assoc s.written s.held (flushed s.flush ++ s.console.pending))
step-InOrder stop s a h l = if_intro InOrder s.console.enabled h h
step-InOrder finish_stop s a h l =
    if_intro InOrder (s.console.stopping && is_empty s.console.pending && is_empty s.held) h h

-- At no step does each of the threads hold a chunk.
unfoldable pub NeverOverlaps : List Action → System → Type 0
NeverOverlaps [] s = Unit {0}
NeverOverlaps (a ∷ actions) s = Apart (step a s) × NeverOverlaps actions (step a s)

-- Where the caller and the writer thread never hold a chunk at the same time, the bytes that were
-- accepted are, in that order, those handed to the terminal, those that a thread holds and those
-- that are pending, after each sequence of steps.
pub run-InOrder :
    (actions : List Action) (s : System)
    → Apart s
    → NeverOverlaps actions s
    → InOrder s
    → InOrder (run actions s)
unfolding run NeverOverlaps
run-InOrder [] s a never h = h
run-InOrder (action ∷ actions) s a (l, never) h =
    run-InOrder actions (step action s) l never (step-InOrder action s a h l)
