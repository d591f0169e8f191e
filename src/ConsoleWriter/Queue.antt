-- ===== src/ConsoleWriter/Queue.antt =====
-- The pending bytes between the caller of `write` and the thread of `writer_loop`. A step is what a
-- thread does while it holds the lock `mu_`, or one call of `write_file`, whose log is in order of
-- the lock `file_mu_`. One thread calls `write` and `flush_pending`.
use node_vmm.Prelude.{
  ℕ, ◌+◌, ◌*◌, Bool, true, false, not, ◌&&◌, ◌||◌, ltb, leb, ◌==◌, if◌then◌else◌, Option, none,
  some, List, [], ◌∷◌, ◌++◌, length, take, drop,
}
use node_vmm.Uart.Lines.{is_empty}
use node_vmm.ConsoleWriter.Scan.{terminal_safe_prefix, has_open_dec_redraw_frame}

abbrev pub flush_threshold : ℕ
flush_threshold = 16 * 1024

abbrev pub backpressure_bytes : ℕ
backpressure_bytes = 64 * 1024

abbrev pub max_pending_bytes : ℕ
max_pending_bytes = 256 * 1024

pub record Console : Type 0 where
  pub enabled : Bool
  pub stopping : Bool
  pub pending : List ℕ

unfoldable pub backed_up : Console → Bool
backed_up c = leb backpressure_bytes (length c.pending)

-- What `write` does up to the place where it gives the lock away.
pub data Begun : Type 0 where
  blocked refused : Begun
  queued : Console → Begun
  flushing : List ℕ → Console → Begun

abbrev pub is_closed : Console → Bool
is_closed c = not c.enabled || c.stopping

unfoldable pub begin_write : List ℕ → Console → Begun
begin_write bytes c =
    if is_empty bytes
    then refused
    else if not (is_closed c || ltb (length c.pending) max_pending_bytes)
    then blocked
    else if is_closed c
    then refused
    else if ltb max_pending_bytes (length c.pending + length bytes)
    then flushing c.pending (record c { pending = [] })
    else queued (record c { pending = c.pending ++ bytes })

-- What the thread of the writer does once it has the lock.
pub data Turn : Type 0 where
  waits leaves : Turn
  takes : List ℕ → Console → Turn

-- How many bytes are taken, where `safe` of them are a safe prefix.
abbrev pub chunk_length : Bool → ℕ → Bool → List ℕ → ℕ
chunk_length stopping safe open_redraw pending =
    if safe == 0 || open_redraw || leb flush_threshold (length pending) || stopping
    then length pending
    else safe

-- The loop waits on while the pending bytes could become a longer chunk. A wait that has timed out
-- ends it, except in a frame that is still open.
abbrev pub waits_on : Bool → Bool → ℕ → Bool → List ℕ → Bool
waits_on timed_out stopping safe open_redraw pending =
    (not stopping && ltb (length pending) flush_threshold)
    && (open_redraw || (safe == 0 && not timed_out))

-- The first `observed` of the pending bytes were there when the thread looked at them.
unfoldable pub writer_turn : Bool → ℕ → Console → Turn
unfolding terminal_safe_prefix has_open_dec_redraw_frame
writer_turn timed_out observed c =
    let seen : List ℕ = take observed c.pending in
    let safe : ℕ = terminal_safe_prefix seen in
    let open_redraw : Bool = has_open_dec_redraw_frame seen in
    let n : ℕ = chunk_length c.stopping safe open_redraw c.pending in
    if is_empty c.pending
    then if c.stopping then leaves else waits
    else if waits_on timed_out c.stopping safe open_redraw c.pending
    then waits
    else takes (take n c.pending) (record c { pending = drop n c.pending })

-- The writer thread holds `held`; the caller holds a chunk that it flushes, and the bytes that it is
-- to append then. `accepted` are the bytes appended to the pending ones, `written` those that have
-- been handed to `write_file`.
pub record System : Type 0 where
  pub console : Console
  pub held : List ℕ
  pub flush : Option (List ℕ × List ℕ)
  pub accepted : List ℕ
  pub written : List ℕ

pub data Action : Type 0 where
  write : List ℕ → Action
  flush_pending finish_flush : Action
  writer_takes : Bool → ℕ → Action
  writer_writes stop finish_stop : Action

unfoldable pub started : Begun → List ℕ → System → System
started blocked bytes s = s
started refused bytes s = s
started (queued c) bytes s = record s { console = c; accepted = s.accepted ++ bytes }
started (flushing chunk c) bytes s = record s { console = c; flush = some (chunk, bytes) }

unfoldable pub turned : Turn → System → System
turned waits s = s
turned leaves s = s
turned (takes chunk c) s = record s { console = c; held = chunk }

-- The caller has the lock again.
unfoldable pub end_flush : List ℕ → List ℕ → System → System
end_flush chunk bytes s =
    let c : Console = s.console in
    let flushed : System = record s { flush = none; written = s.written ++ chunk } in
    if is_closed c then flushed else record flushed {
      console = record c { pending = c.pending ++ bytes };
      accepted = s.accepted ++ bytes;
    }

-- The caller can make a call where it is in none.
unfoldable pub called : Option (List ℕ × List ℕ) → System → System → System
called none next s = next
called (some p) next s = s

unfoldable pub finished : Option (List ℕ × List ℕ) → System → System
unfolding end_flush
finished none s = s
finished (some (chunk, bytes)) s = end_flush chunk bytes s

-- The writer thread takes a chunk where it holds none.
unfoldable pub taken : List ℕ → System → System → System
taken [] next s = next
taken (b ∷ held) next s = s

-- A step of one of the threads. One that is not possible changes nothing.
unfoldable pub step : Action → System → System
unfolding begin_write writer_turn started turned called finished taken
step (write bytes) s = called s.flush (started (begin_write bytes s.console) bytes s) s
step flush_pending s =
    called s.flush
      (record s {
        console = record s.console { pending = [] };
        flush = some (s.console.pending, []);
      })
      s
step finish_flush s = finished s.flush s
step (writer_takes timed_out observed) s =
    taken s.held (turned (writer_turn timed_out observed s.console) s) s
step writer_writes s = record s { held = []; written = s.written ++ s.held }
step stop s =
    if s.console.enabled then record s { console = record s.console { stopping = true } } else s
step finish_stop s =
    if s.console.stopping && is_empty s.console.pending && is_empty s.held
    then record s { console = record s.console { enabled = false } }
    else s

unfoldable pub run : List Action → System → System
unfolding step
run [] s = s
run (a ∷ actions) s = run actions (step a s)
