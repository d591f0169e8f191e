-- ===== src/ConsoleWriter/Tests.antt =====
-- The terminal's bytes at concrete inputs, and the theorems applied there.
use node_vmm.Prelude.{
  arith, ℕ, ◌≤◌, ◌≡◌, refl, true, false, inl, inr, none, List, [], ◌∷◌, ◌++◌, length, take,
}
use node_vmm.Uart.Console.{codes}
use node_vmm.ConsoleWriter.Scan.{escape, terminal_safe_prefix, has_open_dec_redraw_frame}
use node_vmm.ConsoleWriter.Normalize.{no_flags, has_control_byte, normalize_host_terminal_bytes}
use node_vmm.ConsoleWriter.Queue.{
  System, Action, write, flush_pending, finish_flush, writer_takes, writer_writes, stop,
  writer_turn, step, run,
}
use node_vmm.ConsoleWriter.Order.{InOrder, NeverOverlaps, run-InOrder}
use node_vmm.ConsoleWriter.Conserved.{occurrences, IsConserved, run-IsConserved}
use node_vmm.ConsoleWriter.Drained.{IsDrained, drain_actions, run_drains}
use node_vmm.ConsoleWriter.SafePrefix.{Closes, in_text, terminal_safe_prefix-Closes}
use node_vmm.ConsoleWriter.Frames.{
  EndsVisibly, line_again, redraw_sequence, after_text, normalize-redraw_sequence,
}

-- A coloured word, and a sequence that is cut after its first parameter.
abbrev cut_colour : List ℕ
cut_colour = (escape ∷ codes "[1mab") ++ escape ∷ codes "[3"

cut_colour_prefix : terminal_safe_prefix cut_colour ≡ 4
unfolding terminal_safe_prefix
cut_colour_prefix = refl

terminal_safe_prefix-Closes_example :
    (terminal_safe_prefix cut_colour ≤ length cut_colour)
    × Closes in_text (take (terminal_safe_prefix cut_colour) cut_colour)
terminal_safe_prefix-Closes_example = terminal_safe_prefix-Closes cut_colour

-- The progress line of apk, and the text behind it.
abbrev progress : List ℕ
progress = redraw_sequence (codes " 42%  ") (codes "0") (0x0d ∷ codes "ok")

progress_out : normalize_host_terminal_bytes progress no_flags ≡ (
  (escape ∷ codes "[?25l")
      ++ (0x0d ∷ escape ∷ codes "[2K 42%")
      ++ (0x0d ∷ escape ∷ codes "[?25hok"),
  no_flags,
)
unfolding normalize_host_terminal_bytes
progress_out = refl

progress_has_no_control_byte : has_control_byte (codes " 42%  ") ≡ false
unfolding has_control_byte
progress_has_no_control_byte = refl

progress_is_visible : EndsVisibly (codes " 42%")
progress_is_visible = (ground arith, ground arith)

normalize-redraw_sequence_example :
    normalize_host_terminal_bytes progress no_flags
    ≡ after_text (line_again (codes " 42%")) (
        normalize_host_terminal_bytes
          (codes "ok")
          (record no_flags { swallow_cr = false; restore_pending = false }))
normalize-redraw_sequence_example =
    normalize-redraw_sequence (codes " 42%") (codes "  ") (codes "0") (0x0d ∷ codes "ok") no_flags
      progress_is_visible (inl refl, (inl refl, tt)) progress_has_no_control_byte refl refl

-- A frame that is closed hides one behind it that is open.
abbrev two_frames : List ℕ
two_frames = redraw_sequence (codes "1%") [] (escape ∷ codes "72%")

open_frame_hidden : has_open_dec_redraw_frame two_frames ≡ false
unfolding has_open_dec_redraw_frame
open_frame_hidden = refl

open_frame_alone : has_open_dec_redraw_frame (escape ∷ codes "72%") ≡ true
unfolding has_open_dec_redraw_frame
open_frame_alone = refl

-- A writer before its first byte.
abbrev fresh : System
fresh = record {
  console = record { enabled = true; stopping = false; pending = [] };
  held = [];
  flush = none;
  accepted = [];
  written = [];
}

-- One chunk goes through the writer thread, and one through a flush.
abbrev in_turn : List Action
in_turn =
    write (codes "ab")
    ∷ writer_takes true 2
    ∷ writer_writes
    ∷ write (codes "c")
    ∷ flush_pending
    ∷ finish_flush
    ∷ []

in_turn-NeverOverlaps : NeverOverlaps in_turn fresh
unfolding NeverOverlaps step
in_turn-NeverOverlaps = (inl refl, (inr refl, (inl refl, (inl refl, (inl refl, (inl refl, tt))))))

run-InOrder_example : InOrder (run in_turn fresh)
run-InOrder_example = run-InOrder in_turn fresh (inl refl) in_turn-NeverOverlaps refl

-- The caller flushes while the writer thread holds a chunk that it has not written yet.
abbrev overlapping : List Action
overlapping =
    write (codes "a")
    ∷ writer_takes true 1
    ∷ write (codes "b")
    ∷ flush_pending
    ∷ finish_flush
    ∷ writer_writes
    ∷ []

overlapping_written : (run overlapping fresh).written ≡ codes "ba"
unfolding run step
overlapping_written = refl

fresh-IsConserved : IsConserved (b'a') fresh
unfolding occurrences
fresh-IsConserved = refl

run-IsConserved_example : IsConserved (b'a') (run overlapping fresh)
run-IsConserved_example = run-IsConserved (b'a') overlapping fresh fresh-IsConserved

-- A writer that holds a byte while half a sequence is pending.
abbrev busy : System
busy = record fresh {
  console = record { enabled = true; stopping = false; pending = escape ∷ codes "[3" };
  held = codes "x";
  accepted = codes "x" ++ escape ∷ codes "[3";
}

run_drains_example :
    let drained : System = run (stop ∷ drain_actions false 3) busy in
    IsDrained (codes "x" ++ escape ∷ codes "[3") (writer_turn true 0 drained.console) drained
run_drains_example = run_drains busy false 3 true 0 refl
