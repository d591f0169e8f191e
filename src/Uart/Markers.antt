-- ===== src/Uart/Markers.antt =====
-- The markers of a shutdown in what the guest prints, chunk by chunk.
use mathlib.Core.Path.{subst}
use node_vmm.Prelude.{
  ℕ, zero, suc, ◌-◌, ◌≤◌, ◌≡◌, refl, sym, ap, ◌∙◌, arith, min, take, ltb, if_intro, Bool, true,
  false, if◌then◌else◌, inr, List, [], ◌∷◌, ◌++◌, length,
}
use node_vmm.Uart.State.{Uart}
use node_vmm.Uart.Console.{
  track_console_markers, halted_text, restarting_text, emit_tx, write_stdout, contains,
}
use node_vmm.Uart.Matcher.{Ends, Tracks, track_bytes, track_bytes-append, track_bytes_finds}

pub data Marker : Type 0 where
  halted restarting : Marker

abbrev pub text_of : Marker → List ℕ
text_of halted = halted_text
text_of restarting = restarting_text

-- The length of the match and whether the marker was seen.
abbrev pub state_of : Marker → Uart → ℕ × Bool
state_of halted u = (u.halted_match, u.halted_seen)
state_of restarting u = (u.restarting_match, u.restarting_seen)

state_of-track_console_markers :
    (marker : Marker) (bytes : List ℕ) (u : Uart)
    → state_of marker (track_console_markers bytes u)
      ≡ track_bytes (text_of marker) bytes (state_of marker u)
unfolding track_console_markers track_bytes
state_of-track_console_markers halted [] u = refl
state_of-track_console_markers restarting [] u = refl
state_of-track_console_markers halted (b ∷ bytes) u = state_of-track_console_markers halted bytes _
state_of-track_console_markers restarting (b ∷ bytes) u =
    state_of-track_console_markers restarting bytes _

abbrev SameMarkers : Uart → Uart → Type 0
SameMarkers t u =
    (u.halted_seen ≡ t.halted_seen)
    × (u.halted_match ≡ t.halted_match)
    × (u.restarting_seen ≡ t.restarting_seen)
    × (u.restarting_match ≡ t.restarting_match)

write_stdout-SameMarkers :
    (t u : Uart) (bytes : List ℕ) → SameMarkers t u → SameMarkers t (write_stdout bytes u)
unfolding write_stdout
write_stdout-SameMarkers t u [] s = s
write_stdout-SameMarkers t u (b ∷ bytes) s = s

emit_tx-SameMarkers :
    (bytes : List ℕ) (u : Uart) → SameMarkers (track_console_markers bytes u) (emit_tx bytes u)
unfolding emit_tx
emit_tx-SameMarkers [] u = unfold track_console_markers in (refl, refl, refl, refl)
emit_tx-SameMarkers (b ∷ bytes) u =
    if_intro (SameMarkers t) _ (write_stdout-SameMarkers t _ (b ∷ bytes) logged) logged
  where
    t : Uart
    t = track_console_markers (b ∷ bytes) u

    logged : SameMarkers t (
        let available : ℕ =
          if ltb (length t.console) t.limit then t.limit - length t.console else 0 in
        if ltb 0 available
        then record t {
          console = t.console ++ take (min available (length (b ∷ bytes))) (b ∷ bytes);
        }
        else t)
    logged = if_intro (SameMarkers t) _ (refl, refl, refl, refl) (refl, refl, refl, refl)

-- The port prints chunks, one after the other.
pub emit_all : List (List ℕ) → Uart → Uart
emit_all [] u = u
emit_all (bytes ∷ chunks) u = emit_all chunks (emit_tx bytes u)

unfoldable pub concat : List (List ℕ) → List ℕ
concat [] = []
concat (bytes ∷ chunks) = bytes ++ concat chunks

state_of_same :
    (marker : Marker) (t u : Uart) → SameMarkers t u → state_of marker u ≡ state_of marker t
state_of_same halted t u s = ground arith
state_of_same restarting t u s = ground arith

state_of-emit_all :
    (marker : Marker) (chunks : List (List ℕ)) (u : Uart)
    → state_of marker (emit_all chunks u)
      ≡ track_bytes (text_of marker) (concat chunks) (state_of marker u)
unfolding emit_all concat
state_of-emit_all marker [] u = unfold track_bytes in refl
state_of-emit_all marker (bytes ∷ chunks) u =
    state_of-emit_all marker chunks (emit_tx bytes u)
    ∙ (ap (track_bytes (text_of marker) (concat chunks)) (
          state_of_same marker (track_console_markers bytes u) (emit_tx bytes u)
            (emit_tx-SameMarkers bytes u)
          ∙ state_of-track_console_markers marker bytes u)
        ∙ sym (track_bytes-append (text_of marker) bytes (concat chunks) (state_of marker u)))

contains_marker : (marker : Marker) (u : Uart) → contains (text_of marker) u ≡ (state_of marker u).1
unfolding contains
contains_marker halted u = refl
contains_marker restarting u = refl

Ends-nil : (pattern : List ℕ) (j : ℕ) → Ends pattern j [] → j ≤ 0
Ends-nil pattern zero e = omega arith
Ends-nil pattern (suc j) e = absurd e

fresh-Tracks :
    (marker : Marker) (u : Uart)
    → state_of marker u ≡ (0, false)
    → Tracks (text_of marker) [] (state_of marker u)
fresh-Tracks halted u e =
    subst (Tracks halted_text []) (sym e)
      (inr (refl, omega arith, λ j h ends. Ends-nil halted_text j ends))
fresh-Tracks restarting u e =
    subst (Tracks restarting_text []) (sym e)
      (inr (refl, omega arith, λ j h ends. Ends-nil restarting_text j ends))

-- If a port that has matched nothing yet prints chunks whose bytes, joined, hold the text of a
-- marker anywhere, the marker is found afterwards, whatever the bound on the log cut off.
pub contains-emit_all :
    (marker : Marker) (chunks : List (List ℕ)) (before after : List ℕ) (u : Uart)
    → state_of marker u ≡ (0, false)
    → concat chunks ≡ before ++ (text_of marker ++ after)
    → contains (text_of marker) (emit_all chunks u) ≡ true
contains-emit_all marker chunks before after u fresh e =
    contains_marker marker (emit_all chunks u)
    ∙ (ap (λ (s : ℕ × Bool). s.1) (state_of-emit_all marker chunks u)
        ∙ (ap (λ bytes. (track_bytes (text_of marker) bytes (state_of marker u)).1) e
            ∙ track_bytes_finds (text_of marker) before after [] (state_of marker u)
                (fresh-Tracks marker u fresh)))
