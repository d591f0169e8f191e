-- ===== src/ConsoleWriter/Scan.antt =====
-- Where the pending bytes may be cut: `terminal_safe_prefix` and `has_open_dec_redraw_frame`.
use node_vmm.Prelude.{
  ℕ, zero, suc, ◌+◌, Bool, true, false, ◌&&◌, ◌||◌, leb, ◌==◌, ◌!=◌, if◌then◌else◌, Option, none,
  some, List, [], ◌∷◌, length,
}

pub data ParseState : Type 0 where
  normal esc csi osc : ParseState

abbrev pub escape : ℕ
escape = 0x1b

abbrev pub bell : ℕ
bell = 0x07

abbrev pub is_csi_final : ℕ → Bool
is_csi_final byte = leb 0x40 byte && leb byte 0x7e

-- The state of the parser with `osc_esc`, and whether the byte ends a safe prefix.
abbrev pub Parsed : Type 0
Parsed = ParseState × Bool × Bool

-- A round of the loop.
unfoldable pub parse : ParseState → Bool → ℕ → Parsed
parse normal osc_esc byte =
    if byte == escape
    then (esc, osc_esc, false)
    else (normal, osc_esc, byte == b'\n' || byte == bell)
parse esc osc_esc byte =
    if byte == b'['
    then (csi, osc_esc, false)
    else if byte == b']'
    then (osc, false, false)
    else (normal, osc_esc, true)
parse csi osc_esc byte =
    if is_csi_final byte then (normal, osc_esc, true) else (csi, osc_esc, false)
parse osc osc_esc byte =
    if byte == bell || (osc_esc && byte == b'\\')
    then (normal, false, true)
    else (osc, byte == escape, false)

-- The loop from index `i` on.
unfoldable pub scan : ParseState → Bool → ℕ → ℕ → List ℕ → ℕ
scan state osc_esc i safe [] = safe
scan state osc_esc i safe (byte ∷ bytes) =
    let (state', osc_esc', ends) = parse state osc_esc byte in
    scan state' osc_esc' (i + 1) (if ends then i + 1 else safe) bytes

unfoldable pub terminal_safe_prefix : List ℕ → ℕ
unfolding scan parse
terminal_safe_prefix bytes = scan normal false 0 0 bytes

-- What stands before the first ESC 8, and what after it.
unfoldable pub find_restore : List ℕ → Option (List ℕ × List ℕ)
find_restore [] = none
find_restore (b ∷ []) = none
find_restore (b ∷ c ∷ rest) =
    let later : Option (List ℕ × List ℕ) = find_restore (c ∷ rest) in
    if b == escape && c == b'8'
    then some ([], rest)
    else elim later [ none ↦ none | some (payload, after) ↦ some (b ∷ payload, after) ]

-- The parameters up to the final byte, that byte, and what follows.
unfoldable pub find_final : List ℕ → Option (List ℕ × ℕ × List ℕ)
find_final [] = none
find_final (b ∷ rest) =
    let later : Option (List ℕ × ℕ × List ℕ) = find_final rest in
    if is_csi_final b
    then some ([], b, rest)
    else elim later [ none ↦ none | some (params, final, after) ↦ some (b ∷ params, final, after) ]

-- No parameter, or the parameter 0.
abbrev pub is_empty_or_zero : List ℕ → Bool
is_empty_or_zero [] = true
is_empty_or_zero (b ∷ []) = b == b'0'
is_empty_or_zero (b ∷ c ∷ rest) = false

-- CSI K to the end of the line.
abbrev pub clears : List ℕ → ℕ → Bool
clears params final = final == b'K' && is_empty_or_zero params

-- What the loop finds behind ESC 8: the frame is open, it is closed, or it is no frame.
pub data Frame : Type 0 where
  open_frame closed_frame no_frame : Frame

unfoldable pub frame_end : List ℕ → Frame
unfolding find_final
frame_end [] = open_frame
frame_end (d ∷ []) = if d != escape then no_frame else open_frame
frame_end (d ∷ e ∷ rest) = if d != escape || e != b'[' then no_frame else elim (find_final rest) [
  | none ↦ open_frame
  | some (params, final, after) ↦ if clears params final then closed_frame else no_frame
]

-- The loop, at most `fuel` rounds of it.
unfoldable pub has_open_frame : ℕ → List ℕ → Bool
unfolding frame_end find_restore
has_open_frame zero bytes = false
has_open_frame (suc fuel) [] = false
has_open_frame (suc fuel) (b ∷ []) = false
has_open_frame (suc fuel) (b ∷ c ∷ rest) = elim (b == escape && c == b'7') [
  | false ↦ has_open_frame fuel (c ∷ rest)
  | true ↦ elim (find_restore rest) [
    | none ↦ true
    | some (payload, after) ↦ elim (frame_end after) [
      | open_frame ↦ true
      | closed_frame ↦ false
      | no_frame ↦ has_open_frame fuel after
    ]
  ]
]

-- Each round takes a byte at least.
unfoldable pub has_open_dec_redraw_frame : List ℕ → Bool
unfolding has_open_frame
has_open_dec_redraw_frame bytes = has_open_frame (length bytes) bytes
