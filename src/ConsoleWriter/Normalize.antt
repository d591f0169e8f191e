-- ===== src/ConsoleWriter/Normalize.antt =====
-- What is written in place of the bytes of the guest: `normalize_host_terminal_bytes_impl`.
use node_vmm.Prelude.{
  ℕ, zero, suc, ◌+◌, Bool, true, false, ◌&&◌, ◌||◌, ltb, leb, ◌==◌, if◌then◌else◌, Option, none,
  some, List, [], ◌∷◌, ◌++◌, length,
}
use node_vmm.Uart.Console.{codes}
use node_vmm.ConsoleWriter.Scan.{escape, find_restore, find_final, clears}

-- The flags that the writer keeps between two calls.
pub record Flags : Type 0 where
  pub restore_pending : Bool
  pub swallow_clear : Bool
  pub swallow_cr : Bool

abbrev pub no_flags : Flags
no_flags = record { restore_pending = false; swallow_clear = false; swallow_cr = false }

unfoldable pub has_control_byte : List ℕ → Bool
has_control_byte [] = false
has_control_byte (b ∷ rest) = ltb b 0x20 || b == 0x7f || has_control_byte rest

abbrev pub is_blank : ℕ → Bool
is_blank b = b == b' ' || b == b'\t'

unfoldable pub trim_right_spaces : List ℕ → List ℕ
trim_right_spaces [] = []
trim_right_spaces (b ∷ rest) = elim (trim_right_spaces rest) [
  | [] ↦ if is_blank b then [] else b ∷ []
  | c ∷ kept ↦ b ∷ c ∷ kept
]

abbrev pub is_digit : ℕ → Bool
is_digit b = leb b'0' b && leb b b'9'

-- After `digits` digits, `left` more of which are taken.
unfoldable pub is_percentage : ℕ → ℕ → List ℕ → Bool
is_percentage left digits [] = false
is_percentage zero digits (b ∷ rest) = ltb 0 digits && b == b'%'
is_percentage (suc left) digits (b ∷ rest) =
    let more : Bool = is_percentage left (digits + 1) rest in
    if is_digit b then more else ltb 0 digits && b == b'%'

unfoldable pub looks_like_progress : List ℕ → Bool
unfolding is_percentage
looks_like_progress [] = false
looks_like_progress (b ∷ rest) =
    let later : Bool = looks_like_progress rest in
    if b == b' ' then later else is_percentage 3 0 (b ∷ rest)

-- ESC [, the parameters and the final byte.
unfoldable pub parse_csi_final : List ℕ → Option (List ℕ × ℕ × List ℕ)
unfolding find_final
parse_csi_final [] = none
parse_csi_final (b ∷ []) = none
parse_csi_final (b ∷ c ∷ rest) = if b == escape && c == b'[' then find_final rest else none

-- The line is hidden, cleared, printed, and the cursor parked.
abbrev pub redraw : List ℕ → List ℕ
redraw payload =
    (escape ∷ codes "[?25l")
    ++ (0x0d ∷ escape ∷ codes "[2K")
    ++ (trim_right_spaces payload ++ 0x0d ∷ escape ∷ codes "[?25h")

abbrev pub skip_cr : List ℕ → List ℕ
skip_cr [] = []
skip_cr (b ∷ rest) = if b == 0x0d then rest else b ∷ rest

-- A round of the loop: what is appended, what is left, and the flags.
abbrev pub Round : Type 0
Round = List ℕ × List ℕ × Flags

-- A percentage without the CSI K, which is to be swallowed when it comes.
abbrev pub progress_frame : List ℕ → List ℕ → Flags → Option Round
progress_frame payload after flags =
    if looks_like_progress payload
    then some (
      redraw payload,
      after,
      record { restore_pending = false; swallow_clear = true; swallow_cr = false },
    )
    else none

-- A frame between ESC 7 and ESC 8, given what stands between them and what follows.
unfoldable pub redraw_frame : List ℕ → List ℕ → Flags → Option Round
unfolding parse_csi_final has_control_byte looks_like_progress trim_right_spaces
redraw_frame payload after flags = elim (has_control_byte payload) [
  | true ↦ none
  | false ↦ elim (parse_csi_final after) [
    | some (params, final, rest) ↦
        if clears params final
        then some (redraw payload, skip_cr rest, record flags { restore_pending = false })
        else progress_frame payload after flags
    | none ↦ progress_frame payload after flags
  ]
]

-- ESC 7, where it begins such a frame.
unfoldable pub take_frame : List ℕ → Flags → Option Round
unfolding redraw_frame find_restore
take_frame rest flags = elim (find_restore rest) [
  | none ↦ none
  | some (payload, after) ↦ redraw_frame payload after flags
]

-- ESC [ with what follows it.
unfoldable pub take_csi : List ℕ → Flags → Option Round
unfolding find_final
take_csi rest flags = elim (find_final rest) [
  | none ↦ none
  | some (params, final, after) ↦
      if flags.swallow_clear && clears params final
      then some ([], after, record flags { swallow_clear = false; swallow_cr = true })
      else if flags.restore_pending && clears params final
      then some (
        (escape ∷ b'[' ∷ params) ++ final ∷ 0x0d ∷ [],
        after,
        record flags { swallow_clear = false; restore_pending = false },
      )
      else some (
        (escape ∷ b'[' ∷ params) ++ final ∷ [],
        after,
        record flags {
          swallow_clear = false;
          restore_pending = flags.restore_pending && final == b'K';
        },
      )
]

-- A sequence that the loop treats as a whole, after ESC.
unfoldable pub take_sequence : ℕ → List ℕ → Flags → Option Round
unfolding take_frame take_csi
take_sequence c rest flags =
    if c == b'7'
    then take_frame rest flags
    else if c == b'8'
    then some (escape ∷ b'8' ∷ [], rest, record flags { restore_pending = true })
    else if c == b'['
    then take_csi rest flags
    else none

-- A byte on its own, which is no ESC with a byte behind it.
unfoldable pub take_byte : ℕ → List ℕ → Flags → Round
take_byte b rest flags = (
  b ∷ [],
  rest,
  if is_blank b then flags else record flags { restore_pending = false; swallow_clear = false },
)

unfoldable pub normal_round : ℕ → List ℕ → Flags → Round
unfolding take_byte take_sequence
normal_round b [] flags = take_byte b [] flags
normal_round b (c ∷ rest) flags =
    if b == escape
    then elim (take_sequence c rest flags) [ some r ↦ r | none ↦ (b ∷ [], c ∷ rest, flags) ]
    else take_byte b (c ∷ rest) flags

-- The loop, at most `fuel` rounds of it.
unfoldable pub normalize : ℕ → List ℕ → Flags → List ℕ × Flags
unfolding normal_round
normalize zero bytes flags = ([], flags)
normalize (suc fuel) [] flags = ([], flags)
normalize (suc fuel) (b ∷ rest) flags =
    let kept : Flags = record flags { swallow_cr = false } in
    elim (flags.swallow_cr && b == 0x0d) [
      | true ↦ normalize fuel rest kept
      | false ↦
          (let (out, left, flags') = normal_round b rest kept in
            let (later, flags'') = normalize fuel left flags' in (out ++ later, flags''))
    ]

-- Each round takes a byte at least.
unfoldable pub normalize_host_terminal_bytes : List ℕ → Flags → List ℕ × Flags
unfolding normalize
normalize_host_terminal_bytes bytes flags = normalize (length bytes) bytes flags
