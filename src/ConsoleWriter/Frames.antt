-- ===== src/ConsoleWriter/Frames.antt =====
-- Plain text passes as it is, and a frame that redraws a line is translated.
use node_vmm.Uart.Console.{codes}
use node_vmm.Prelude.{
  ◌⊎◌, ◌≢◌, ◌∙◌, true, if◌then◌else◌, ℕ, ◌≡◌, refl, ap, arith, false, ◌==◌, List, [], ◌∷◌, ◌++◌,
  length, length-append, some,
}
use node_vmm.ConsoleWriter.Scan.{escape, find_restore, find_final, is_csi_final, is_empty_or_zero}
use node_vmm.ConsoleWriter.Normalize.{
  trim_right_spaces, is_blank, Flags, has_control_byte, redraw, skip_cr, parse_csi_final,
  redraw_frame, take_frame, take_sequence, take_byte, normal_round, normalize,
  normalize_host_terminal_bytes,
}
use node_vmm.ConsoleWriter.Rounds.{skip_cr-length, normalize_enough}

-- No byte starts an escape sequence.
abbrev pub IsPlain : List ℕ → Type 0
IsPlain [] = Unit {0}
IsPlain (b ∷ rest) = ((b == escape) ≡ false) × IsPlain rest

plain_round :
    (b : ℕ) (rest : List ℕ) (flags : Flags)
    → (b == escape) ≡ false
    → normal_round b rest flags ≡ take_byte b rest flags
unfolding normal_round
plain_round b [] flags h = refl
plain_round b (c ∷ rest) flags h = rw (normal_round, h) refl

take_byte-swallow_cr :
    (b : ℕ) (rest : List ℕ) (flags : Flags)
    → flags.swallow_cr ≡ false
    → (take_byte b rest flags).2.swallow_cr ≡ false
unfolding take_byte
take_byte-swallow_cr b rest flags h = ground arith

-- Text without escape sequences passes as it is, where no carriage return is to be swallowed.
pub normalize_plain :
    (bytes : List ℕ) (flags : Flags)
    → IsPlain bytes
    → flags.swallow_cr ≡ false
    → (normalize_host_terminal_bytes bytes flags).0 ≡ bytes
unfolding normalize_host_terminal_bytes normalize take_byte
normalize_plain [] flags plain h = refl
normalize_plain (b ∷ rest) flags (p, plain) h =
    let kept : Flags = record flags { swallow_cr = false } in
    let next : Flags = (take_byte b rest kept).2 in
    let ih : (normalize (length rest) rest next).0 ≡ rest =
      normalize_plain rest next plain (take_byte-swallow_cr b rest kept refl) in
    rw (normalize, h, plain_round b rest kept p) (ap (λ t. b ∷ t) ih)

find_restore-payload :
    (payload after : List ℕ)
    → has_control_byte payload ≡ false
    → find_restore (payload ++ escape ∷ b'8' ∷ after) ≡ some (payload, after)
unfolding find_restore has_control_byte
find_restore-payload [] after h = refl
find_restore-payload (b ∷ []) after h =
    let other : (b == escape) ≡ false = ground arith in rw other refl
find_restore-payload (b ∷ c ∷ rest) after h =
    let other : (b == escape) ≡ false = ground arith in
    let ih : find_restore (c ∷ rest ++ escape ∷ b'8' ∷ after) ≡ some (c ∷ rest, after) =
      find_restore-payload (c ∷ rest) after (ground arith) in
    rw (find_restore, other, ih) refl

find_final-clear :
    (params rest : List ℕ)
    → is_empty_or_zero params ≡ true
    → find_final (params ++ b'K' ∷ rest) ≡ some (params, b'K', rest)
unfolding find_final
find_final-clear [] rest h = refl
find_final-clear (b ∷ []) rest h =
    let other : is_csi_final b ≡ false = ground arith in rw (find_final, other) refl
find_final-clear (b ∷ c ∷ more) rest h = ground (arith, h)

-- ESC 7, the payload, ESC 8, and CSI K or CSI 0 K.
abbrev pub redraw_sequence : List ℕ → List ℕ → List ℕ → List ℕ
redraw_sequence payload params rest =
    escape ∷ b'7' ∷ (payload ++ escape ∷ b'8' ∷ escape ∷ b'[' ∷ (params ++ b'K' ∷ rest))

take_frame_lem :
    (payload params rest : List ℕ) (flags : Flags)
    → has_control_byte payload ≡ false
    → is_empty_or_zero params ≡ true
    → take_frame (payload ++ escape ∷ b'8' ∷ escape ∷ b'[' ∷ (params ++ b'K' ∷ rest)) flags
      ≡ some (redraw payload, skip_cr rest, record flags { restore_pending = false })
unfolding take_frame redraw_frame parse_csi_final
take_frame_lem payload params rest flags h z =
    rw
      (
        take_frame,
        find_restore-payload payload (escape ∷ b'[' ∷ (params ++ b'K' ∷ rest)) h,
        redraw_frame,
        h,
        find_final-clear params rest z,
        z,
      )
      refl

-- The same from a fresh start: bytes that are left over, with the text that is out already.
abbrev pub after_text : List ℕ → List ℕ × Flags → List ℕ × Flags
after_text out (later, flags) = (out ++ later, flags)

normalize_frame :
    (payload params rest : List ℕ) (flags : Flags)
    → has_control_byte payload ≡ false
    → is_empty_or_zero params ≡ true
    → flags.swallow_cr ≡ false
    → normalize_host_terminal_bytes (redraw_sequence payload params rest) flags
      ≡ after_text (redraw payload) (
          normalize_host_terminal_bytes
            (skip_cr rest)
            (record flags { swallow_cr = false; restore_pending = false }))
unfolding normalize_host_terminal_bytes normalize normal_round take_sequence
normalize_frame payload params rest flags h z n =
    let kept : Flags = record flags { swallow_cr = false } in
    let fuel : ℕ =
      length (b'7' ∷ (payload ++ escape ∷ b'8' ∷ escape ∷ b'[' ∷ (params ++ b'K' ∷ rest))) in
    rw (normalize, n, take_frame_lem payload params rest kept h z)
      (ap (after_text (redraw payload)) (
        normalize_enough fuel (length (skip_cr rest)) (skip_cr rest)
          (record flags { swallow_cr = false; restore_pending = false })
          (omega (
            arith,
            skip_cr-length rest,
            length-append {0} payload (escape ∷ b'8' ∷ escape ∷ b'[' ∷ (params ++ b'K' ∷ rest)),
            length-append {0} params (b'K' ∷ rest),
          ))
          (omega arith)))

-- Blanks and tabs only.
abbrev pub AreBlank : List ℕ → Type 0
AreBlank [] = Unit {0}
AreBlank (b ∷ rest) = ((b ≡ b' ') ⊎ (b ≡ b'\t')) × AreBlank rest

-- The last byte, where there is one, is neither.
abbrev pub EndsVisibly : List ℕ → Type 0
EndsVisibly [] = Unit {0}
EndsVisibly (b ∷ []) = (b ≢ b' ') × (b ≢ b'\t')
EndsVisibly (b ∷ c ∷ rest) = EndsVisibly (c ∷ rest)

trim_blanks : (blanks : List ℕ) → AreBlank blanks → trim_right_spaces blanks ≡ []
unfolding trim_right_spaces
trim_blanks [] h = refl
trim_blanks (b ∷ rest) (blank, h) =
    let e : is_blank b ≡ true = ground arith in rw (trim_right_spaces, trim_blanks rest h, e) refl

trim_lem :
    (text blanks : List ℕ)
    → EndsVisibly text
    → AreBlank blanks
    → trim_right_spaces (text ++ blanks) ≡ text
unfolding trim_right_spaces
trim_lem [] blanks v h = trim_blanks blanks h
trim_lem (b ∷ []) blanks v h =
    let e : is_blank b ≡ false = ground arith in
    rw (trim_right_spaces, trim_blanks blanks h, e) refl
trim_lem (b ∷ c ∷ rest) blanks v h = rw (trim_right_spaces, trim_lem (c ∷ rest) blanks v h) refl

-- What follows, less a carriage return at its front.
abbrev pub without_return : List ℕ → List ℕ
without_return [] = []
without_return (b ∷ rest) = if b == 0x0d then rest else b ∷ rest

skip_cr_lem : (rest : List ℕ) → skip_cr rest ≡ without_return rest
skip_cr_lem [] = refl
skip_cr_lem (b ∷ rest) = refl

-- The cursor is hidden, the line cleared from its first column (CR, CSI 2 K) and printed, and the
-- cursor shown in the first column (CR).
abbrev pub line_again : List ℕ → List ℕ
line_again text =
    0x1b
    ∷ b'['
    ∷ b'?'
    ∷ b'2'
    ∷ b'5'
    ∷ b'l'
    ∷ 0x0d
    ∷ 0x1b
    ∷ b'['
    ∷ b'2'
    ∷ b'K'
    ∷ (text ++ 0x0d ∷ 0x1b ∷ b'[' ∷ b'?' ∷ b'2' ∷ b'5' ∷ b'h' ∷ [])

-- A line between ESC 7 and ESC 8 that is free of control bytes, with the CSI K behind it, is
-- written as a redraw of the current line, with the cursor hidden and shown again, without the blanks
-- at its end; the carriage return that follows it is dropped, and the rest is rewritten on its own,
-- with no CSI K to be completed.
pub normalize-redraw_sequence :
    (text blanks params rest : List ℕ) (flags : Flags)
    → EndsVisibly text
    → AreBlank blanks
    → has_control_byte (text ++ blanks) ≡ false
    → is_empty_or_zero params ≡ true
    → flags.swallow_cr ≡ false
    → normalize_host_terminal_bytes (redraw_sequence (text ++ blanks) params rest) flags
      ≡ after_text (line_again text) (
          normalize_host_terminal_bytes
            (without_return rest)
            (record flags { swallow_cr = false; restore_pending = false }))
normalize-redraw_sequence text blanks params rest flags v b h z n =
    let next : Flags = record flags { swallow_cr = false; restore_pending = false } in
    normalize_frame (text ++ blanks) params rest flags h z n
    ∙ (ap
          (λ t.
            after_text
              ((escape ∷ codes "[?25l")
                ++ (0x0d ∷ escape ∷ codes "[2K")
                ++ (t ++ 0x0d ∷ escape ∷ codes "[?25h"))
              (normalize_host_terminal_bytes (skip_cr rest) next))
          (trim_lem text blanks v b)
        ∙ ap (λ l. after_text (line_again text) (normalize_host_terminal_bytes l next))
            (skip_cr_lem rest))
