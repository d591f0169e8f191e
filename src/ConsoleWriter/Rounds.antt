-- ===== src/ConsoleWriter/Rounds.antt =====
-- How the bytes of the guest are rewritten: enough rounds, plain text, and frames.
use node_vmm.Prelude.{
  ℕ, zero, suc, ◌≤◌, ◌≡◌, refl, ap, arith, false, ◌&&◌, if_intro, ◌==◌, Bool-cases, Option-cases,
  inl, inr, Option, none, some, List, [], ◌∷◌, ◌++◌, length,
}
use mathlib.Core.Path.{subst}
use node_vmm.ConsoleWriter.Scan.{escape, find_restore, find_final, clears, is_csi_final}
use node_vmm.ConsoleWriter.Normalize.{
  Flags, Round, has_control_byte, skip_cr, parse_csi_final, progress_frame, redraw_frame,
  looks_like_progress, take_frame, take_csi, take_sequence, take_byte, normal_round, normalize,
}

-- What is left over is no longer than `n`.
abbrev Restores : ℕ → Option (List ℕ × List ℕ) → Type 0
Restores n none = Unit {0}
Restores n (some (payload, after)) = length after ≤ n

abbrev Finals : ℕ → Option (List ℕ × ℕ × List ℕ) → Type 0
Finals n none = Unit {0}
Finals n (some (params, final, after)) = length after ≤ n

abbrev Leaves : ℕ → Option Round → Type 0
Leaves n none = Unit {0}
Leaves n (some (out, left, flags)) = length left ≤ n

find_restore-Restores : (bytes : List ℕ) → Restores (length bytes) (find_restore bytes)
unfolding find_restore
find_restore-Restores [] = tt
find_restore-Restores (b ∷ []) = tt
find_restore-Restores (b ∷ c ∷ rest) =
    if_intro (Restores (suc (suc (length rest)))) (b == escape && c == b'8') (omega arith)
      (step (find_restore (c ∷ rest)) (find_restore-Restores (c ∷ rest)))
  where
    step :
        (o : Option (List ℕ × List ℕ))
        → Restores (suc (length rest)) o
        → Restores
            (suc (suc (length rest)))
            (elim o [ none ↦ none | some (payload, after) ↦ some (b ∷ payload, after) ])
    step none h = tt
    step (some (payload, after)) h = omega arith

find_final-Finals : (bytes : List ℕ) → Finals (length bytes) (find_final bytes)
unfolding find_final
find_final-Finals [] = tt
find_final-Finals (b ∷ rest) =
    if_intro (Finals (suc (length rest))) (is_csi_final b) (omega arith)
      (step (find_final rest) (find_final-Finals rest))
  where
    step :
        (o : Option (List ℕ × ℕ × List ℕ))
        → Finals (length rest) o
        → Finals
            (suc (length rest))
            (elim o [ none ↦ none | some (params, final, after) ↦ some (b ∷ params, final, after) ])
    step none h = tt
    step (some (params, final, after)) h = omega arith

parse_csi_final-Finals : (bytes : List ℕ) → Finals (length bytes) (parse_csi_final bytes)
unfolding parse_csi_final
parse_csi_final-Finals [] = tt
parse_csi_final-Finals (b ∷ []) = tt
parse_csi_final-Finals (b ∷ c ∷ rest) =
    if_intro (Finals (suc (suc (length rest)))) (b == escape && c == b'[')
      (grow (find_final rest) (find_final-Finals rest)) tt
  where
    grow :
        (o : Option (List ℕ × ℕ × List ℕ))
        → Finals (length rest) o
        → Finals (suc (suc (length rest))) o
    grow none h = tt
    grow (some (params, final, after)) h = omega arith

pub skip_cr-length : (bytes : List ℕ) → length (skip_cr bytes) ≤ length bytes
skip_cr-length [] = omega arith
skip_cr-length (b ∷ rest) =
    if_intro (λ (l : List ℕ). length l ≤ suc (length rest)) (b == 0x0d) (omega arith) (omega arith)

progress_frame-Leaves :
    (n : ℕ) (payload after : List ℕ) (flags : Flags)
    → length after ≤ n
    → Leaves n (progress_frame payload after flags)
progress_frame-Leaves n payload after flags h =
    if_intro (Leaves n) (looks_like_progress payload) h tt

frame_of-Leaves :
    (n : ℕ) (payload after : List ℕ) (flags : Flags)
    → length after ≤ n
    → Leaves n (redraw_frame payload after flags)
unfolding redraw_frame
frame_of-Leaves n payload after flags h = elim (Bool-cases (has_control_byte payload)) [
  | inl e ↦ rw (redraw_frame, e) tt
  | inr e ↦ elim (Option-cases (parse_csi_final after)) [
    | inl e₁ ↦ rw (redraw_frame, e, e₁) (progress_frame-Leaves n payload after flags h)
    | inr ((params, final, rest), e₁) ↦
        (let short : Finals (length after) (some (params, final, rest)) =
            subst (Finals (length after)) e₁ (parse_csi_final-Finals after) in
          rw (redraw_frame, e, e₁)
            (if_intro (Leaves n) (clears params final) (omega (arith, skip_cr-length rest, short))
              (progress_frame-Leaves n payload after flags h)))
  ]
]

take_frame-Leaves : (rest : List ℕ) (flags : Flags) → Leaves (length rest) (take_frame rest flags)
unfolding take_frame
take_frame-Leaves rest flags = elim (Option-cases (find_restore rest)) [
  | inl e ↦ rw (take_frame, e) tt
  | inr ((payload, after), e) ↦
      rw (take_frame, e)
        (frame_of-Leaves (length rest) payload after flags
          (subst (Restores (length rest)) e (find_restore-Restores rest)))
]

take_csi-Leaves : (rest : List ℕ) (flags : Flags) → Leaves (length rest) (take_csi rest flags)
unfolding take_csi
take_csi-Leaves rest flags = elim (Option-cases (find_final rest)) [
  | inl e ↦ rw (take_csi, e) tt
  | inr ((params, final, after), e) ↦
      (let short : Finals (length rest) (some (params, final, after)) =
          subst (Finals (length rest)) e (find_final-Finals rest) in
        rw (take_csi, e)
          (if_intro (Leaves (length rest)) (flags.swallow_clear && clears params final) short (
            if_intro (Leaves (length rest)) (flags.restore_pending && clears params final) short
              short)))
]

take_sequence-Leaves :
    (c : ℕ) (rest : List ℕ) (flags : Flags) → Leaves (length rest) (take_sequence c rest flags)
unfolding take_sequence
take_sequence-Leaves c rest flags =
    if_intro (Leaves (length rest)) (c == b'7') (take_frame-Leaves rest flags) (
      if_intro (Leaves (length rest)) (c == b'8') (omega arith)
        (if_intro (Leaves (length rest)) (c == b'[') (take_csi-Leaves rest flags) tt))

-- A round takes a byte at least.
pub normal_round-length :
    (b : ℕ) (rest : List ℕ) (flags : Flags) → length (normal_round b rest flags).1 ≤ length rest
unfolding normal_round take_byte
normal_round-length b [] flags = omega arith
normal_round-length b (c ∷ rest) flags = elim (Bool-cases (b == escape)) [
  | inr e ↦ rw (normal_round, e) (omega arith)
  | inl e ↦ elim (Option-cases (take_sequence c rest flags)) [
    | inl e₁ ↦ rw (normal_round, e, e₁) (omega arith)
    | inr ((out, left, flags'), e₁) ↦
        (let short : Leaves (length rest) (some (out, left, flags')) =
            subst (Leaves (length rest)) e₁ (take_sequence-Leaves c rest flags) in
          rw (normal_round, e, e₁) (omega (arith, short)))
  ]
]

-- More rounds than there are bytes change nothing.
pub normalize_enough :
    (fuel fuel' : ℕ) (bytes : List ℕ) (flags : Flags)
    → length bytes ≤ fuel
    → length bytes ≤ fuel'
    → normalize fuel bytes flags ≡ normalize fuel' bytes flags
unfolding normalize
normalize_enough zero zero bytes flags h l = refl
normalize_enough zero (suc fuel') [] flags h l = refl
normalize_enough zero (suc fuel') (b ∷ rest) flags h l = absurd (omega arith)
normalize_enough (suc fuel) zero [] flags h l = refl
normalize_enough (suc fuel) zero (b ∷ rest) flags h l = absurd (omega arith)
normalize_enough (suc fuel) (suc fuel') [] flags h l = refl
normalize_enough (suc fuel) (suc fuel') (b ∷ rest) flags h l =
    let kept : Flags = record flags { swallow_cr = false } in
    let r : Round = normal_round b rest kept in
    let short = normal_round-length b rest kept in
    elim (Bool-cases (flags.swallow_cr && b == 0x0d)) [
      | inl e ↦
          rw (normalize, e) (normalize_enough fuel fuel' rest kept (omega arith) (omega arith))
      | inr e ↦
          rw (normalize, e)
            (ap (λ (p : List ℕ × Flags). (r.0 ++ p.0, p.1))
              (normalize_enough fuel fuel' r.1 r.2 (omega arith) (omega arith)))
    ]
