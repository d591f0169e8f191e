-- ===== src/ConsoleWriter/SafePrefix.antt =====
-- A safe prefix cuts no escape sequence in two.
use mathlib.Core.Path.{subst}
use node_vmm.Prelude.{
  sym, ◌==◌, ◌<◌, ◌≢◌, [], ℕ, suc, ◌+◌, ◌≤◌, ◌≡◌, refl, ap, ◌∙◌, arith, Bool, true, false,
  if◌then◌else◌, Bool-cases, ◌⊎◌, inl, inr, List, ◌∷◌, length, take,
}
use node_vmm.ConsoleWriter.Scan.{
  is_csi_final, ParseState, normal, esc, csi, osc, parse, scan, terminal_safe_prefix,
}

-- The state of the parser behind some bytes.
pub state_after : ParseState → Bool → List ℕ → ParseState
state_after state osc_esc [] = state
state_after state osc_esc (byte ∷ bytes) =
    let (state', osc_esc', ends) = parse state osc_esc byte in state_after state' osc_esc' bytes

-- Where a prefix ends, no sequence is open.
parse_ends :
    (state : ParseState) (osc_esc : Bool) (byte : ℕ)
    → (parse state osc_esc byte).2 ≡ true
    → (parse state osc_esc byte).0 ≡ normal
unfolding parse
parse_ends normal osc_esc byte h = ground arith
parse_ends esc osc_esc byte h = ground arith
parse_ends csi osc_esc byte h = ground arith
parse_ends osc osc_esc byte h = ground arith

abbrev IsCut : ParseState → Bool → ℕ → ℕ → List ℕ → ℕ → Type 0
IsCut state osc_esc i safe bytes r =
    (r ≡ safe)
    ⊎ ((k : ℕ) × (r ≡ i + k)
        × (k ≤ length bytes)
        × (state_after state osc_esc (take k bytes) ≡ normal))

scan-IsCut :
    (state : ParseState) (osc_esc : Bool) (i safe : ℕ) (bytes : List ℕ)
    → IsCut state osc_esc i safe bytes (scan state osc_esc i safe bytes)
unfolding scan state_after
scan-IsCut state osc_esc i safe [] = inl refl
scan-IsCut state osc_esc i safe (byte ∷ bytes) =
    let (state', osc_esc', ends) = parse state osc_esc byte in
    let safe' : ℕ = if ends then i + 1 else safe in
    elim (scan-IsCut state' osc_esc' (i + 1) safe' bytes) [
      | inr (k, e, l, h) ↦ inr (suc k, e ∙ omega arith, omega arith, h)
      | inl e ↦ elim (Bool-cases ends) [
        | inl t ↦ inr (
          1,
          e ∙ ap (λ (b : Bool). if b then i + 1 else safe) t,
          omega arith,
          parse_ends state osc_esc byte t,
        )
        | inr f ↦ inl (e ∙ ap (λ (b : Bool). if b then i + 1 else safe) f)
      ]
    ]

state_after_prefix :
    (bytes : List ℕ)
    → (terminal_safe_prefix bytes ≤ length bytes)
      × (state_after normal false (take (terminal_safe_prefix bytes) bytes) ≡ normal)
unfolding terminal_safe_prefix state_after
state_after_prefix bytes = elim (scan-IsCut normal false 0 0 bytes) [
  | inl e ↦ rw e (omega arith, refl)
  | inr (k, e, l, h) ↦
      let at : scan normal false 0 0 bytes ≡ k = e ∙ omega arith in
      (rw at l, ap (λ t. state_after normal false (take t bytes)) at ∙ h)
]

-- Where a byte of the output of a terminal stands: in the text, behind an ESC, in a control sequence
-- (CSI), or in the string of a system command (OSC), there perhaps behind an ESC.
pub data Place : Type 0 where
  in_text after_escape in_csi : Place
  in_osc : Bool → Place

-- The bytes from such a place on, at the end of which no sequence is open.
pub data Closes : Place → List ℕ → Type 0 where
  text_ends : Closes in_text []
  text_byte : (b : ℕ) (rest : List ℕ) → b ≢ 0x1b → Closes in_text rest → Closes in_text (b ∷ rest)
  text_escape : (rest : List ℕ) → Closes after_escape rest → Closes in_text (0x1b ∷ rest)
  two_bytes :
      (b : ℕ) (rest : List ℕ)
      → b ≢ 0x5b
      → b ≢ 0x5d
      → Closes in_text rest
      → Closes after_escape (b ∷ rest)
  csi_begins : (rest : List ℕ) → Closes in_csi rest → Closes after_escape (0x5b ∷ rest)
  osc_begins : (rest : List ℕ) → Closes (in_osc false) rest → Closes after_escape (0x5d ∷ rest)
  csi_parameter :
      (b : ℕ) (rest : List ℕ)
      → (b < 0x40) ⊎ (0x7e < b)
      → Closes in_csi rest
      → Closes in_csi (b ∷ rest)
  csi_final :
      (b : ℕ) (rest : List ℕ) → 0x40 ≤ b → b ≤ 0x7e → Closes in_text rest → Closes in_csi (b ∷ rest)
  osc_bell : (e : Bool) (rest : List ℕ) → Closes in_text rest → Closes (in_osc e) (0x07 ∷ rest)
  osc_terminator : (rest : List ℕ) → Closes in_text rest → Closes (in_osc true) (0x5c ∷ rest)
  osc_escape :
      (e : Bool) (rest : List ℕ) → Closes (in_osc true) rest → Closes (in_osc e) (0x1b ∷ rest)
  osc_byte :
      (e : Bool) (b : ℕ) (rest : List ℕ)
      → b ≢ 0x07
      → b ≢ 0x1b
      → (e ≡ false) ⊎ (b ≢ 0x5c)
      → Closes (in_osc false) rest
      → Closes (in_osc e) (b ∷ rest)

abbrev place : ParseState → Bool → Place
place normal osc_esc = in_text
place esc osc_esc = after_escape
place csi osc_esc = in_csi
place osc osc_esc = in_osc osc_esc

-- A byte that is known.
at_byte :
    (p : Place) (b c : ℕ) (rest : List ℕ)
    → (b == c) ≡ true
    → Closes p (c ∷ rest)
    → Closes p (b ∷ rest)
at_byte p b c rest e h = let q : c ≡ b = ground arith in subst (λ x. Closes p (x ∷ rest)) q h

state_after-Closes :
    (state : ParseState) (osc_esc : Bool) (bytes : List ℕ)
    → state_after state osc_esc bytes ≡ normal
    → Closes (place state osc_esc) bytes
unfolding state_after parse
state_after-Closes normal osc_esc [] h = text_ends
state_after-Closes esc osc_esc [] h = ground arith
state_after-Closes csi osc_esc [] h = ground arith
state_after-Closes osc osc_esc [] h = ground arith
state_after-Closes normal osc_esc (b ∷ rest) h = elim (Bool-cases (b == 0x1b)) [
  | inl e ↦
      (let next : state_after normal osc_esc (b ∷ rest) ≡ state_after esc osc_esc rest =
          rw e refl in
        at_byte in_text b 0x1b rest e
          (text_escape rest (state_after-Closes esc osc_esc rest (sym next ∙ h))))
  | inr e ↦
      (let next : state_after normal osc_esc (b ∷ rest) ≡ state_after normal osc_esc rest =
          rw e refl in
        text_byte b rest (ground arith) (state_after-Closes normal osc_esc rest (sym next ∙ h)))
]
state_after-Closes esc osc_esc (b ∷ rest) h = elim (Bool-cases (b == 0x5b)) [
  | inl e ↦
      (let next : state_after esc osc_esc (b ∷ rest) ≡ state_after csi osc_esc rest = rw e refl in
        at_byte after_escape b 0x5b rest e
          (csi_begins rest (state_after-Closes csi osc_esc rest (sym next ∙ h))))
  | inr e ↦ elim (Bool-cases (b == 0x5d)) [
    | inl e₁ ↦
        (let next : state_after esc osc_esc (b ∷ rest) ≡ state_after osc false rest =
            rw (e, e₁) refl in
          at_byte after_escape b 0x5d rest e₁
            (osc_begins rest (state_after-Closes osc false rest (sym next ∙ h))))
    | inr e₁ ↦
        (let next : state_after esc osc_esc (b ∷ rest) ≡ state_after normal osc_esc rest =
            rw (e, e₁) refl in
          two_bytes b rest (ground arith) (ground arith)
            (state_after-Closes normal osc_esc rest (sym next ∙ h)))
  ]
]
state_after-Closes csi osc_esc (b ∷ rest) h = elim (Bool-cases (is_csi_final b)) [
  | inl e ↦
      (let next : state_after csi osc_esc (b ∷ rest) ≡ state_after normal osc_esc rest =
          rw e refl in
        csi_final b rest (ground arith) (ground arith)
          (state_after-Closes normal osc_esc rest (sym next ∙ h)))
  | inr e ↦
      (let next : state_after csi osc_esc (b ∷ rest) ≡ state_after csi osc_esc rest = rw e refl in
        csi_parameter b rest (ground arith) (state_after-Closes csi osc_esc rest (sym next ∙ h)))
]
state_after-Closes osc false (b ∷ rest) h = elim (Bool-cases (b == 0x07)) [
  | inl e ↦
      (let next : state_after osc false (b ∷ rest) ≡ state_after normal false rest = rw e refl in
        at_byte (in_osc false) b 0x07 rest e
          (osc_bell false rest (state_after-Closes normal false rest (sym next ∙ h))))
  | inr e ↦ elim (Bool-cases (b == 0x1b)) [
    | inl e₁ ↦
        (let next : state_after osc false (b ∷ rest) ≡ state_after osc true rest =
            rw (e, e₁) refl in
          at_byte (in_osc false) b 0x1b rest e₁
            (osc_escape false rest (state_after-Closes osc true rest (sym next ∙ h))))
    | inr e₁ ↦
        (let next : state_after osc false (b ∷ rest) ≡ state_after osc false rest =
            rw (e, e₁) refl in
          osc_byte false b rest (ground arith) (ground arith) (inl refl)
            (state_after-Closes osc false rest (sym next ∙ h)))
  ]
]
state_after-Closes osc true (b ∷ rest) h = elim (Bool-cases (b == 0x07)) [
  | inl e ↦
      (let next : state_after osc true (b ∷ rest) ≡ state_after normal false rest = rw e refl in
        at_byte (in_osc true) b 0x07 rest e
          (osc_bell true rest (state_after-Closes normal false rest (sym next ∙ h))))
  | inr e ↦ elim (Bool-cases (b == 0x5c)) [
    | inl e₂ ↦
        (let next : state_after osc true (b ∷ rest) ≡ state_after normal false rest =
            rw (e, e₂) refl in
          at_byte (in_osc true) b 0x5c rest e₂
            (osc_terminator rest (state_after-Closes normal false rest (sym next ∙ h))))
    | inr e₂ ↦ elim (Bool-cases (b == 0x1b)) [
      | inl e₁ ↦
          (let next : state_after osc true (b ∷ rest) ≡ state_after osc true rest =
              rw (e₂, e, e₁) refl in
            at_byte (in_osc true) b 0x1b rest e₁
              (osc_escape true rest (state_after-Closes osc true rest (sym next ∙ h))))
      | inr e₁ ↦
          (let next : state_after osc true (b ∷ rest) ≡ state_after osc false rest =
              rw (e₂, e, e₁) refl in
            osc_byte true b rest (ground arith) (ground arith) (inr (ground arith))
              (state_after-Closes osc false rest (sym next ∙ h)))
    ]
  ]
]

-- The safe prefix of the pending bytes is part of them, and at its end no escape sequence is open:
-- it is made of bytes of text other than ESC, of control sequences up to their final byte, of system
-- commands up to BEL or ESC \ and of other sequences of two bytes, each of them whole.
pub terminal_safe_prefix-Closes :
    (bytes : List ℕ)
    → (terminal_safe_prefix bytes ≤ length bytes)
      × Closes in_text (take (terminal_safe_prefix bytes) bytes)
terminal_safe_prefix-Closes bytes =
    let (inside, whole) = state_after_prefix bytes in
    (inside, state_after-Closes normal false (take (terminal_safe_prefix bytes) bytes) whole)
