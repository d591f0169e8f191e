-- ===== src/Uart/Matcher.antt =====
-- The matcher of `AdvanceMatch` over a text, against the longest end of the text that a pattern starts
-- with.
use mathlib.Core.Path.{subst}
use node_vmm.Prelude.{
  ℕ, zero, suc, ◌≤◌, ◌<◌, ◌≡◌, ◌⊎◌, refl, sym, ap, ◌∙◌, arith, Bool, true, false, ◌==◌, Bool-cases,
  inl, inr, List, [], ◌∷◌, ◌++◌, length, get_or, append_assoc, length-append, ℕ_discrete,
}
use node_vmm.Uart.Console.{retreat, advance_match, track_byte}

-- The last `j` bytes of a text are the first `j` of the pattern. The text is latest byte first.
abbrev pub Ends : List ℕ → ℕ → List ℕ → Type 0
Ends pattern zero text = Unit
Ends pattern (suc j) [] = ⊥
Ends pattern (suc j) (b ∷ text) = (b ≡ get_or pattern j 0) × Ends pattern j text

module _ (pattern : List ℕ) (byte : ℕ) where
  retreat-ge :
      (current i : ℕ) → byte ≡ get_or pattern i 0 → i ≤ current → i ≤ retreat pattern current byte
  unfolding retreat
  retreat-ge zero i e h = h
  retreat-ge (suc current) i e h = elim (ℕ_discrete i (suc current)) [
    | yes p ↦
        let hit : byte ≡ get_or pattern (suc current) 0 = e ∙ ap (λ t. get_or pattern t 0) p in
        ground arith
    | no ne ↦ ground (arith, retreat-ge current i e (omega arith))
  ]

  retreat-hit :
      (current : ℕ)
      → (retreat pattern current byte ≡ 0)
        ⊎ (byte ≡ get_or pattern (retreat pattern current byte) 0)
  unfolding retreat
  retreat-hit zero = inl refl
  retreat-hit (suc current) = ground (arith, retreat-hit current)

  retreat-le : (current : ℕ) → retreat pattern current byte ≤ current
  unfolding retreat
  retreat-le zero = omega arith
  retreat-le (suc current) = ground (arith, retreat-le current)

  retreat_stops :
      (current i : ℕ)
      → byte ≡ get_or pattern i 0
      → i ≤ current
      → byte ≡ get_or pattern (retreat pattern current byte) 0
  retreat_stops current i e h = elim (retreat-hit current) [
    | inl z ↦
        e
        ∙ ap (λ t. get_or pattern t 0)
            (let q : i ≡ retreat pattern current byte = omega (arith, retreat-ge current i e h) in
              q)
    | inr q ↦ q
  ]

  -- No match is lost by a step.
  advance_match-ge :
      (current i : ℕ)
      → byte ≡ get_or pattern i 0
      → i ≤ current
      → current < length pattern
      → suc i ≤ advance_match pattern current byte
  unfolding advance_match
  advance_match-ge current i e h lt =
      ground (arith, retreat-ge current i e h, retreat_stops current i e h, retreat-le current)

  advance_match-le :
      (current : ℕ) → current < length pattern → advance_match pattern current byte ≤ length pattern
  unfolding advance_match
  advance_match-le current lt = ground (arith, retreat-le current)

-- The marker was seen, or its match is at least as long as what of it the text ends in.
abbrev pub Tracks : List ℕ → List ℕ → ℕ × Bool → Type 0
Tracks pattern text (matched, seen) =
    (seen ≡ true)
    ⊎ ((seen ≡ false)
        × (matched < length pattern)
        × ((j : ℕ) → j ≤ length pattern → Ends pattern j text → j ≤ matched))

track_byte-Tracks :
    (pattern text : List ℕ) (byte : ℕ) (state : ℕ × Bool)
    → Tracks pattern text state
    → Tracks pattern (byte ∷ text) (track_byte pattern state.0 state.1 byte)
unfolding track_byte
track_byte-Tracks pattern text byte (matched, true) t = inl refl
track_byte-Tracks pattern text byte (matched, false) (inl e) = absurd (cc)
track_byte-Tracks pattern text byte (matched, false) (inr (u, lt, longest)) =
    elim (Bool-cases (advance_match pattern matched byte == length pattern)) [
      | inl full ↦ inl full
      | inr more ↦ inr (more, ground (arith, advance_match-le pattern byte matched lt), kept)
    ]
  where
    kept :
        (j : ℕ)
        → j ≤ length pattern
        → Ends pattern j (byte ∷ text)
        → j ≤ advance_match pattern matched byte
    kept zero h e = omega arith
    kept (suc i) h e = advance_match-ge pattern byte matched i e.0 (longest i (omega arith) e.1) lt

-- A marker over a text.
unfoldable pub track_bytes : List ℕ → List ℕ → ℕ × Bool → ℕ × Bool
track_bytes pattern [] state = state
track_bytes pattern (b ∷ bytes) state =
    track_bytes pattern bytes (track_byte pattern state.0 state.1 b)

-- The text read so far, latest byte first.
abbrev read_on : List ℕ → List ℕ → List ℕ
read_on [] text = text
read_on (b ∷ bytes) text = read_on bytes (b ∷ text)

track_bytes-Tracks :
    (pattern bytes text : List ℕ) (state : ℕ × Bool)
    → Tracks pattern text state
    → Tracks pattern (read_on bytes text) (track_bytes pattern bytes state)
unfolding track_bytes
track_bytes-Tracks pattern [] text state t = t
track_bytes-Tracks pattern (b ∷ bytes) text state t =
    track_bytes-Tracks pattern bytes (b ∷ text) _ (track_byte-Tracks pattern text b state t)

pub track_bytes-append :
    (pattern xs ys : List ℕ) (state : ℕ × Bool)
    → track_bytes pattern (xs ++ ys) state ≡ track_bytes pattern ys (track_bytes pattern xs state)
unfolding track_bytes
track_bytes-append pattern [] ys state = refl
track_bytes-append pattern (b ∷ xs) ys state = track_bytes-append pattern xs ys _

track_bytes_seen :
    (pattern bytes : List ℕ) (matched : ℕ) → (track_bytes pattern bytes (matched, true)).1 ≡ true
unfolding track_bytes track_byte
track_bytes_seen pattern [] matched = refl
track_bytes_seen pattern (b ∷ bytes) matched = track_bytes_seen pattern bytes matched

get_or-append : (xs ys : List ℕ) (y : ℕ) → get_or (xs ++ y ∷ ys) (length xs) 0 ≡ y
get_or-append [] ys y = refl
get_or-append (x ∷ xs) ys y = get_or-append xs ys y

-- Reading the rest of the pattern extends a match to the whole.
Ends-read_on :
    (pattern front rest text : List ℕ)
    → front ++ rest ≡ pattern
    → Ends pattern (length front) text
    → Ends pattern (length pattern) (read_on rest text)
Ends-read_on pattern front [] text e ends =
    subst (λ n. Ends pattern n text) (omega (arith, length-append front [], ap length e)) ends
Ends-read_on pattern front (b ∷ rest) text e ends =
    Ends-read_on pattern (front ++ b ∷ []) rest (b ∷ text) (append_assoc front (b ∷ []) rest ∙ e) (
      subst (λ n. Ends pattern n (b ∷ text)) longer
        (sym (get_or-append front rest b) ∙ ap (λ t. get_or t (length front) 0) e, ends))
  where
    longer : suc (length front) ≡ length (front ++ b ∷ [])
    longer = omega (arith, length-append front (b ∷ []))

-- A marker that tracks a text sees the pattern anywhere after it.
pub track_bytes_finds :
    (pattern before after text : List ℕ) (state : ℕ × Bool)
    → Tracks pattern text state
    → (track_bytes pattern (before ++ (pattern ++ after)) state).1 ≡ true
track_bytes_finds pattern before after text state t =
    ap (λ (s : ℕ × Bool). s.1)
      (track_bytes-append pattern before (pattern ++ after) state
        ∙ track_bytes-append pattern pattern after (track_bytes pattern before state))
    ∙ go (track_bytes pattern pattern (track_bytes pattern before state))
        (track_bytes-Tracks pattern pattern (read_on before text) _
          (track_bytes-Tracks pattern before text state t))
        (Ends-read_on pattern [] pattern (read_on before text) refl tt)
  where
    go :
        (s : ℕ × Bool)
        → Tracks pattern (read_on pattern (read_on before text)) s
        → Ends pattern (length pattern) (read_on pattern (read_on before text))
        → (track_bytes pattern after s).1 ≡ true
    go (matched, true) t ends = track_bytes_seen pattern after matched
    go (matched, false) (inl e) ends = cc
    go (matched, false) (inr (u, lt, longest)) ends =
        absurd (omega (arith, longest (length pattern) (omega arith) ends))
