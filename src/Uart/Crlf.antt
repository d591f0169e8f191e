-- ===== src/Uart/Crlf.antt =====
-- `NormalizeCrlf`: line feeds and their carriage returns, over chunks.
use node_vmm.Prelude.{
  ℕ, ◌≡◌, refl, arith, ◌==◌, ◌!=◌, ◌&&◌, Bool-cases, inl, inr, List, [], ◌∷◌, ◌++◌,
}
use node_vmm.Uart.Console.{normalize_crlf, carriage_return, line_feed}

-- No line feed without a carriage return right before it; `last_byte` stands before the text.
abbrev pub NoBareLineFeed : ℕ → List ℕ → Type 0
NoBareLineFeed last_byte [] = Unit
NoBareLineFeed last_byte (b ∷ bytes) =
    (b ≡ line_feed → last_byte ≡ carriage_return) × NoBareLineFeed b bytes

pub normalize_crlf-NoBareLineFeed :
    (bytes : List ℕ) (last_byte : ℕ) → NoBareLineFeed last_byte (normalize_crlf bytes last_byte).0
unfolding normalize_crlf
normalize_crlf-NoBareLineFeed [] last_byte = tt
normalize_crlf-NoBareLineFeed (b ∷ bytes) last_byte =
    elim (Bool-cases (b == line_feed && last_byte != carriage_return)) [
      | inl e ↦
          rw e ((λ q. absurd (omega arith)), ((λ q. refl), normalize_crlf-NoBareLineFeed bytes b))
      | inr e ↦ rw e ((λ q. ground arith), normalize_crlf-NoBareLineFeed bytes b)
    ]

-- A text with no bare line feed is left as it is.
pub normalize_crlf_of_clean :
    (bytes : List ℕ) (last_byte : ℕ)
    → NoBareLineFeed last_byte bytes
    → (normalize_crlf bytes last_byte).0 ≡ bytes
unfolding normalize_crlf
normalize_crlf_of_clean [] last_byte h = refl
normalize_crlf_of_clean (b ∷ bytes) last_byte h =
    ground (arith, normalize_crlf_of_clean bytes b h.1, h.0)

-- Of any bytes, what is written has no line feed without a carriage return right before it, and
-- normalising it again changes nothing.
pub normalize_crlf_idem :
    (bytes : List ℕ) (last_byte : ℕ)
    → let normalized = (normalize_crlf bytes last_byte).0 in
      NoBareLineFeed last_byte normalized × ((normalize_crlf normalized last_byte).0 ≡ normalized)
normalize_crlf_idem bytes last_byte =
    let clean = normalize_crlf-NoBareLineFeed bytes last_byte in
    (clean, normalize_crlf_of_clean (normalize_crlf bytes last_byte).0 last_byte clean)

-- Normalising two chunks one after the other, with the last byte carried over, is normalising the
-- whole.
pub normalize_crlf-append :
    (xs ys : List ℕ) (last_byte : ℕ)
    → let (first, last) = normalize_crlf xs last_byte in
      let (second, last') = normalize_crlf ys last in
      normalize_crlf (xs ++ ys) last_byte ≡ (first ++ second, last')
unfolding normalize_crlf
normalize_crlf-append [] ys last_byte = refl
normalize_crlf-append (b ∷ xs) ys last_byte = ground (arith, normalize_crlf-append xs ys b)
