-- ===== src/Boot/Copies.antt =====
-- What `memcpy` of a list of bytes leaves in memory.
use node_vmm.Prelude.{
  ℕ, zero, suc, ◌+◌, ◌<◌, ◌≡◌, refl, ap, ◌∙◌, arith, inl, List, [], ◌∷◌, length, take,
}
use node_vmm.Bytes.{u8, Memory, poke}
use node_vmm.Boot.Params.{copy_bytes}
use node_vmm.Boot.Checks.{copy_bytes_outside}

-- The byte with index `k`.
unfoldable pub byte_at : List ℕ → ℕ → ℕ
byte_at [] k = 0
byte_at (b ∷ bytes) zero = b
byte_at (b ∷ bytes) (suc k) = byte_at bytes k

pub byte_at-take : (n k : ℕ) (bytes : List ℕ) → k < n → byte_at (take n bytes) k ≡ byte_at bytes k
unfolding byte_at
byte_at-take zero k bytes h = absurd (omega arith)
byte_at-take (suc n) k [] h = refl
byte_at-take (suc n) zero (b ∷ bytes) h = refl
byte_at-take (suc n) (suc k) (b ∷ bytes) h = byte_at-take n k bytes (omega arith)

-- The bytes stand at `p`.
abbrev pub Stands : ℕ → List ℕ → Memory → Type 0
Stands p bytes m = (k : ℕ) → k < length bytes → m (p + k) ≡ u8 (byte_at bytes k)

pub copy_bytes-Stands :
    (dst : ℕ) (bytes : List ℕ) (m : Memory) → Stands dst bytes (copy_bytes dst bytes m)
unfolding copy_bytes byte_at
copy_bytes-Stands dst [] m k h = absurd (omega arith)
copy_bytes-Stands dst (b ∷ bytes) m zero h =
    copy_bytes_outside (dst + 1) bytes (poke dst b m) (dst + 0) (inl (omega arith)) ∙ ground arith
copy_bytes-Stands dst (b ∷ bytes) m (suc k) h =
    ap (copy_bytes (dst + 1) bytes (poke dst b m))
      (let e : dst + suc k ≡ dst + 1 + k = omega arith in e)
    ∙ copy_bytes-Stands (dst + 1) bytes (poke dst b m) k (omega arith)
