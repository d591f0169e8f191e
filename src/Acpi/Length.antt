-- ===== src/Acpi/Length.antt =====
-- The length of a package, written and read again.
use node_vmm.Prelude.{
  ℕ, zero, suc, ◌+◌, ◌-◌, ◌*◌, ◌/◌, ◌%◌, ◌^◌, ◌≤◌, ◌<◌, ◌≡◌, refl, ap, ◌∙◌, arith, bit_and, bit_or,
  Bool, true, false, leb, ◌==◌, if◌then◌else◌, Option, none, some, List, [], ◌∷◌, ◌++◌, length,
  Bool-cases, inl, inr,
}
use node_vmm.Bits.Fields.{bit_and_mask, bit_or_fields}
use node_vmm.Bytes.{u8, u64}
use node_vmm.Acpi.{length_len, lead, length_bytes, append_pkg_length}

-- How a reader takes the length of a package apart: the two high bits of the first byte count the
-- bytes that follow. Alone it holds six bits, else four, and the others follow lowest first.
pub follow : ℕ → ℕ → ℕ → List ℕ → Option (ℕ × List ℕ)
follow zero value weight rest = some (value, rest)
follow (suc n) value weight [] = none
follow (suc n) value weight (b ∷ rest) = follow n (value + b * weight) (weight * 256) rest

abbrev pub read_pkg_length : List ℕ → Option (ℕ × List ℕ)
read_pkg_length bytes = elim bytes [
  | [] ↦ none
  | b ∷ rest ↦ if b / 64 == 0 then some (b % 64, rest) else follow (b / 64) (b % 16) 16 rest
]

lead_lem : (n len : ℕ) → n < 4 → lead n len ≡ n * 64 + len % 16
lead_lem n len h =
    ap u8
      (ap (bit_or (n * 2 ^ 6)) (bit_and_mask len 4) ∙ bit_or_fields n 6 (len % 16) (omega arith))
    ∙ omega arith

byte_lem : (x : ℕ) → u8 (bit_and x 0xff) ≡ x % 256
byte_lem x = ap u8 (bit_and_mask x 8) ∙ omega arith

-- What follows the first byte.
follow_one : (v a : ℕ) (rest : List ℕ) → follow 1 v 16 (a ∷ rest) ≡ some (v + a * 16, rest)
unfolding follow
follow_one v a rest = refl

follow_two :
    (v a b : ℕ) (rest : List ℕ)
    → follow 2 v 16 (a ∷ b ∷ rest) ≡ some (v + a * 16 + b * (16 * 256), rest)
unfolding follow
follow_two v a b rest = refl

follow_three :
    (v a b c : ℕ) (rest : List ℕ)
    → follow 3 v 16 (a ∷ b ∷ c ∷ rest)
      ≡ some (v + a * 16 + b * (16 * 256) + c * (16 * 256 * 256), rest)
unfolding follow
follow_three v a b c rest = refl

-- Reading a length of each of the four sizes.
Reads : ℕ → ℕ → List ℕ → Type 0
Reads n len rest = read_pkg_length (length_bytes n len ++ rest) ≡ some (len, rest)

test_lead : (n k : ℕ) → 0 < n → n < 4 → k < 16 → ((n * 64 + k) / 64 == 0) ≡ false
test_lead n k h l s = let e : (n * 64 + k) / 64 ≡ n = omega arith in rw e (ground arith)

read_lead :
    (n len : ℕ) (bytes : List ℕ)
    → 0 < n
    → n < 4
    → read_pkg_length (lead n len ∷ bytes) ≡ follow n (len % 16) 16 bytes
read_lead n len bytes h l =
    let q : (n * 64 + len % 16) / 64 ≡ n = omega arith in
    let r : (n * 64 + len % 16) % 16 ≡ len % 16 = omega arith in
    rw (lead_lem n len l, test_lead n (len % 16) h l (omega arith), q, r) refl

read_back_one : (len : ℕ) (rest : List ℕ) → len < 2 ^ 6 → Reads 1 len rest
unfolding Reads length_bytes
read_back_one len rest h =
    let q : (u8 len / 64 == 0) ≡ true = ground arith in
    let r : u8 len % 64 ≡ len = omega arith in rw (q, r) refl

read_back_two : (len : ℕ) (rest : List ℕ) → len < 2 ^ 12 → Reads 2 len rest
unfolding Reads length_bytes
read_back_two len rest h =
    read_lead 1 len _ (omega arith) (omega arith)
    ∙ (follow_one (len % 16) _ rest
        ∙ ap (λ t. some (t, rest))
            (let e : len % 16 + len / 2 ^ 4 % 256 * 16 ≡ len = omega arith in
              ap (λ x. len % 16 + x * 16) (byte_lem (len / 2 ^ 4)) ∙ e))

read_back_three : (len : ℕ) (rest : List ℕ) → len < 2 ^ 20 → Reads 3 len rest
unfolding Reads length_bytes
read_back_three len rest h =
    read_lead 2 len _ (omega arith) (omega arith)
    ∙ (follow_two (len % 16) _ _ rest
        ∙ ap (λ t. some (t, rest))
            (rw (byte_lem (len / 2 ^ 4), byte_lem (len / 2 ^ 12)) (omega arith)))

read_back_four : (len : ℕ) (rest : List ℕ) → len < 2 ^ 28 → Reads 4 len rest
unfolding Reads length_bytes
read_back_four len rest h =
    read_lead 3 len _ (omega arith) (omega arith)
    ∙ (follow_three (len % 16) _ _ _ rest
        ∙ ap (λ t. some (t, rest))
            (rw (byte_lem (len / 2 ^ 4), byte_lem (len / 2 ^ 12), byte_lem (len / 2 ^ 20))
              (omega arith)))

-- A size that is enough for the payload: the length is read again, and has that size.
IsEnough : ℕ → Bool → List ℕ → ℕ → Type 0
IsEnough p b rest n =
    let len : ℕ = u64 (p + (if b then n else 0)) in
    (read_pkg_length (length_bytes n len ++ rest) ≡ some (p + (if b then n else 0), rest))
    × (length (length_bytes n len) ≡ n)

total_lt : (p n : ℕ) (b : Bool) → p + (if b then n else 0) ≤ p + n
total_lt p n true = omega arith
total_lt p n false = omega arith

enough :
    (p n : ℕ) (b : Bool) (rest : List ℕ)
    → p + n < 2 ^ 28
    → Reads n (p + (if b then n else 0)) rest
    → length (length_bytes n (p + (if b then n else 0))) ≡ n
    → IsEnough p b rest n
unfolding IsEnough Reads
enough p n b rest h r l =
    let e : u64 (p + (if b then n else 0)) ≡ p + (if b then n else 0) =
      omega (arith, total_lt p n b) in
    rw e (r, l)

length_one : (len : ℕ) → length (length_bytes 1 len) ≡ 1
unfolding length_bytes
length_one len = refl

length_two : (len : ℕ) → length (length_bytes 2 len) ≡ 2
unfolding length_bytes
length_two len = refl

length_three : (len : ℕ) → length (length_bytes 3 len) ≡ 3
unfolding length_bytes
length_three len = refl

length_four : (len : ℕ) → length (length_bytes 4 len) ≡ 4
unfolding length_bytes
length_four len = refl

length_len-IsEnough :
    (p : ℕ) (b : Bool) (rest : List ℕ) → p + 4 < 2 ^ 28 → IsEnough p b rest (length_len p)
unfolding length_len
length_len-IsEnough p b rest h = elim (Bool-cases (leb (1 * 2 ^ 20 - 3) p)) [
  | inl t ↦
      rw t (
        enough p 4 b rest h (read_back_four _ rest (omega (arith, total_lt p 4 b))) (length_four _))
  | inr f ↦ elim (Bool-cases (leb (1 * 2 ^ 12 - 2) p)) [
    | inl t ↦
        rw (f, t)
          (enough p 3 b rest (omega arith)
            (read_back_three _ rest
              (let u : p + 3 < 2 ^ 20 = ground arith in omega (arith, total_lt p 3 b)))
            (length_three _))
    | inr g ↦ elim (Bool-cases (leb (1 * 2 ^ 6 - 1) p)) [
      | inl t ↦
          rw (f, g, t)
            (enough p 2 b rest (omega arith)
              (read_back_two _ rest
                (let u : p + 2 < 2 ^ 12 = ground arith in omega (arith, total_lt p 2 b)))
              (length_two _))
      | inr k ↦
          rw (f, g, k)
            (enough p 1 b rest (omega arith)
              (read_back_one _ rest
                (let u : p + 1 < 2 ^ 6 = ground arith in omega (arith, total_lt p 1 b)))
              (length_one _))
    ]
  ]
]

-- The length of a package that is written for a payload, with its own bytes counted or not, is the
-- one that a reader finds, and the reader goes on where the length ends. The payload lies 4 bytes
-- below the 28 bits that the format has.
pub read_pkg_length-append :
    (p : ℕ) (b : Bool) (rest : List ℕ)
    → p + 4 < 2 ^ 28
    → read_pkg_length (append_pkg_length [] p b ++ rest)
      ≡ some (p + (if b then length (append_pkg_length [] p b) else 0), rest)
unfolding append_pkg_length IsEnough
read_pkg_length-append p b rest h = let (r, l) = length_len-IsEnough p b rest h in rw l r
