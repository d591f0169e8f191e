-- ===== src/VirtioBlk/Walk.antt =====
-- The walk of a chain of descriptors ends.
use Prim.Native.String.{String}
use node_vmm.Prelude.{
  ◌>>◌, [], ℕ, zero, suc, ◌+◌, ◌≤◌, ◌<◌, ◌≡◌, refl, ap, arith, ltb, ◌||◌, ◌==◌, Bool, true, false,
  not, Bool-cases, inl, inr, ok, Result, Result-cases, List, bit_and, ℕ_discrete, if◌then◌else◌,
}
use node_vmm.Bytes.{Memory, check}
use node_vmm.VirtioRng.State.{Desc, ring_desc_next}
use node_vmm.VirtioBlk.Chain.{push, next_desc, walk_chain, walk_chain_inline}

-- How many of the first `n` descriptors have not been seen.
unfoldable pub unseen : ℕ → (ℕ → Bool) → ℕ
unseen zero seen = 0
unseen (suc n) seen = unseen n seen + (if seen n then 0 else 1)

unseen-all : (n : ℕ) → unseen n (λ i. false) ≡ n
unfolding unseen
unseen-all zero = refl
unseen-all (suc n) = omega (arith, unseen-all n)

unseen_beyond :
    (n idx : ℕ) (seen : ℕ → Bool) → n ≤ idx → unseen n (λ i. i == idx || seen i) ≡ unseen n seen
unfolding unseen
unseen_beyond zero idx seen h = refl
unseen_beyond (suc n) idx seen h = ground (arith, unseen_beyond n idx seen (omega arith))

-- A descriptor that is seen for the first time.
unseen-seen :
    (n idx : ℕ) (seen : ℕ → Bool)
    → idx < n
    → seen idx ≡ false
    → unseen n seen ≡ suc (unseen n (λ i. i == idx || seen i))
unfolding unseen
unseen-seen zero idx seen h e = absurd (omega arith)
unseen-seen (suc n) idx seen h e = elim (ℕ_discrete n idx) [
  | yes q ↦ ground (arith, unseen_beyond n idx seen (omega arith), ap seen q)
  | no q ↦ ground (arith, unseen-seen n idx seen (omega arith) e)
]

-- A check that has passed.
check-ok :
    {A : Type 0} (b : Bool) (message : String) (r : Result A) (a : A)
    → (check b message >> r) ≡ ok a
    → (b ≡ true) × (r ≡ ok a)
unfolding check
check-ok true message r a h = (refl, h)
check-ok false message r a h = absurd (ground (arith, h))

next_desc-ok :
    (mem_size desc_addr q_size : ℕ) (seen : ℕ → Bool) (idx : ℕ) (m : Memory) (d : Desc)
    → next_desc mem_size desc_addr q_size seen idx m ≡ ok d
    → (idx < q_size) × (seen idx ≡ false)
unfolding next_desc
next_desc-ok mem_size desc_addr q_size seen idx m d h =
    let (p, h') = check-ok (ltb idx q_size) _ _ d h in
    let (p', h'') = check-ok (not (seen idx)) _ _ d h' in (ground arith, ground arith)

-- Two numbers of rounds above that of the descriptors not yet seen give the same.
walk_chain_enough :
    (fuel fuel' mem_size desc_addr q_size : ℕ) (seen : ℕ → Bool) (idx : ℕ) (chain : List Desc)
    (m : Memory)
    → unseen q_size seen < fuel
    → unseen q_size seen < fuel'
    → walk_chain fuel mem_size desc_addr q_size seen idx chain m
      ≡ walk_chain fuel' mem_size desc_addr q_size seen idx chain m
unfolding walk_chain
walk_chain_enough zero fuel' mem_size desc_addr q_size seen idx chain m h h' = absurd (omega arith)
walk_chain_enough (suc fuel) zero mem_size desc_addr q_size seen idx chain m h h' =
    absurd (omega arith)
walk_chain_enough (suc fuel) (suc fuel') mem_size desc_addr q_size seen idx chain m h h' =
    elim (Result-cases (next_desc mem_size desc_addr q_size seen idx m)) [
      | inl (e, q) ↦ rw q refl
      | inr (d, q) ↦ elim (Result-cases (push d chain)) [
        | inl (e, q') ↦ rw (q, q') refl
        | inr (chain', q') ↦
            let (l, new) = next_desc-ok mem_size desc_addr q_size seen idx m d q in
            let fewer : unseen q_size seen ≡ suc (unseen q_size (λ i. i == idx || seen i)) =
              unseen-seen q_size idx seen l new in
            rw (q, q')
              (elim (Bool-cases (bit_and d.flags ring_desc_next == 0)) [
                | inl z ↦ rw z refl
                | inr z ↦ rw z (
                    walk_chain_enough fuel fuel' mem_size desc_addr q_size (λ i. i == idx || seen i)
                      d.next chain' m (omega (arith, fewer)) (omega (arith, fewer)))
              ])
      ]
    ]

-- The walk of a chain ends: with more rounds than the queue has descriptors, it gives the same
-- chain or the same error whatever the number of rounds.
pub walk_chain_inline_ends :
    (fuel mem_size desc_addr q_size head : ℕ) (m : Memory)
    → q_size < fuel
    → walk_chain fuel mem_size desc_addr q_size (λ i. false) head [] m
      ≡ walk_chain_inline mem_size desc_addr q_size head m
unfolding walk_chain_inline
walk_chain_inline_ends fuel mem_size desc_addr q_size head m h =
    let all : unseen q_size (λ i. false) ≡ q_size = unseen-all q_size in
    walk_chain_enough fuel (suc q_size) mem_size desc_addr q_size (λ i. false) head [] m
      (omega (arith, all)) (omega (arith, all))
