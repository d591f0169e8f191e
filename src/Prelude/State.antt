-- ===== src/Prelude/State.antt =====
-- Code that may throw and that changes a state: the changes made before a throw stay.
use Prim.Native.String.{String}
use mathlib.Core.Path.{◌≡◌, refl}
use native.Mathlib.Omega.{arith}
use node_vmm.Prelude.Results.{Result, ok, err}

abbrev pub M : Type 0 → Type 0 → Type 0
M S A = S → Result A × S

abbrev pub continue : {S A B : Type 0} → Result A × S → (A → M S B) → Result B × S
continue (ok a, s) f = f a s
continue (err e, s) f = (err e, s)

-- `do` blocks of such code: `use node_vmm.Prelude.State.{◌>>=◌, ◌>>◌}` in place of those of `Result`.
infixl 5 ◌>>=◌
abbrev pub ◌>>=◌ : {S A B : Type 0} → M S A → (A → M S B) → M S B
(m >>= f) s = continue (m s) f

infixl 5 ◌>>◌
abbrev pub ◌>>◌ : {S A : Type 0} → M S (Unit {0}) → M S A → M S A
(m >> k) s = continue (m s) (λ done. k)

abbrev pub return : {S A : Type 0} → A → M S A
return a s = (ok a, s)

abbrev pub throw : {S A : Type 0} → String → M S A
throw e s = (err e, s)

-- Code that only throws.
abbrev pub lift : {S A : Type 0} → Result A → M S A
lift r s = (r, s)

abbrev pub get : {S : Type 0} → M S S
get s = (ok s, s)

abbrev pub modify : {S : Type 0} → (S → S) → M S (Unit {0})
modify f s = (ok tt, f s)

-- It returns, with a value and a state that `P` holds of.
unfoldable pub Finishes : {S A : Type 0} → (A → S → Type 0) → Result A × S → Type 0
Finishes P (ok a, s) = P a s
Finishes P (err e, s) = ⊥

pub Finishes-continue :
    {S A B : Type 0} (P : A → S → Type 0) (Q : B → S → Type 0) (r : Result A × S) (f : A → M S B)
    → Finishes P r
    → ((a : A) (s : S) → P a s → Finishes Q (f a s))
    → Finishes Q (continue r f)
unfolding Finishes
Finishes-continue P Q (ok a, s) f p q = q a s p
Finishes-continue P Q (err e, s) f p q = absurd p

pub Finishes-weaken :
    {S A : Type 0} (P Q : A → S → Type 0) (r : Result A × S)
    → Finishes P r
    → ((a : A) (s : S) → P a s → Q a s)
    → Finishes Q r
unfolding Finishes
Finishes-weaken P Q (ok a, s) p q = q a s p
Finishes-weaken P Q (err e, s) p q = absurd p

-- Whether it returns or throws, the state after it is related to the state before.
pub continue-keeps :
    {S A B : Type 0} (R : S → Type 0) (r : Result A × S) (f : A → M S B)
    → R r.1
    → ((a : A) (s : S) → R s → R (f a s).1)
    → R (continue r f).1
continue-keeps R (ok a, s) f p q = q a s p
continue-keeps R (err e, s) f p q = p

-- The same for a step that only throws, with what it returned.
pub lift-keeps :
    {S A B : Type 0} (R : S → Type 0) (r : Result A) (s : S) (f : A → M S B)
    → R s
    → ((a : A) → r ≡ ok a → R (f a s).1)
    → R (continue (lift r s) f).1
lift-keeps R (ok a) s f p q = q a refl
lift-keeps R (err e) s f p q = p

pub Finishes-err :
    {S A : Type 0} (P : A → S → Type 0) (r : Result A × S) (e : String)
    → Finishes P r
    → r.0 ≡ err e
    → ⊥
unfolding Finishes
Finishes-err P (ok a, s) e p q = ground (arith, q)
Finishes-err P (err e', s) e p q = p

pub Finishes-lift :
    {S A B : Type 0} (Q : B → S → Type 0) (r : Result A) (a : A) (s : S) (f : A → M S B)
    → r ≡ ok a
    → Finishes Q (f a s)
    → Finishes Q (continue (lift r s) f)
Finishes-lift Q r a s f e p = rw e p
