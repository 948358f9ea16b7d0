-- ===== src/Prelude/Results.antt =====
-- Methods that change a state and may throw: what was written before a throw stays written, so the
-- state comes back beside the error too.

use mathlib.Core.Path.{◌≡◌, refl, ap}

pub data Result (E : Type 0) (A : Type 0) : Type 0 where
  ok : A → Result E A
  err : E → Result E A

abbrev pub Exec : Type 0 → Type 0 → Type 0 → Type 0
Exec E S A = S → Result E A × S

module _ {E S A : Type 0} where
  abbrev pub returns : A → Exec E S A
  returns a s = (ok a, s)

  abbrev pub throws : E → Exec E S A
  throws e s = (err e, s)

  -- A call that reads and writes the state and does not throw.
  abbrev pub calls : (S → A × S) → Exec E S A
  calls f s = let (a, s') = f s in (ok a, s')

abbrev pub modifies : {E S : Type 0} → (S → S) → Exec E S (Unit {0})
modifies f s = (ok tt, f s)

module _ {E S A B : Type 0} where
  abbrev pub continue : Result E A → (A → Exec E S B) → Exec E S B
  continue (ok a) f s = f a s
  continue (err e) f s = (err e, s)

  infixl 10 ◌>>=◌ ◌>>◌
  abbrev pub ◌>>=◌ : Exec E S A → (A → Exec E S B) → Exec E S B
  ◌>>=◌ m f s = let (r, s') = m s in continue r f s'

  abbrev pub ◌>>◌ : Exec E S A → Exec E S B → Exec E S B
  m >> n = m >>= λ _. n

-- A chain that answers has a first part that answers, and a rest that answers from there.
module _ {E S A B : Type 0} where
  continue_ok :
      (r : Result E A) (s : S) (f : A → Exec E S B) (b : B) (s' : S)
      → continue r f s ≡ (ok b, s')
      → (a : A) × (r ≡ ok a) × (f a s ≡ (ok b, s'))
  continue_ok (ok a) s f b s' h = (a, refl, h)
  continue_ok (err e) s f b s' h = absurd (cc)

  pub chain_ok :
      (m : Exec E S A) (f : A → Exec E S B) (s s' : S) (b : B)
      → (m >>= f) s ≡ (ok b, s')
      → (a : A) × (m s ≡ (ok a, (m s).1)) × (f a (m s).1 ≡ (ok b, s'))
  chain_ok m f s s' b h =
      let (a, first, rest) = continue_ok (m s).0 (m s).1 f b s' h in
      (a, ap (λ x. (x, (m s).1)) first, rest)
