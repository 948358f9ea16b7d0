-- ===== src/Prelude/Text.antt =====
-- Texts of the program as lists of code units, so that a template literal with a variable part is
-- an append, and keys with different literal prefixes are told apart by computation.
use Prim.Native.Char.{code}
use Prim.Native.Nat.{ℕ}
use Prim.Native.String.{String}
use mathlib.Core.Path.{◌≡◌, refl}
use mathlib.Core.Logic.{◌↔◌, ◌≢◌}
use mathlib.Core.Bool.{Bool, true, false, ◌&&◌, ◌||◌}
use mathlib.Core.List.{List, [], ◌∷◌, ◌++◌}
use native.Mathlib.Omega.{arith}
use app_tu_phuc_vu.Prelude.Tests.{◌==◌, ==_iff}

abbrev pub Text : Type 0
Text = List ℕ

abbrev pub codes : String → Text
codes String.[] = []
codes (String.◌∷◌ c s) = code c ∷ codes s

unfoldable pub text_eq : Text → Text → Bool
text_eq [] [] = true
text_eq [] (y ∷ ys) = false
text_eq (x ∷ xs) [] = false
text_eq (x ∷ xs) (y ∷ ys) = x == y && text_eq xs ys

pub text_eq_refl : (xs : Text) → text_eq xs xs ≡ true
unfolding text_eq
text_eq_refl [] = refl
text_eq_refl (x ∷ xs) = ground (arith, text_eq_refl xs, ==_iff x x)

pub text_eq→eq : (xs ys : Text) → text_eq xs ys ≡ true → xs ≡ ys
unfolding text_eq
text_eq→eq [] [] h = refl
text_eq→eq [] (y ∷ ys) h = cc
text_eq→eq (x ∷ xs) [] h = cc
text_eq→eq (x ∷ xs) (y ∷ ys) h = ground (arith, text_eq→eq xs ys, ==_iff x y)

pub text_eq_iff : (xs ys : Text) → (text_eq xs ys ≡ true) ↔ (xs ≡ ys)
text_eq_iff xs ys = (text_eq→eq xs ys, λ e. rw e (text_eq_refl ys))

-- A common prefix does not matter.
pub text_eq-append : (p xs ys : Text) → text_eq (p ++ xs) (p ++ ys) ≡ text_eq xs ys
unfolding text_eq
text_eq-append [] xs ys = refl
text_eq-append (c ∷ p) xs ys = ground (arith, text_eq-append p xs ys, ==_iff c c)

-- k.startsWith(p)
unfoldable pub starts_with : Text → Text → Bool
starts_with [] k = true
starts_with (c ∷ p) [] = false
starts_with (c ∷ p) (x ∷ k) = x == c && starts_with p k

pub starts_with-append_self : (p k : Text) → starts_with p (p ++ k) ≡ true
unfolding starts_with
starts_with-append_self [] k = refl
starts_with-append_self (c ∷ p) k = ground (arith, ==_iff c c, starts_with-append_self p k)

-- text.includes(part)
unfoldable pub includes : Text → Text → Bool
unfolding starts_with
includes [] part = starts_with part []
includes (c ∷ text) part = starts_with part (c ∷ text) || includes text part

-- No code unit of the text is `c`.
abbrev pub Free : ℕ → Text → Type 0
Free c [] = Unit
Free c (x ∷ xs) = (x ≢ c) × Free c xs

-- Two texts that are free of the separator are determined by their join.
pub join-injective :
    (c : ℕ) (xs xs' ys ys' : Text)
    → Free c xs
    → Free c xs'
    → xs ++ c ∷ ys ≡ xs' ++ c ∷ ys'
    → (xs ≡ xs') × (ys ≡ ys')
join-injective c [] [] ys ys' f f' e = (refl, cc)
join-injective c [] (x ∷ xs') ys ys' f f' e = absurd (f'.0 (cc))
join-injective c (x ∷ xs) [] ys ys' f f' e = absurd (f.0 (cc))
join-injective c (x ∷ xs) (x' ∷ xs') ys ys' f f' e =
    let (h, t) = join-injective c xs xs' ys ys' f.1 f'.1 (cc) in (cc, t)
