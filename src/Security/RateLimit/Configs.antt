-- ===== src/Security/RateLimit/Configs.antt =====
-- Which configurations the guard of src/libs/shared/security/rate-limiter.guard.ts finds.
use mathlib.Core.Path.{subst}
use app_tu_phuc_vu.Prelude.{ℕ, ◌≡◌, ◌≢◌, ◌∙◌, refl, true, none, List, [], ◌∷◌, ◌++◌, ok, arith}
use app_tu_phuc_vu.Prelude.Text.{Text, codes, Free}
use app_tu_phuc_vu.Security.RateLimit.{
  Request, Controller, Target, constructor_of, Metadata, config_key, dotted, Decoration, on_class,
  on_method, rate_limit, CacheService, can_activate,
}

not-Free : (c : ℕ) (xs ys : Text) → Free c (xs ++ c ∷ ys) → ⊥
not-Free c [] ys free = free.0 refl
not-Free c (x ∷ xs) ys free = not-Free c xs ys free.1

dotted-IsOther : (name handler : Text) → codes "Function" ≢ dotted name handler
dotted-IsOther name handler h =
    let free : Free 46 (codes "Function") = ground arith in
    not-Free 46 name handler (subst (λ text. Free 46 text) h free)

config_key-injective : (key key' : Text) → config_key key ≡ config_key key' → key ≡ key'
config_key-injective key key' h = ground arith

module _ {M : Type 0} (metadata : Metadata M) where
  -- The decorations of a program, one after the other.
  unfoldable pub decorate_all : List Decoration → M → M
  decorate_all [] m = m
  decorate_all (d ∷ ds) m = decorate_all ds (rate_limit metadata d m)

  lookup-rate_limit :
      (key : Text) (c : ℕ) (d : Decoration) (m : M)
      → codes "Function" ≢ key
      → metadata.lookup (config_key key) (constructor_of c) (rate_limit metadata d m)
        ≡ metadata.lookup (config_key key) (constructor_of c) m
  lookup-rate_limit key c (on_class d config) m other =
      metadata.lookup-define_other (config_key key) (config_key (codes "Function")) config
        (constructor_of c) (constructor_of d.id) m
        (λ h. other (config_key-injective (codes "Function") key h))
  lookup-rate_limit key c (on_method d property config) m other =
      metadata.lookup-define_prototype (config_key key) _ config c d.id m

  lookup-decorate_all :
      (key : Text) (c : ℕ) (ds : List Decoration) (m : M)
      → codes "Function" ≢ key
      → metadata.lookup (config_key key) (constructor_of c) (decorate_all ds m)
        ≡ metadata.lookup (config_key key) (constructor_of c) m
  unfolding decorate_all
  lookup-decorate_all key c [] m other = refl
  lookup-decorate_all key c (d ∷ ds) m other =
      lookup-decorate_all key c ds (rate_limit metadata d m) other
      ∙ lookup-rate_limit key c d m other

  -- No decoration limits anything: however a program's classes and methods are decorated, the guard
  -- lets every request to a controller pass without a header and without a call of the cache; for a
  -- controller that is not named Function, and metadata that was empty at first.
  pub decorated-can_activate :
      {S : Type 0} (ds : List Decoration) (m : M) (cache : CacheService S) (now : ℕ)
      (c : Controller) (handler : Text) (request : Request) (s : S)
      → ((key : Text) (t : Target) → metadata.lookup key t m ≡ none)
      → codes "Function" ≢ c.name
      → can_activate metadata (decorate_all ds m) cache now c handler request s
        ≡ ((ok true, none), s)
  unfolding can_activate
  decorated-can_activate ds m cache now c handler request s empty other =
      rw
        (
          lookup-decorate_all (dotted c.name handler) c.id ds m (dotted-IsOther c.name handler),
          lookup-decorate_all c.name c.id ds m other,
          empty (config_key (dotted c.name handler)) (constructor_of c.id),
          empty (config_key c.name) (constructor_of c.id),
        )
        refl
