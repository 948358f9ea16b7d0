-- ===== src/Security/Tests.antt =====
-- A pipeline and metadata in memory for the guard of src/libs/shared/security/rate-limiter.guard.ts.
use app_tu_phuc_vu.Prelude.{
  ℕ, ◌+◌, ◌≡◌, ◌≢◌, refl, sym, Bool, true, false, ◌&&◌, Bool-cases, inl, inr, Option, none, some,
  List, [], ◌∷◌, if◌then◌else◌, ok, ◌==◌, arith,
}
use app_tu_phuc_vu.Prelude.Text.{Text, codes, text_eq, text_eq_iff}
use app_tu_phuc_vu.Security.RateLimit.{
  RateLimitConfig, Controller, Target, constructor_of, prototype_of, Metadata, on_class, on_method,
  can_activate, Pipeline, redis, memory, check_rate_limit,
}
use app_tu_phuc_vu.Security.RateLimit.Configs.{decorate_all, decorated-can_activate}

-- How many requests a key had; the pipeline counts one more.
abbrev Counts : Type 0
Counts = Text → ℕ

abbrev exec : Pipeline Counts
exec key now window s =
    (some (some (s key + 1)), λ other. if text_eq other key then s key + 1 else s other)

text_neq : (x y : Text) → x ≢ y → text_eq x y ≡ false
text_neq x y h = elim (Bool-cases (text_eq x y)) [
  | inl same ↦ absurd (h ((text_eq_iff x y).0 same))
  | inr other ↦ other
]

abbrev twice_a_minute : RateLimitConfig
twice_a_minute = record { limit = 2; window_ms = 60; key_generator = none; message = [] }

abbrev no_counts : Counts
no_counts key = 0

abbrev a : Text
a = codes "a"

-- Over its limit of two a key is allowed all the same, with either service.
fallback_test :
    ((check_rate_limit (redis exec) 5000 a twice_a_minute (λ key. 9)).0.allowed ≡ true)
    × ((check_rate_limit {S = Counts} memory 5000 a twice_a_minute (λ key. 9)).0.count ≡ 0)
fallback_test = (refl, refl)

abbrev Definitions : Type 0
Definitions = List (Text × Target × RateLimitConfig)

abbrev target_eq : Target → Target → Bool
target_eq (constructor_of c) (constructor_of d) = c == d
target_eq (prototype_of c) (prototype_of d) = c == d
target_eq (constructor_of c) (prototype_of d) = false
target_eq (prototype_of c) (constructor_of d) = false

unfoldable lookup : Text → Target → Definitions → Option RateLimitConfig
lookup key t [] = none
lookup key t ((key', t', config) ∷ m) =
    if text_eq key key' && target_eq t t' then some config else lookup key t m

in_memory : Metadata Definitions
unfolding lookup
in_memory = record {
  define = λ key config t m. (key, t, config) ∷ m;
  lookup = lookup;
  lookup-define_other = λ key key' config t t' m h. rw (text_neq key key' (λ e. h (sym e))) refl;
  lookup-define_prototype = λ key key' config c d m. ground arith;
}

abbrev controller : Controller
controller = record { id = 1; name = codes "SmsController" }

decorated-can_activate_example :
    can_activate in_memory
      (decorate_all in_memory
        (on_class controller twice_a_minute
          ∷ on_method controller (codes "send") twice_a_minute
          ∷ [])
        [])
      (redis exec)
      5000
      controller
      (codes "send")
      (record { ip = a; user_id = none })
      no_counts
    ≡ ((ok true, none), no_counts)
unfolding lookup in_memory
decorated-can_activate_example =
    decorated-can_activate in_memory
      (on_class controller twice_a_minute ∷ on_method controller (codes "send") twice_a_minute ∷ [])
      [] (redis exec) 5000 controller (codes "send") (record { ip = a; user_id = none }) no_counts
      (λ key t. refl) (λ h. absurd (cc))
