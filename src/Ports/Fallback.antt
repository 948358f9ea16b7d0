-- ===== src/Ports/Fallback.antt =====
-- src/libs/shared/resilience/fallback.provider.ts: the table of fallbacks and the Map behind it.
-- The timers of `setCached` with a time to live are left out; the registry gives none.
use app_tu_phuc_vu.Prelude.{Bool, false, Option, none, some, [], if◌then◌else◌, Result, ok, err}
use app_tu_phuc_vu.Prelude.OrderedMap
use app_tu_phuc_vu.Prelude.OrderedMap.{OrderedMap}
use app_tu_phuc_vu.Prelude.Text.{Text}

-- A fallback is the registry's, which reads the cached value of a port, or one of another client.
pub data FallbackFunction (E D : Type 0) : Type 0 where
  cached_of : Text → FallbackFunction E D
  custom : (E → Result E D) → FallbackFunction E D

pub record FallbackProvider (E D : Type 0) : Type 0 where
  pub fallbacks : OrderedMap (FallbackFunction E D)
  pub fallback_cache : Option (OrderedMap D)

module _ {E D : Type 0} where
  unfoldable pub register :
      Text → FallbackFunction E D → FallbackProvider E D → FallbackProvider E D
  register key fallback p = record p { fallbacks = OrderedMap.put p.fallbacks key fallback }

  unfoldable pub get_cached : Text → FallbackProvider E D → Option D
  get_cached key p = elim p.fallback_cache [ none ↦ none | some m ↦ OrderedMap.get m key ]

  unfoldable pub set_cached : Text → D → FallbackProvider E D → FallbackProvider E D
  set_cached key value p = elim p.fallback_cache [
    | none ↦ p
    | some m ↦ record p { fallback_cache = some (OrderedMap.put m key value) }
  ]

  unfoldable pub clear_cached : Text → FallbackProvider E D → Bool × FallbackProvider E D
  clear_cached key p = elim p.fallback_cache [
    | none ↦ (false, p)
    | some m ↦ (OrderedMap.has m key, record p { fallback_cache = some (OrderedMap.delete m key) })
  ]

  unfoldable pub has : Text → FallbackProvider E D → Bool
  has key p = OrderedMap.has p.fallbacks key

  unfoldable pub unregister : Text → FallbackProvider E D → Bool × FallbackProvider E D
  unregister key p =
      (OrderedMap.has p.fallbacks key, record p { fallbacks = OrderedMap.delete p.fallbacks key })

  unfoldable pub clear : FallbackProvider E D → FallbackProvider E D
  clear p = record p {
    fallbacks = [];
    fallback_cache = elim p.fallback_cache [ none ↦ none | some m ↦ some [] ];
  }

-- `value !== null && value !== undefined`
abbrev pub present : {A : Type 0} → (A → Bool) → Option A → Option A
present is_null none = none
present is_null (some a) = if is_null a then none else some a

module _ {E D : Type 0} (is_null : D → Bool) where
  abbrev pub or_error : Option D → E → Result E D
  or_error none error = err error
  or_error (some d) error = ok d

  -- The original error is thrown again where there is no fallback or it throws.
  abbrev pub run_fallback : Option (FallbackFunction E D) → E → FallbackProvider E D → Result E D
  run_fallback none error p = err error
  run_fallback (some (cached_of key)) error p = or_error (present is_null (get_cached key p)) error
  run_fallback (some (custom f)) error p = elim (f error) [ ok d ↦ ok d | err e ↦ err error ]

  unfoldable pub execute : Text → E → FallbackProvider E D → Result E D
  unfolding get_cached
  execute key error p = run_fallback (OrderedMap.get p.fallbacks key) error p
