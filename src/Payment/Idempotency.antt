-- ===== src/Payment/Idempotency.antt =====
-- src/libs/shared/idempotency/idempotency.service.ts over a cache service, with the default options.
use app_tu_phuc_vu.Prelude.{ℕ, ◌+◌, ◌*◌, ◌++◌, Bool, true, false, Option, none, some}
use app_tu_phuc_vu.Prelude.Text.{Text, codes}
use app_tu_phuc_vu.Cache.Contract.{Cache}

abbrev pub default_ttl : ℕ
default_ttl = 3600

-- `${prefix}:${idempotencyKey}`
unfoldable pub build_cache_key : Text → Text
build_cache_key key = codes "idempotency:" ++ key

pub record IdempotencyResult (A : Type 0) : Type 0 where
  pub result : A
  pub stored_at : ℕ
  pub expires_at : ℕ
  pub command_type : Text

-- The log line of a hit prints `storedAt` as a date, and its exception is answered as a miss.
abbrev pub logged :
    {A : Type 0} → Bool → Option (IdempotencyResult A) → Option (IdempotencyResult A)
logged keeps_dates none = none
logged true (some cached) = some cached
logged false (some cached) = none

module _ {A : Type 0} (c : Cache (IdempotencyResult A)) where
  -- Whether the cache gives back a date as a date, as the one in memory does, or as a text, as the one
  -- over Redis, which parses JSON.
  unfoldable pub get_existing : Bool → ℕ → Text → c.State → Option (IdempotencyResult A) × c.State
  unfolding build_cache_key
  get_existing keeps_dates now key s =
      let (found, s') = c.get now (build_cache_key key) s in (logged keeps_dates found, s')

  unfoldable pub store : ℕ → Text → A → Text → c.State → c.State
  unfolding build_cache_key
  store now key result command_type s =
      c.set now (build_cache_key key)
        (record {
          result = result;
          stored_at = now;
          expires_at = now + default_ttl * 1000;
          command_type = command_type;
        })
        default_ttl s

  unfoldable pub remove : Text → c.State → c.State
  unfolding build_cache_key
  remove key s = c.delete (build_cache_key key) s
