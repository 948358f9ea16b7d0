-- ===== src/Inbound.antt =====
-- src/libs/shared/port/inbound-idempotency.service.ts on the in-memory cache, or on none.
pub mod Claims
mod Tests
use app_tu_phuc_vu.Prelude.{ℕ, Bool, true, ◌++◌, Option, none, some}
use app_tu_phuc_vu.Prelude.Text.{Text, codes}
use app_tu_phuc_vu.Cache.Memory.{MemoryCache, get, set, set_if_not_exist}

-- What the service keeps under a key: the mark of a claim, or the result of a request.
pub data Inbound (A : Type 0) : Type 0 where
  claimed : Inbound A
  result : A → Inbound A

abbrev pub default_ttl : ℕ
default_ttl = 86400

-- `hash` is `generateShortHash`, a prefix of the platform's SHA-256.
module _ (hash : Text → Text) where
  unfoldable pub build_cache_key : Text → Text
  build_cache_key raw_key = codes "idempotency:" ++ hash raw_key

  module _ {A : Type 0} where
    -- `some data` is a hit.
    unfoldable pub check :
        ℕ
        → Text
        → Option (MemoryCache (Inbound A))
        → Option (Inbound A) × Option (MemoryCache (Inbound A))
    check now raw_key none = (none, none)
    check now raw_key (some s) =
        let (found, s') = get now (build_cache_key raw_key) s in (found, some s')

    unfoldable pub claim :
        ℕ → Text → Option (MemoryCache (Inbound A)) → Bool × Option (MemoryCache (Inbound A))
    claim now raw_key none = (true, none)
    claim now raw_key (some s) =
        let (won, s') =
          set_if_not_exist now (build_cache_key raw_key) claimed (some default_ttl) s in
        (won, some s')

    unfoldable pub store :
        ℕ → Text → A → Option (MemoryCache (Inbound A)) → Option (MemoryCache (Inbound A))
    store now raw_key x none = none
    store now raw_key x (some s) =
        some (set now (build_cache_key raw_key) (result x) (some default_ttl) s)
