-- ===== src/Inbound/Tests.antt =====
-- Repeated deliveries (src/libs/shared/port/inbound-idempotency.service.ts) on an empty cache.
use app_tu_phuc_vu.Prelude.{ℕ, ◌≡◌, refl, true, some, [], ◌∷◌, arith}
use app_tu_phuc_vu.Prelude.OrderedMap
use app_tu_phuc_vu.Prelude.Text.{Text, codes, text_eq}
use app_tu_phuc_vu.Cache.Memory
use app_tu_phuc_vu.Cache.Memory.{MemoryCache}
use app_tu_phuc_vu.Inbound.{Inbound, build_cache_key, claim}
use app_tu_phuc_vu.Inbound.Claims.{wins, deliveries-win_once}

deliveries : Unit {0}
unfolding text_eq OrderedMap.get OrderedMap.put OrderedMap.has OrderedMap.delete Memory.set
    Memory.set_if_not_exist Memory.get_full_key build_cache_key claim wins
deliveries = tt

abbrev empty : MemoryCache (Inbound ℕ)
empty = record { cache = []; key_prefix = []; max_entries = 1000 }

abbrev same_hash : Text → Text
same_hash x = x

-- A day later the message would be processed again.
late_test : wins same_hash (codes "m") (1000 ∷ 2000 ∷ 86401001 ∷ []) (some empty) ≡ 2
unfolding deliveries
late_test = refl

first_wins : (claim same_hash 1000 (codes "m") (some empty)).0 ≡ true
unfolding deliveries
first_wins = refl

deliveries-win_once_example :
    wins same_hash (codes "m") (1000 ∷ 2000 ∷ 86400999 ∷ []) (some empty) ≡ 1
deliveries-win_once_example =
    deliveries-win_once same_hash 1000 (codes "m") empty (2000 ∷ 86400999 ∷ []) first_wins
      (omega arith, (omega arith, tt))
