-- ===== src/Cache/Tests.antt =====
-- Runs of the in-memory cache (src/libs/shared/caching/memory-cache.service.ts), and its theorems
-- at concrete inputs.
use app_tu_phuc_vu.Prelude.{ℕ, ◌≤◌, ◌≡◌, refl, true, none, some, List, [], ◌∷◌, length}
use app_tu_phuc_vu.Prelude.Int.{ℤ, pos, negsuc, ◌+ℤ◌}
use app_tu_phuc_vu.Prelude.OrderedMap
use app_tu_phuc_vu.Prelude.Text.{Text, codes, text_eq}
use app_tu_phuc_vu.Cache.Memory.{
  delete_by_pattern, MemoryCache, CacheOptions, create, get, set, ttl, incr, set_if_not_exist,
  get_full_key, max_or_default,
}
use app_tu_phuc_vu.Cache.Memory.Capacity.Requests.{
  Request, set_one, claim_one, get_one, serve_all, size-le_max,
}
use app_tu_phuc_vu.Cache.Glob.{star, matches}

memory : Unit {0}
unfolding create get set set_if_not_exist ttl incr OrderedMap.get OrderedMap.put OrderedMap.has
    OrderedMap.delete text_eq get_full_key ◌+ℤ◌ serve_all
memory = tt

abbrev small : CacheOptions
small = record { key_prefix = some (codes "app"); max_entries = some 2 }

abbrev start : MemoryCache ℤ
start = create small

-- An entry is read up to its expiry, and not after it.
expiry_test :
    ((get 3000 (codes "a") (set 1000 (codes "a") (pos 7) (some 2) start)).0 ≡ some (pos 7))
    × ((get 3001 (codes "a") (set 1000 (codes "a") (pos 7) (some 2) start)).0 ≡ none)
    × (ttl 1500 (codes "a") (set 1000 (codes "a") (pos 7) (some 2) start) ≡ pos 2)
    × (ttl 9000 (codes "a") (set 1000 (codes "a") (pos 7) (some 2) start) ≡ negsuc 1)
unfolding memory
expiry_test = (refl, refl, refl, refl)

-- `incr` drops the time to live.
incr_test :
    ttl 9 (codes "n") (incr 5 (codes "n") (pos 1) (set 1 (codes "n") (pos 1) (some 9) start)).1
    ≡ negsuc 0
unfolding memory
incr_test = refl

abbrev requests : List (ℕ × Request ℤ)
requests =
    (1, set_one (codes "a") (pos 1) none)
    ∷ (2, set_one (codes "b") (pos 2) none)
    ∷ (3, claim_one (codes "c") (pos 3) none)
    ∷ (4, get_one (codes "a"))
    ∷ []

-- The first key in went out for the third.
eviction_test : (get 5 (codes "a") (serve_all requests start)).0 ≡ none
unfolding memory
eviction_test = refl

named : (k : Text) (c : ℕ) → ¬ (c ∷ k ≡ [])
named k c e = cc

size-le_max_example : length (serve_all requests (create small)).cache ≤ max_or_default (some 2)
size-le_max_example = size-le_max small requests (named _ _, (named _ _, (named _ _, (tt, tt))))

claimed :
    set_if_not_exist 1000 (codes "m") (pos 1) (some 5) start
    ≡ (true, (set_if_not_exist 1000 (codes "m") (pos 1) (some 5) start).1)
unfolding memory
claimed = refl

-- Two entries of a service with the prefix "p".
abbrev prefixed : MemoryCache ℤ
prefixed = set 0 (codes "b") (pos 2) none (
    set 0 (codes "ab") (pos 1) none
      (create (record { key_prefix = some (codes "p"); max_entries = none })))

pattern_test : (delete_by_pattern (codes "a*") prefixed).0 ≡ 1
unfolding memory delete_by_pattern star matches
pattern_test = refl

prefix_test : prefixed.key_prefix ≡ codes "p"
unfolding memory
prefix_test = refl
