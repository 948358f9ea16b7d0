-- ===== src/Cache/Memory/Capacity/Requests.antt =====
-- Any sequence of requests to the in-memory cache (src/libs/shared/caching/memory-cache.service.ts).
use app_tu_phuc_vu.Prelude.{
  ℕ, ◌≤◌, ◌<◌, ◌≢◌, refl, Option, none, some, List, [], ◌∷◌, length, All, arith,
}
use app_tu_phuc_vu.Prelude.Text.{Text}
use app_tu_phuc_vu.Cache.Memory.{
  MemoryCache, CacheOptions, create, get, set, delete, exists, clear, mget, mset, mdelete,
  set_if_not_exist, delete_by_pattern, cleanup, full_key, max_or_default,
}
use app_tu_phuc_vu.Cache.Memory.Capacity.{
  IsBounded, delete_at-IsBounded, set-IsBounded, get-IsBounded, exists-IsBounded,
  set_if_not_exist-IsBounded, cleanup-IsBounded, delete_by_pattern-IsBounded, mget-IsBounded,
  mset-IsBounded, mdelete-IsBounded,
}

-- A request to the service: its methods and the interval's sweep, but for incr and decr, which are a
-- get and a set, and ttl, which only reads.
pub data Request (V : Type 0) : Type 0 where
  get_one : Text → Request V
  set_one : Text → V → Option ℕ → Request V
  claim_one : Text → V → Option ℕ → Request V
  delete_one : Text → Request V
  exists_one : Text → Request V
  clear_all : Request V
  get_many : List Text → Request V
  set_many : List (Text × V × Option ℕ) → Request V
  delete_many : List Text → Request V
  delete_matching : Text → Request V
  sweep : Request V

module _ {V : Type 0} where
  -- No write names the empty key.
  abbrev pub IsNaming : Request V → Type 0
  IsNaming (set_one k v ttl) = k ≢ []
  IsNaming (claim_one k v ttl) = k ≢ []
  IsNaming (set_many es) = All (λ e. e.0 ≢ []) es
  IsNaming _ = Unit

  unfoldable pub serve : ℕ → Request V → MemoryCache V → MemoryCache V
  serve now (get_one k) s = (get now k s).1
  serve now (set_one k v ttl) s = set now k v ttl s
  serve now (claim_one k v ttl) s = (set_if_not_exist now k v ttl s).1
  serve now (delete_one k) s = delete k s
  serve now (exists_one k) s = (exists now k s).1
  serve now clear_all s = clear s
  serve now (get_many ks) s = (mget now ks s).1
  serve now (set_many es) s = mset now es s
  serve now (delete_many ks) s = mdelete ks s
  serve now (delete_matching pattern) s = (delete_by_pattern pattern s).1
  serve now sweep s = cleanup now s

  unfoldable pub serve_all : List (ℕ × Request V) → MemoryCache V → MemoryCache V
  unfolding serve
  serve_all [] s = s
  serve_all ((now, r) ∷ rs) s = serve_all rs (serve now r s)

module _ {V : Type 0} {n : ℕ} where
  serve-IsBounded :
      (now : ℕ) (r : Request V) (s : MemoryCache V)
      → IsNaming r
      → IsBounded n s
      → IsBounded n (serve now r s)
  unfolding serve delete clear
  serve-IsBounded now (get_one k) s h b = get-IsBounded now k s b
  serve-IsBounded now (set_one k v ttl) s h b = set-IsBounded now k v ttl s h b
  serve-IsBounded now (claim_one k v ttl) s h b = set_if_not_exist-IsBounded now k v ttl s h b
  serve-IsBounded now (delete_one k) s h b = delete_at-IsBounded (full_key s k) s b
  serve-IsBounded now (exists_one k) s h b = exists-IsBounded now k s b
  serve-IsBounded now clear_all s h b = record {
    limit = b.limit;
    fits = omega arith;
    some_room = b.some_room;
    named = tt;
  }
  serve-IsBounded now (get_many ks) s h b = mget-IsBounded now ks s b
  serve-IsBounded now (set_many es) s h b = mset-IsBounded now es s h b
  serve-IsBounded now (delete_many ks) s h b = mdelete-IsBounded ks s b
  serve-IsBounded now (delete_matching pattern) s h b = delete_by_pattern-IsBounded pattern s b
  serve-IsBounded now sweep s h b = cleanup-IsBounded now s b

  serve_all-IsBounded :
      (rs : List (ℕ × Request V)) (s : MemoryCache V)
      → All (λ p. IsNaming p.1) rs
      → IsBounded n s
      → IsBounded n (serve_all rs s)
  unfolding serve_all
  serve_all-IsBounded [] s h b = b
  serve_all-IsBounded ((now, r) ∷ rs) s h b =
      serve_all-IsBounded rs (serve now r s) h.1 (serve-IsBounded now r s h.0 b)

create-IsBounded :
    {V : Type 0} (options : CacheOptions)
    → IsBounded (max_or_default options.max_entries) (create {V = V} options)
unfolding create
create-IsBounded options = record {
  limit = refl;
  fits = omega arith;
  some_room = positive options.max_entries;
  named = tt;
}
  where
    positive : (o : Option ℕ) → 0 < max_or_default o
    positive none = omega arith
    positive (some n) = ground arith

-- Whatever the options, and whatever is asked of the service and when, it never holds more entries
-- than the limit of its options (1000 where they give none or 0), as long as no write names the
-- empty key.
pub size-le_max :
    {V : Type 0} (options : CacheOptions) (rs : List (ℕ × Request V))
    → All (λ p. IsNaming p.1) rs
    → length (serve_all rs (create options)).cache ≤ max_or_default options.max_entries
size-le_max options rs h =
    let b = serve_all-IsBounded rs (create options) h (create-IsBounded options) in
    omega (arith, b.fits, b.limit)
