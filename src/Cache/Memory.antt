-- ===== src/Cache/Memory.antt =====
-- src/libs/shared/caching/memory-cache.service.ts: each method of `MemoryCacheService` is a
-- function of the service and of the clock's reading. The theorems are in the modules below.
pub mod Reads
pub mod Capacity
pub mod Claims
pub mod Patterns
pub mod Instance
pub mod Refinement
use app_tu_phuc_vu.Prelude.{
  ℕ, ◌+◌, ◌-◌, ◌/◌, Bool, true, false, not, ◌&&◌, Option, none, some, List, [], ◌∷◌, ◌++◌, ltb, leb,
  ◌==◌, length, keep, count_if, if◌then◌else◌,
}
use app_tu_phuc_vu.Prelude.Int.{ℤ, pos, negsuc, ◌+ℤ◌, ◌-ℤ◌}
use app_tu_phuc_vu.Prelude.OrderedMap
use app_tu_phuc_vu.Prelude.OrderedMap.{OrderedMap}
use app_tu_phuc_vu.Prelude.Text.{Text}
use app_tu_phuc_vu.Cache.Glob.{matches}
use app_tu_phuc_vu.Cache.Contract.{CacheEntry, is_past, expiry_of}

pub record CacheOptions : Type 0 where
  pub key_prefix : Option Text
  pub max_entries : Option ℕ

pub record MemoryCache (V : Type 0) : Type 0 where
  pub cache : OrderedMap (CacheEntry V)
  pub key_prefix : Text
  pub max_entries : ℕ

-- `options.maxEntries || 1000`
abbrev pub max_or_default : Option ℕ → ℕ
max_or_default none = 1000
max_or_default (some n) = if n == 0 then 1000 else n

abbrev pub prefix_or_empty : Option Text → Text
prefix_or_empty none = []
prefix_or_empty (some p) = p

-- `${this.keyPrefix}:${key}`, or the key alone where the prefix is empty.
unfoldable pub get_full_key : Text → Text → Text
get_full_key [] key = key
get_full_key (c ∷ p) key = (c ∷ p) ++ b':' ∷ key

abbrev ttl_of : ℕ → Option ℕ → ℤ
ttl_of now none = negsuc 0
ttl_of now (some e) =
    if e == 0
    then negsuc 0
    else let remaining = (e - now + 999) / 1000 in
      if ltb 0 remaining then pos remaining else negsuc 1

module _ {V : Type 0} where
  -- The constructor.
  unfoldable pub create : CacheOptions → MemoryCache V
  create options = record {
    cache = [];
    key_prefix = prefix_or_empty options.key_prefix;
    max_entries = max_or_default options.max_entries;
  }

  abbrev pub full_key : MemoryCache V → Text → Text
  full_key s key = get_full_key s.key_prefix key

  abbrev read_entry : ℕ → Text → MemoryCache V → Option (CacheEntry V) → Option V × MemoryCache V
  read_entry now k s none = (none, s)
  read_entry now k s (some e) =
      if is_past now e.expiry
      then (none, record s { cache = OrderedMap.delete s.cache k })
      else (some e.value, s)

  unfoldable pub get : ℕ → Text → MemoryCache V → Option V × MemoryCache V
  get now key s = let k = full_key s key in read_entry now k s (OrderedMap.get s.cache k)

  -- `keys().next().value`, deleted unless it is undefined or the empty text.
  unfoldable pub evict_first : OrderedMap (CacheEntry V) → OrderedMap (CacheEntry V)
  evict_first [] = []
  evict_first (([], e) ∷ m) = ([], e) ∷ m
  evict_first ((c ∷ k, e) ∷ m) = OrderedMap.delete ((c ∷ k, e) ∷ m) (c ∷ k)

  unfoldable pub make_room : ℕ → Text → OrderedMap (CacheEntry V) → OrderedMap (CacheEntry V)
  unfolding evict_first
  make_room limit k m =
      if leb limit (length m) && not (OrderedMap.has m k) then evict_first m else m

  unfoldable pub set : ℕ → Text → V → Option ℕ → MemoryCache V → MemoryCache V
  unfolding make_room
  set now key v ttl s =
      let k = full_key s key in
      record s {
        cache =
            OrderedMap.put (make_room s.max_entries k s.cache) k
              (record { value = v; expiry = expiry_of now ttl });
      }

  -- `existing && (existing.expiry === null || existing.expiry > Date.now())`
  abbrev pub blocks : ℕ → Option (CacheEntry V) → Bool
  blocks now none = false
  blocks now (some e) = elim e.expiry [ none ↦ true | some t ↦ ltb now t ]

  unfoldable pub set_if_not_exist : ℕ → Text → V → Option ℕ → MemoryCache V → Bool × MemoryCache V
  set_if_not_exist now key v ttl s =
      if blocks now (OrderedMap.get s.cache (full_key s key))
      then (false, s)
      else (true, set now key v ttl s)

  unfoldable pub delete : Text → MemoryCache V → MemoryCache V
  delete key s = record s { cache = OrderedMap.delete s.cache (full_key s key) }

  abbrev exists_entry : ℕ → Text → MemoryCache V → Option (CacheEntry V) → Bool × MemoryCache V
  exists_entry now k s none = (false, s)
  exists_entry now k s (some e) =
      if is_past now e.expiry
      then (false, record s { cache = OrderedMap.delete s.cache k })
      else (true, s)

  unfoldable pub exists : ℕ → Text → MemoryCache V → Bool × MemoryCache V
  exists now key s = let k = full_key s key in exists_entry now k s (OrderedMap.get s.cache k)

  unfoldable pub clear : MemoryCache V → MemoryCache V
  clear s = record s { cache = [] }

  unfoldable pub mget : ℕ → List Text → MemoryCache V → List (Option V) × MemoryCache V
  unfolding get
  mget now [] s = ([], s)
  mget now (key ∷ keys) s =
      let (found, s') = get now key s in let (rest, s'') = mget now keys s' in (found ∷ rest, s'')

  unfoldable pub mset : ℕ → List (Text × V × Option ℕ) → MemoryCache V → MemoryCache V
  unfolding set
  mset now [] s = s
  mset now ((key, v, ttl) ∷ entries) s = mset now entries (set now key v ttl s)

  unfoldable pub mdelete : List Text → MemoryCache V → MemoryCache V
  unfolding delete
  mdelete [] s = s
  mdelete (key ∷ keys) s = mdelete keys (delete key s)

  abbrev ttl_entry : ℕ → Option (CacheEntry V) → ℤ
  ttl_entry now none = negsuc 0
  ttl_entry now (some e) = ttl_of now e.expiry

  -- -1 without an expiry, -2 past it, else the seconds left, rounded up.
  unfoldable pub ttl : ℕ → Text → MemoryCache V → ℤ
  ttl now key s = ttl_entry now (OrderedMap.get s.cache (full_key s key))

  -- The interval's sweep.
  unfoldable pub cleanup : ℕ → MemoryCache V → MemoryCache V
  cleanup now s = record s { cache = keep (λ p. not (is_past now p.1.expiry)) s.cache }

  unfoldable pub delete_by_pattern : Text → MemoryCache V → ℕ × MemoryCache V
  delete_by_pattern pattern s =
      let hit = matches (get_full_key s.key_prefix pattern) in
      (count_if (λ p. hit p.0) s.cache, record s { cache = keep (λ p. not (hit p.0)) s.cache })

-- `(current || 0)`
abbrev number_or_zero : Option ℤ → ℤ
number_or_zero none = pos 0
number_or_zero (some n) = n

unfoldable pub incr : ℕ → Text → ℤ → MemoryCache ℤ → ℤ × MemoryCache ℤ
unfolding get set
incr now key by s =
    let (current, s') = get now key s in
    let n = number_or_zero current +ℤ by in (n, set now key n none s')

unfoldable pub decr : ℕ → Text → ℤ → MemoryCache ℤ → ℤ × MemoryCache ℤ
unfolding get set
decr now key by s =
    let (current, s') = get now key s in
    let n = number_or_zero current -ℤ by in (n, set now key n none s')
