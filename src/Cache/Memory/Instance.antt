-- ===== src/Cache/Memory/Instance.antt =====
-- The in-memory service keeps the contract of `ICacheService`.
use app_tu_phuc_vu.Prelude.{ℕ, suc, ◌+◌, ◌≤◌, some, length, length-keep, not, arith}
use app_tu_phuc_vu.Prelude.OrderedMap.{length-put, length-delete_le}
use app_tu_phuc_vu.Prelude.Text.{Text}
use app_tu_phuc_vu.Cache.Contract.{Cache, CacheEntry, expiry_of}
use app_tu_phuc_vu.Cache.Glob.{matches}
use app_tu_phuc_vu.Cache.Memory.{
  delete_by_pattern, MemoryCache, get, set, delete, ttl, get_full_key, make_room,
}
use app_tu_phuc_vu.Cache.Memory.Reads.{
  peek, get_lem, peek-later, peek-get, peek-set, peek-delete, ttl_lem,
}

module _ {V : Type 0} where
  -- `n` more entries fit.
  abbrev pub HasRoom : ℕ → MemoryCache V → Type 0
  HasRoom n s = length s.cache + n ≤ s.max_entries

  pub HasRoom-weaken : (m n : ℕ) (s : MemoryCache V) → m ≤ n → HasRoom n s → HasRoom m s
  HasRoom-weaken m n s le h = omega arith

  pub HasRoom-get :
      (n now : ℕ) (k : Text) (s : MemoryCache V) → HasRoom n s → HasRoom n (get now k s).1
  unfolding get
  HasRoom-get n now k s h = ground (arith, length-delete_le s.cache (get_full_key s.key_prefix k))

  pub HasRoom-set :
      (n now ttl : ℕ) (k : Text) (v : V) (s : MemoryCache V)
      → HasRoom (suc n) s
      → HasRoom n (set now k v (some ttl) s)
  unfolding set make_room
  HasRoom-set n now ttl k v s h = ground (
    arith,
    length-put s.cache (get_full_key s.key_prefix k)
        (record { value = v; expiry = expiry_of now (some ttl) }),
  )

  pub HasRoom-delete : (n : ℕ) (k : Text) (s : MemoryCache V) → HasRoom n s → HasRoom n (delete k s)
  unfolding delete
  HasRoom-delete n k s h = ground (arith, length-delete_le s.cache (get_full_key s.key_prefix k))

pub HasRoom-delete_by_pattern :
    {V : Type 0} (n : ℕ) (pattern : Text) (s : MemoryCache V)
    → HasRoom n s
    → HasRoom n (delete_by_pattern pattern s).1
unfolding delete_by_pattern
HasRoom-delete_by_pattern {V} n pattern s h = omega (
  arith,
  h,
  length-keep (λ (p : Text × CacheEntry V). not (matches (get_full_key s.key_prefix pattern) p.0))
      s.cache,
)

abbrev pub memory_cache : (V : Type 0) → Cache V
memory_cache V = record {
  State = MemoryCache V;
  get = get;
  set = λ now k v ttl s. set now k v (some ttl) s;
  delete = delete;
  ttl = ttl;
  peek = peek;
  HasRoom = HasRoom;
  get_lem = get_lem;
  peek-later = peek-later;
  peek-get = peek-get;
  peek-set = λ now t ttl k j v s h. peek-set now t (some ttl) k j v s h;
  peek-delete = peek-delete;
  ttl_lem = ttl_lem;
  HasRoom-weaken = HasRoom-weaken;
  HasRoom-get = HasRoom-get;
  HasRoom-set = HasRoom-set;
  HasRoom-delete = HasRoom-delete;
}
