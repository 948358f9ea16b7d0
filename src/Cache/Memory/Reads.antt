-- ===== src/Cache/Memory/Reads.antt =====
-- What a read of the in-memory cache finds after each operation.
use app_tu_phuc_vu.Prelude.{
  ℕ, ◌+◌, ◌≤◌, ◌≡◌, refl, Option, none, some, [], ◌∷◌, false, ◌*◌, length, if◌then◌else◌, arith,
}
use app_tu_phuc_vu.Prelude.OrderedMap
use app_tu_phuc_vu.Prelude.OrderedMap.{OrderedMap, get-put, get-delete}
use app_tu_phuc_vu.Prelude.Text.{Text, text_eq, text_eq_iff, text_eq_refl, text_eq-append}
use app_tu_phuc_vu.Cache.Contract.{CacheEntry, expiry_of, max_zero, seconds_left, live, value_of}
use app_tu_phuc_vu.Cache.Memory.{
  MemoryCache, get_full_key, get, set, delete, ttl, make_room, evict_first, full_key,
}

pub full_key-eq : (p k j : Text) → text_eq (get_full_key p k) (get_full_key p j) ≡ text_eq k j
unfolding get_full_key text_eq
full_key-eq [] k j = refl
full_key-eq (c ∷ p) k j = text_eq-append (c ∷ p) (b':' ∷ k) (b':' ∷ j)

module _ {V : Type 0} where
  -- The entry that a read at time `t` would find.
  unfoldable pub peek : ℕ → Text → MemoryCache V → Option (CacheEntry V)
  peek t k s = live t (OrderedMap.get s.cache (get_full_key s.key_prefix k))

  pub get_lem : (now : ℕ) (k : Text) (s : MemoryCache V) → (get now k s).0 ≡ value_of (peek now k s)
  unfolding get peek
  get_lem now k s = ground arith

  -- What a later read finds is what is left of what an earlier one would have found.
  pub peek-later :
      (now t : ℕ) (k : Text) (s : MemoryCache V) → now ≤ t → peek t k s ≡ live t (peek now k s)
  unfolding peek
  peek-later now t k s h = ground arith

  -- A read drops at most an entry that no later read would have found.
  pub peek-get :
      (now t : ℕ) (k j : Text) (s : MemoryCache V) → now ≤ t → peek t j (get now k s).1 ≡ peek t j s
  unfolding get peek
  peek-get now t k j s h = ground (
    arith,
    get-delete s.cache (get_full_key s.key_prefix k) (get_full_key s.key_prefix j),
    text_eq_iff (get_full_key s.key_prefix k) (get_full_key s.key_prefix j),
  )

  pub peek-delete :
      (t : ℕ) (k j : Text) (s : MemoryCache V)
      → peek t j (delete k s) ≡ (if text_eq k j then none else peek t j s)
  unfolding delete peek
  peek-delete t k j s = ground (
    arith,
    get-delete s.cache (get_full_key s.key_prefix k) (get_full_key s.key_prefix j),
    full_key-eq s.key_prefix k j,
  )

  -- Where a write pushes nothing out, it changes what is read at its own key alone.
  pub peek-set :
      (now t : ℕ) (ttl : Option ℕ) (k j : Text) (v : V) (s : MemoryCache V)
      → length s.cache + 1 ≤ s.max_entries
      → peek t j (set now k v ttl s) ≡ (
          if text_eq k j
          then live t (some (record { value = v; expiry = expiry_of now ttl }))
          else peek t j s)
  unfolding set peek make_room
  peek-set now t ttl k j v s room = ground (
    arith,
    get-put s.cache (get_full_key s.key_prefix k) (get_full_key s.key_prefix j)
        (record { value = v; expiry = expiry_of now ttl }),
    full_key-eq s.key_prefix k j,
  )

  pub ttl_lem :
      (now : ℕ) (k : Text) (s : MemoryCache V)
      → max_zero (ttl now k s) ≡ seconds_left now (peek now k s)
  unfolding ttl peek
  ttl_lem now k s = ground arith

  -- A write is found by a read of its key until its expiry, also where it pushed another entry out.
  pub get-set :
      (now t ttl : ℕ) (k : Text) (v : V) (s : MemoryCache V)
      → t ≤ now + ttl * 1000
      → get t k (set now k v (some ttl) s) ≡ (some v, set now k v (some ttl) s)
  unfolding get set make_room
  get-set now t ttl k v s h = ground (
    arith,
    get-put (make_room s.max_entries (get_full_key s.key_prefix k) s.cache)
        (get_full_key s.key_prefix k) (get_full_key s.key_prefix k)
        (record { value = v; expiry = expiry_of now (some ttl) }),
    text_eq_refl (get_full_key s.key_prefix k),
  )

  get-evict_first :
      (m : OrderedMap (CacheEntry V)) (j : Text)
      → OrderedMap.get m j ≡ none
      → OrderedMap.get (evict_first m) j ≡ none
  unfolding evict_first
  get-evict_first [] j h = h
  get-evict_first (([], x) ∷ m) j h = h
  get-evict_first ((c ∷ k, x) ∷ m) j h = ground (arith, get-delete ((c ∷ k, x) ∷ m) (c ∷ k) j)

  -- A write brings no other key back.
  pub get-set_none :
      (now : ℕ) (ttl : Option ℕ) (k j : Text) (v : V) (s : MemoryCache V)
      → text_eq k j ≡ false
      → OrderedMap.get s.cache (full_key s j) ≡ none
      → OrderedMap.get (set now k v ttl s).cache (full_key (set now k v ttl s) j) ≡ none
  unfolding set make_room
  get-set_none now ttl k j v s other h = ground (
    arith,
    get-put (make_room s.max_entries (get_full_key s.key_prefix k) s.cache)
        (get_full_key s.key_prefix k) (get_full_key s.key_prefix j)
        (record { value = v; expiry = expiry_of now ttl }),
    full_key-eq s.key_prefix k j,
    get-evict_first s.cache (get_full_key s.key_prefix j),
  )
