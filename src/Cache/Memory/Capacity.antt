-- ===== src/Cache/Memory/Capacity.antt =====
-- The in-memory cache never outgrows `maxEntries`, whatever is asked of it.
pub mod Requests
use app_tu_phuc_vu.Prelude.{
  ℕ, ◌≤◌, ◌<◌, ◌≡◌, ◌≢◌, refl, Bool, not, ◌&&◌, Option, none, some, List, [], ◌∷◌, length, keep,
  length-keep, All, leb, Bool-cases, inl, inr, arith,
}
use app_tu_phuc_vu.Prelude.OrderedMap
use app_tu_phuc_vu.Prelude.OrderedMap.{
  OrderedMap, length-put, length-delete_le, length-delete_first,
}
use app_tu_phuc_vu.Prelude.Text.{Text, text_eq}
use app_tu_phuc_vu.Cache.Contract.{CacheEntry, is_past}
use app_tu_phuc_vu.Cache.Glob.{matches}
use app_tu_phuc_vu.Cache.Memory.{
  MemoryCache, get_full_key, get, set, delete, exists, mget, mset, mdelete, set_if_not_exist,
  delete_by_pattern, get_full_key, cleanup, blocks, full_key, make_room, evict_first, read_entry,
  exists_entry,
}

abbrev IsNamed : {V : Type 0} → OrderedMap V → Type 0
IsNamed m = All (λ p. p.0 ≢ []) m

-- At most `n` entries, the limit of the service, and none under the empty key.
pub record IsBounded {V : Type 0} (n : ℕ) (s : MemoryCache V) : Type 0 where
  pub limit : s.max_entries ≡ n
  pub fits : length s.cache ≤ s.max_entries
  pub some_room : 0 < s.max_entries
  pub named : All (λ p. p.0 ≢ []) s.cache

module _ {V : Type 0} where
  IsNamed-keep : (p : Text × V → Bool) (m : OrderedMap V) → IsNamed m → IsNamed (keep p m)
  IsNamed-keep p [] h = tt
  IsNamed-keep p (x ∷ m) h = elim (Bool-cases (p x)) [
    | inl yes' ↦ rw yes' (h.0, IsNamed-keep p m h.1)
    | inr no' ↦ rw no' (IsNamed-keep p m h.1)
  ]

  IsNamed-delete : (m : OrderedMap V) (k : Text) → IsNamed m → IsNamed (OrderedMap.delete m k)
  unfolding OrderedMap.delete
  IsNamed-delete [] k h = tt
  IsNamed-delete ((j, v) ∷ m) k h = elim (Bool-cases (text_eq j k)) [
    | inl same ↦ rw same (IsNamed-delete m k h.1)
    | inr other ↦ rw other (h.0, IsNamed-delete m k h.1)
  ]

  IsNamed-put :
      (m : OrderedMap V) (k : Text) (v : V) → k ≢ [] → IsNamed m → IsNamed (OrderedMap.put m k v)
  unfolding OrderedMap.put
  IsNamed-put [] k v n h = (n, tt)
  IsNamed-put ((j, w) ∷ m) k v n h = elim (Bool-cases (text_eq j k)) [
    | inl same ↦ rw same (h.0, h.1)
    | inr other ↦ rw other (h.0, IsNamed-put m k v n h.1)
  ]

full_key-ne : (p k : Text) → k ≢ [] → get_full_key p k ≢ []
unfolding get_full_key
full_key-ne [] k h = h
full_key-ne (c ∷ p) k h = cc

module _ {V : Type 0} where
  IsNamed-evict_first : (m : OrderedMap (CacheEntry V)) → IsNamed m → IsNamed (evict_first m)
  unfolding evict_first
  IsNamed-evict_first [] h = h
  IsNamed-evict_first (([], e) ∷ m) h = h
  IsNamed-evict_first ((c ∷ k, e) ∷ m) h = IsNamed-delete _ (c ∷ k) h

  -- Where the first key is a text with something in it, evicting makes room for one.
  length-evict_first :
      (m : OrderedMap (CacheEntry V)) (n : ℕ)
      → IsNamed m
      → 0 < n
      → length m ≤ n
      → length (evict_first m) < n
  unfolding evict_first
  length-evict_first [] n h p le = omega arith
  length-evict_first (([], e) ∷ m) n h p le = absurd (h.0 refl)
  length-evict_first ((c ∷ k, e) ∷ m) n h p le = omega (arith, length-delete_first (c ∷ k) e m)

  IsNamed-make_room :
      (n : ℕ) (k : Text) (m : OrderedMap (CacheEntry V)) → IsNamed m → IsNamed (make_room n k m)
  unfolding make_room
  IsNamed-make_room n k m h = elim (Bool-cases (leb n (length m) && not (OrderedMap.has m k))) [
    | inl full ↦ rw full (IsNamed-evict_first m h)
    | inr roomy ↦ rw roomy h
  ]

  length-make_room :
      (n : ℕ) (k : Text) (m : OrderedMap (CacheEntry V)) (e : CacheEntry V)
      → IsNamed m
      → 0 < n
      → length m ≤ n
      → length (OrderedMap.put (make_room n k m) k e) ≤ n
  unfolding make_room
  length-make_room n k m e h p le =
      ground
        (arith, length-put m k e, length-put (evict_first m) k e, length-evict_first m n h p le)

module _ {V : Type 0} {n : ℕ} where
  -- A write keeps the bound, also where the cache is full.
  pub set-IsBounded :
      (now : ℕ) (k : Text) (v : V) (ttl : Option ℕ) (s : MemoryCache V)
      → k ≢ []
      → IsBounded n s
      → IsBounded n (set now k v ttl s)
  unfolding set
  set-IsBounded now k v ttl s named b = record {
    limit = b.limit;
    fits = length-make_room s.max_entries _ s.cache _ b.named b.some_room b.fits;
    some_room = b.some_room;
    named =
        IsNamed-put _ _ _ (full_key-ne s.key_prefix k named)
          (IsNamed-make_room s.max_entries _ s.cache b.named);
  }

  pub delete_at-IsBounded :
      (k : Text) (s : MemoryCache V)
      → IsBounded n s
      → IsBounded n (record s { cache = OrderedMap.delete s.cache k })
  delete_at-IsBounded k s b = record {
    limit = b.limit;
    fits = omega (arith, length-delete_le s.cache k, b.fits);
    some_room = b.some_room;
    named = IsNamed-delete s.cache k b.named;
  }

  pub get-IsBounded :
      (now : ℕ) (k : Text) (s : MemoryCache V) → IsBounded n s → IsBounded n (get now k s).1
  unfolding get
  get-IsBounded now k s b = read-IsBounded (OrderedMap.get s.cache (get_full_key s.key_prefix k))
    where
      read-IsBounded :
          (o : Option (CacheEntry V))
          → IsBounded n (read_entry now (get_full_key s.key_prefix k) s o).1
      read-IsBounded none = b
      read-IsBounded (some e) = elim (Bool-cases (is_past now e.expiry)) [
        | inl past ↦ rw past (delete_at-IsBounded _ s b)
        | inr fresh ↦ rw fresh b
      ]

  pub exists-IsBounded :
      (now : ℕ) (k : Text) (s : MemoryCache V) → IsBounded n s → IsBounded n (exists now k s).1
  unfolding exists
  exists-IsBounded now k s b =
      found-IsBounded (OrderedMap.get s.cache (get_full_key s.key_prefix k))
    where
      found-IsBounded :
          (o : Option (CacheEntry V))
          → IsBounded n (exists_entry now (get_full_key s.key_prefix k) s o).1
      found-IsBounded none = b
      found-IsBounded (some e) = elim (Bool-cases (is_past now e.expiry)) [
        | inl past ↦ rw past (delete_at-IsBounded _ s b)
        | inr fresh ↦ rw fresh b
      ]

  pub set_if_not_exist-IsBounded :
      (now : ℕ) (k : Text) (v : V) (ttl : Option ℕ) (s : MemoryCache V)
      → k ≢ []
      → IsBounded n s
      → IsBounded n (set_if_not_exist now k v ttl s).1
  unfolding set_if_not_exist
  set_if_not_exist-IsBounded now k v ttl s named b =
      elim (Bool-cases (blocks now (OrderedMap.get s.cache (full_key s k)))) [
        | inl taken ↦ rw taken b
        | inr free ↦ rw free (set-IsBounded now k v ttl s named b)
      ]

  pub cleanup-IsBounded :
      (now : ℕ) (s : MemoryCache V) → IsBounded n s → IsBounded n (cleanup now s)
  unfolding cleanup
  cleanup-IsBounded now s b = record {
    limit = b.limit;
    fits = omega (arith, length-keep (λ p. not (is_past now p.1.expiry)) s.cache, b.fits);
    some_room = b.some_room;
    named = IsNamed-keep (λ p. not (is_past now p.1.expiry)) s.cache b.named;
  }

  pub delete_by_pattern-IsBounded :
      (pattern : Text) (s : MemoryCache V)
      → IsBounded n s
      → IsBounded n (delete_by_pattern pattern s).1
  unfolding delete_by_pattern
  delete_by_pattern-IsBounded pattern s b =
      let stays =
        λ (p : Text × CacheEntry V). not (matches (get_full_key s.key_prefix pattern) p.0) in
      record {
        limit = b.limit;
        fits = omega (arith, length-keep stays s.cache, b.fits);
        some_room = b.some_room;
        named = IsNamed-keep stays s.cache b.named;
      }

  pub mget-IsBounded :
      (now : ℕ) (ks : List Text) (s : MemoryCache V) → IsBounded n s → IsBounded n (mget now ks s).1
  unfolding mget
  mget-IsBounded now [] s b = b
  mget-IsBounded now (k ∷ ks) s b = mget-IsBounded now ks (get now k s).1 (get-IsBounded now k s b)

  pub mset-IsBounded :
      (now : ℕ) (es : List (Text × V × Option ℕ)) (s : MemoryCache V)
      → All (λ e. e.0 ≢ []) es
      → IsBounded n s
      → IsBounded n (mset now es s)
  unfolding mset
  mset-IsBounded now [] s named b = b
  mset-IsBounded now ((k, v, ttl) ∷ es) s named b =
      mset-IsBounded now es (set now k v ttl s) named.1 (set-IsBounded now k v ttl s named.0 b)

  pub mdelete-IsBounded :
      (ks : List Text) (s : MemoryCache V) → IsBounded n s → IsBounded n (mdelete ks s)
  unfolding mdelete delete
  mdelete-IsBounded [] s b = b
  mdelete-IsBounded (k ∷ ks) s b = mdelete-IsBounded ks _ (delete_at-IsBounded (full_key s k) s b)
