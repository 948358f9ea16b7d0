-- ===== src/Cache/Memory/Refinement/Steps.antt =====
-- Each method of the in-memory cache keeps the relation to its specification's table
-- (src/libs/shared/caching/memory-cache.service.ts).
use app_tu_phuc_vu.Prelude.{
  ℕ, ◌+◌, ◌≤◌, ◌≡◌, ◌∙◌, refl, ap, Bool, not, Bool-cases, inl, inr, Option, none, some, [], ◌∷◌,
  length, length-keep, keep, if◌then◌else◌, arith,
}
use app_tu_phuc_vu.Prelude.OrderedMap
use app_tu_phuc_vu.Prelude.OrderedMap.{
  OrderedMap, get-put, get-delete, length-put, length-delete_le,
}
use app_tu_phuc_vu.Prelude.Text.{Text, text_eq, text_eq_iff}
use app_tu_phuc_vu.Cache.Contract.{CacheEntry, is_past, expiry_of, live}
use app_tu_phuc_vu.Cache.Memory.{
  MemoryCache, get, set, delete, exists, clear, cleanup, set_if_not_exist, blocks, make_room,
  get_full_key, ttl, delete_by_pattern,
}
use app_tu_phuc_vu.Cache.Memory.Reads.{full_key-eq}
use app_tu_phuc_vu.Cache.Glob.{matches}
use app_tu_phuc_vu.Cache.Memory.Refinement.{
  Command, get_one, set_one, claim_one, delete_one, exists_one, ttl_one, delete_matching, clear_all,
  sweep, Reply, found, flag, seconds, ask, Table, written, is_taken, specified,
}

module _ {V : Type 0} where
  -- No key stands twice.
  abbrev pub IsKeyed : OrderedMap V → Type 0
  IsKeyed [] = Unit
  IsKeyed ((k, v) ∷ m) = (OrderedMap.get m k ≡ none) × IsKeyed m

  IsKeyed-put : (m : OrderedMap V) (k : Text) (v : V) → IsKeyed m → IsKeyed (OrderedMap.put m k v)
  unfolding OrderedMap.put OrderedMap.get
  IsKeyed-put [] k v h = (refl, tt)
  IsKeyed-put ((j, w) ∷ m) k v h = elim (Bool-cases (text_eq j k)) [
    | inl same ↦ rw same h
    | inr other ↦
        ground (arith, get-put m k j v, text_eq_iff j k, text_eq_iff k j, IsKeyed-put m k v)
  ]

  IsKeyed-delete : (m : OrderedMap V) (k : Text) → IsKeyed m → IsKeyed (OrderedMap.delete m k)
  unfolding OrderedMap.delete
  IsKeyed-delete [] k h = tt
  IsKeyed-delete ((j, w) ∷ m) k h = elim (Bool-cases (text_eq j k)) [
    | inl same ↦ rw same (IsKeyed-delete m k h.1)
    | inr other ↦ ground (arith, get-delete m k j, IsKeyed-delete m k)
  ]

  get-keep-none :
      (p : Text × V → Bool) (m : OrderedMap V) (k : Text)
      → OrderedMap.get m k ≡ none
      → OrderedMap.get (keep p m) k ≡ none
  unfolding OrderedMap.get
  get-keep-none p [] k h = refl
  get-keep-none p ((j, w) ∷ m) k h = ground (arith, get-keep-none p m k)

  IsKeyed-keep : (p : Text × V → Bool) (m : OrderedMap V) → IsKeyed m → IsKeyed (keep p m)
  IsKeyed-keep p [] h = tt
  IsKeyed-keep p ((j, w) ∷ m) h = elim (Bool-cases (p (j, w))) [
    | inl kept ↦ rw kept (get-keep-none p m j h.0, IsKeyed-keep p m h.1)
    | inr dropped ↦ rw dropped (IsKeyed-keep p m h.1)
  ]

module _ {V : Type 0} where
  get-sweep :
      (now : ℕ) (m : OrderedMap (CacheEntry V)) (k : Text)
      → IsKeyed m
      → OrderedMap.get (keep (λ p. not (is_past now p.1.expiry)) m) k
        ≡ live now (OrderedMap.get m k)
  unfolding OrderedMap.get
  get-sweep now [] k h = refl
  get-sweep now ((j, e) ∷ m) k h =
      let rest = get-sweep now m k h.1 in ground (arith, rest, h.0, text_eq_iff j k)

  get-keep_keys :
      (hit : Text → Bool) (m : OrderedMap (CacheEntry V)) (k : Text)
      → OrderedMap.get (keep (λ p. not (hit p.0)) m) k
        ≡ (if hit k then none else OrderedMap.get m k)
  unfolding OrderedMap.get
  get-keep_keys hit [] k = ground arith
  get-keep_keys hit ((j, e) ∷ m) k =
      let rest = get-keep_keys hit m k in
      elim (Bool-cases (text_eq j k)) [
        | inl same ↦
            let own : hit j ≡ hit k = ap hit ((text_eq_iff j k).0 same) in ground (arith, rest, own)
        | inr other ↦ ground (arith, rest)
      ]

  abbrev entry_of : ℕ → V → Option ℕ → CacheEntry V
  entry_of now v ttl = record { value = v; expiry = expiry_of now ttl }

  -- The service holds what the table says, and `n` more entries fit.
  pub record Represents (key_prefix : Text) (n : ℕ) (s : MemoryCache V) (table : Table V)
      : Type 0 where
    pub agrees : (k : Text) → OrderedMap.get s.cache (get_full_key s.key_prefix k) ≡ table k
    pub keyed : IsKeyed s.cache
    pub prefixed : s.key_prefix ≡ key_prefix
    pub room : length s.cache + n ≤ s.max_entries

  fewer :
      (key_prefix : Text) (n : ℕ) (s : MemoryCache V) (table : Table V)
      → Represents key_prefix (n + 0) s table
      → Represents key_prefix n s table
  fewer key_prefix n s table r = record {
    agrees = r.agrees;
    keyed = r.keyed;
    prefixed = r.prefixed;
    room = omega (arith, r.room);
  }

  module _ (key_prefix : Text) (now n : ℕ) (s : MemoryCache V) (table : Table V) where
    Represents-set :
        (k : Text) (v : V) (ttl : Option ℕ)
        → Represents key_prefix (n + 1) s table
        → Represents key_prefix n
            (set now k v ttl s)
            (written k (some (record { value = v; expiry = expiry_of now ttl })) table)
    unfolding set make_room
    Represents-set k v ttl r =
        let full = get_full_key s.key_prefix k in
        record {
          agrees = λ j. ground (
            arith,
            get-put s.cache full (get_full_key s.key_prefix j) (entry_of now v ttl),
            full_key-eq s.key_prefix k j,
            r.agrees j,
            r.room,
          );
          keyed = ground (arith, r.room, IsKeyed-put s.cache full (entry_of now v ttl) r.keyed);
          prefixed = r.prefixed;
          room = ground (arith, r.room, length-put s.cache full (entry_of now v ttl));
        }

    Represents-delete :
        (k : Text)
        → Represents key_prefix n s table
        → Represents key_prefix n (delete k s) (written k none table)
    unfolding delete
    Represents-delete k r =
        let full = get_full_key s.key_prefix k in
        record {
          agrees = λ j. ground (
            arith,
            get-delete s.cache full (get_full_key s.key_prefix j),
            full_key-eq s.key_prefix k j,
            r.agrees j,
          );
          keyed = IsKeyed-delete s.cache full r.keyed;
          prefixed = r.prefixed;
          room = omega (arith, r.room, length-delete_le s.cache full);
        }

    Represents-clear :
        Represents key_prefix n s table → Represents key_prefix n (clear s) (λ k. none)
    unfolding clear OrderedMap.get
    Represents-clear r = record {
      agrees = λ j. refl;
      keyed = tt;
      prefixed = r.prefixed;
      room = omega (arith, r.room);
    }

    Represents-sweep :
        Represents key_prefix n s table
        → Represents key_prefix n (cleanup now s) (λ k. live now (table k))
    unfolding cleanup
    Represents-sweep r =
        let p = λ (q : Text × CacheEntry V). not (is_past now q.1.expiry) in
        record {
          agrees = λ j.
              get-sweep now s.cache (get_full_key s.key_prefix j) r.keyed
              ∙ ap (live now) (r.agrees j);
          keyed = IsKeyed-keep p s.cache r.keyed;
          prefixed = r.prefixed;
          room = omega (arith, r.room, length-keep p s.cache);
        }

    Represents-delete_by_pattern :
        (pattern : Text)
        → Represents key_prefix n s table
        → Represents key_prefix n
            (delete_by_pattern pattern s).1
            (specified key_prefix now (delete_matching pattern) table).1
    unfolding delete_by_pattern
    Represents-delete_by_pattern pattern r =
        let hit = matches (get_full_key s.key_prefix pattern) in
        let p = λ (q : Text × CacheEntry V). not (hit q.0) in
        record {
          agrees = λ j.
              get-keep_keys hit s.cache (get_full_key s.key_prefix j)
              ∙ ap (λ e. if hit (get_full_key s.key_prefix j) then none else e) (r.agrees j)
              ∙ ap
                  (λ q.
                    if matches (get_full_key q pattern) (get_full_key q j) then none else table j)
                  r.prefixed;
          keyed = IsKeyed-keep p s.cache r.keyed;
          prefixed = r.prefixed;
          room = omega (arith, r.room, length-keep p s.cache);
        }

  abbrev pub writes : Command V → ℕ
  writes (set_one k v ttl) = 1
  writes (claim_one k v ttl) = 1
  writes _ = 0

  -- A request and its specification give the same reply, and states that represent each other.
  pub record Agrees (key_prefix : Text) (n : ℕ) (o : Reply V × MemoryCache V)
      (o' : Reply V × Table V) : Type 0 where
    pub reply : o.0 ≡ o'.0
    pub represents : Represents key_prefix n o.1 o'.1

  module _ (key_prefix : Text) (now n : ℕ) (s : MemoryCache V) (table : Table V) where
    get-Agrees :
        (k : Text)
        → Represents key_prefix n s table
        → Agrees key_prefix n (ask now (get_one k) s) (specified key_prefix now (get_one k) table)
    unfolding get
    get-Agrees k r =
        let full = get_full_key s.key_prefix k in
        record {
          reply = ap found (ground (arith, r.agrees k));
          represents = record {
            agrees = λ j. ground (
              arith,
              get-delete s.cache full (get_full_key s.key_prefix j),
              full_key-eq s.key_prefix k j,
              text_eq_iff k j,
              r.agrees j,
              r.agrees k,
            );
            keyed = ground (arith, r.keyed, IsKeyed-delete s.cache full);
            prefixed = ground (arith, r.prefixed);
            room = ground (arith, r.room, length-delete_le s.cache full);
          };
        }

    exists-Agrees :
        (k : Text)
        → Represents key_prefix n s table
        → Agrees key_prefix n
            (ask now (exists_one k) s)
            (specified key_prefix now (exists_one k) table)
    unfolding exists
    exists-Agrees k r =
        let full = get_full_key s.key_prefix k in
        record {
          reply = ap flag (ground (arith, r.agrees k));
          represents = record {
            agrees = λ j. ground (
              arith,
              get-delete s.cache full (get_full_key s.key_prefix j),
              full_key-eq s.key_prefix k j,
              text_eq_iff k j,
              r.agrees j,
              r.agrees k,
            );
            keyed = ground (arith, r.keyed, IsKeyed-delete s.cache full);
            prefixed = ground (arith, r.prefixed);
            room = ground (arith, r.room, length-delete_le s.cache full);
          };
        }

    ttl-Agrees :
        (k : Text)
        → Represents key_prefix n s table
        → Agrees key_prefix n (ask now (ttl_one k) s) (specified key_prefix now (ttl_one k) table)
    unfolding ttl
    ttl-Agrees k r = record { reply = ap seconds (ground (arith, r.agrees k)); represents = r }

    claim-Agrees :
        (k : Text) (v : V) (ttl : Option ℕ)
        → Represents key_prefix (n + 1) s table
        → Agrees key_prefix n
            (ask now (claim_one k v ttl) s)
            (specified key_prefix now (claim_one k v ttl) table)
    unfolding set_if_not_exist
    claim-Agrees k v ttl r =
        let same : blocks now (OrderedMap.get s.cache (get_full_key s.key_prefix k))
            ≡ is_taken now (table k) =
          ap (blocks now) (r.agrees k) ∙ ground arith in
        elim (Bool-cases (is_taken now (table k))) [
          | inl taken ↦
              rw (same, taken)
                (record {
                  reply = refl;
                  represents = record {
                    agrees = r.agrees;
                    keyed = r.keyed;
                    prefixed = r.prefixed;
                    room = omega (arith, r.room);
                  };
                })
          | inr free ↦
              rw (same, free)
                (record {
                  reply = refl;
                  represents = Represents-set key_prefix now n s table k v ttl r;
                })
        ]

    pub ask-Agrees :
        (c : Command V)
        → Represents key_prefix (n + writes c) s table
        → Agrees key_prefix n (ask now c s) (specified key_prefix now c table)
    ask-Agrees (set_one k v ttl) r = record {
      reply = refl;
      represents = Represents-set key_prefix now n s table k v ttl r;
    }
    ask-Agrees (claim_one k v ttl) r = claim-Agrees k v ttl r
    ask-Agrees (get_one k) r = get-Agrees k (fewer key_prefix n s table r)
    ask-Agrees (exists_one k) r = exists-Agrees k (fewer key_prefix n s table r)
    ask-Agrees (ttl_one k) r = ttl-Agrees k (fewer key_prefix n s table r)
    ask-Agrees (delete_one k) r = record {
      reply = refl;
      represents = Represents-delete key_prefix now n s table k (fewer key_prefix n s table r);
    }
    ask-Agrees (delete_matching pattern) r = record {
      reply = refl;
      represents =
          Represents-delete_by_pattern key_prefix now n s table pattern
            (fewer key_prefix n s table r);
    }
    ask-Agrees clear_all r = record {
      reply = refl;
      represents = Represents-clear key_prefix now n s table (fewer key_prefix n s table r);
    }
    ask-Agrees sweep r = record {
      reply = refl;
      represents = Represents-sweep key_prefix now n s table (fewer key_prefix n s table r);
    }
