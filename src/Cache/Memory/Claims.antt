-- ===== src/Cache/Memory/Claims.antt =====
-- `setIfNotExist` as a claim on a key: who wins, and until when.
use app_tu_phuc_vu.Prelude.{
  ℕ, ◌+◌, ◌*◌, ◌<◌, ◌≡◌, true, not, Option, some, ltb, arith, Bool-cases, inl, inr, ap, refl,
}
use app_tu_phuc_vu.Prelude.OrderedMap
use app_tu_phuc_vu.Prelude.OrderedMap.{get-put}
use app_tu_phuc_vu.Prelude.Text.{Text, text_eq_refl}
use app_tu_phuc_vu.Cache.Contract.{expiry_of}
use app_tu_phuc_vu.Cache.Memory.{
  MemoryCache, get_full_key, set, set_if_not_exist, make_room, blocks, full_key,
}

module _ {V : Type 0} where
  -- The entry that a write leaves, also where it pushes another out.
  get-set :
      (now : ℕ) (k : Text) (v : V) (ttl : Option ℕ) (s : MemoryCache V)
      → OrderedMap.get (set now k v ttl s).cache (get_full_key s.key_prefix k)
        ≡ some (record { value = v; expiry = expiry_of now ttl })
  unfolding set
  get-set now k v ttl s = ground (
    arith,
    get-put (make_room s.max_entries (get_full_key s.key_prefix k) s.cache)
        (get_full_key s.key_prefix k) (get_full_key s.key_prefix k)
        (record { value = v; expiry = expiry_of now ttl }),
    text_eq_refl (get_full_key s.key_prefix k),
  )

  -- The first claim, after it won, holds until its expiry.
  claim-set :
      (now t ttl : ℕ) (k : Text) (v w : V) (ttl' : Option ℕ) (s : MemoryCache V)
      → 0 < ttl
      → (set_if_not_exist t k w ttl' (set now k v (some ttl) s)).0 ≡ not (ltb t (now + ttl * 1000))
  unfolding set_if_not_exist
  claim-set now t ttl k v w ttl' s h =
      let kept : full_key (set now k v (some ttl) s) k ≡ full_key s k = unfold set in refl in
      ground (arith, kept, get-set now k v (some ttl) s)

  claim_won :
      (now : ℕ) (k : Text) (v : V) (ttl : Option ℕ) (s : MemoryCache V) {s' : MemoryCache V}
      → set_if_not_exist now k v ttl s ≡ (true, s')
      → set now k v ttl s ≡ s'
  unfolding set_if_not_exist
  claim_won now k v ttl s h =
      elim (Bool-cases (blocks now (OrderedMap.get s.cache (full_key s k)))) [
        | inl taken ↦ cc (rw (taken) at h)
        | inr free ↦ ap (λ p. p.1) (rw (free) at h)
      ]

  -- After a claim with a time to live has won, a second claim on the key at a time `t` loses before
  -- the first one's expiry and wins from the expiry on, also where the cache was full.
  pub claim_then_claim :
      (now t ttl : ℕ) (k : Text) (v w : V) (ttl' : Option ℕ) (s s' : MemoryCache V)
      → 0 < ttl
      → set_if_not_exist now k v (some ttl) s ≡ (true, s')
      → (set_if_not_exist t k w ttl' s').0 ≡ not (ltb t (now + ttl * 1000))
  claim_then_claim now t ttl k v w ttl' s s' h won =
      rw (← claim_won now k v (some ttl) s won) (claim-set now t ttl k v w ttl' s h)
