-- ===== src/Cache/Memory/Refinement.antt =====
-- The in-memory cache (src/libs/shared/caching/memory-cache.service.ts) against its specification: a
-- function from keys to values with an expiry.
pub mod Steps
pub mod Answers
mod Tests
use app_tu_phuc_vu.Prelude.{
  ℕ, zero, suc, ◌+◌, ◌-◌, ◌/◌, Bool, true, false, ltb, Option, none, some, List, [], ◌∷◌, is_some,
  if◌then◌else◌,
}
use app_tu_phuc_vu.Prelude.Int.{ℤ, pos, negsuc}
use app_tu_phuc_vu.Prelude.Text.{Text, text_eq}
use app_tu_phuc_vu.Cache.Glob.{matches}
use app_tu_phuc_vu.Cache.Contract.{CacheEntry, expiry_of, live, value_of}
use app_tu_phuc_vu.Cache.Memory.{
  MemoryCache, get, set, delete, exists, clear, cleanup, set_if_not_exist, ttl, delete_by_pattern,
  get_full_key,
}

pub data Command (V : Type 0) : Type 0 where
  get_one : Text → Command V
  set_one : Text → V → Option ℕ → Command V
  claim_one : Text → V → Option ℕ → Command V
  delete_one : Text → Command V
  exists_one : Text → Command V
  ttl_one : Text → Command V
  delete_matching : Text → Command V
  clear_all : Command V
  sweep : Command V

pub data Reply (V : Type 0) : Type 0 where
  found : Option V → Reply V
  flag : Bool → Reply V
  seconds : ℤ → Reply V
  done : Reply V

module _ {V : Type 0} where
  -- The number of entries that deleteByPattern gives is left out.
  abbrev pub ask : ℕ → Command V → MemoryCache V → Reply V × MemoryCache V
  ask now (get_one k) s = (found (get now k s).0, (get now k s).1)
  ask now (set_one k v ttl) s = (done, set now k v ttl s)
  ask now (claim_one k v ttl) s =
      (flag (set_if_not_exist now k v ttl s).0, (set_if_not_exist now k v ttl s).1)
  ask now (delete_one k) s = (done, delete k s)
  ask now (exists_one k) s = (flag (exists now k s).0, (exists now k s).1)
  ask now (ttl_one k) s = (seconds (ttl now k s), s)
  ask now (delete_matching pattern) s = (done, (delete_by_pattern pattern s).1)
  ask now clear_all s = (done, clear s)
  ask now sweep s = (done, cleanup now s)

  unfoldable pub ask_all : List (ℕ × Command V) → MemoryCache V → List (Reply V)
  ask_all [] s = []
  ask_all ((now, c) ∷ cs) s = (ask now c s).0 ∷ ask_all cs (ask now c s).1

abbrev pub until : ℕ → Option ℕ → ℤ
until now none = negsuc 0
until now (some zero) = negsuc 0
until now (some (suc t)) = if ltb now (suc t) then pos ((suc t - now + 999) / 1000) else negsuc 1

-- The specification's state: what was last written under a key. A past entry is there until a read of
-- it, or a sweep, takes it away; until then its time left is told apart from a missing key's.
abbrev pub Table : Type 0 → Type 0
Table V = Text → Option (CacheEntry V)

module _ {V : Type 0} where
  abbrev pub written : Text → Option (CacheEntry V) → Table V → Table V
  written k e table j = if text_eq k j then e else table j

  -- A key is taken while its entry has time left: in the last millisecond of an entry it is read and
  -- not taken.
  abbrev pub is_taken : ℕ → Option (CacheEntry V) → Bool
  is_taken now none = false
  is_taken now (some e) = elim e.expiry [ none ↦ true | some t ↦ ltb now t ]

  abbrev pub is_live : ℕ → Option (CacheEntry V) → Bool
  is_live now e = is_some (live now e)

  -- The whole seconds left, rounded up: -1 without an entry or an expiry, -2 for one that is over.
  abbrev pub time_left : ℕ → Option (CacheEntry V) → ℤ
  time_left now none = negsuc 0
  time_left now (some e) = until now e.expiry

  -- A read takes a past entry away.
  abbrev pub read_at : ℕ → Text → Table V → Table V
  read_at now k table = written k (live now (table k)) table

  abbrev pub specified : Text → ℕ → Command V → Table V → Reply V × Table V
  specified key_prefix now (get_one k) table =
      (found (value_of (live now (table k))), read_at now k table)
  specified key_prefix now (set_one k v ttl) table =
      (done, written k (some (record { value = v; expiry = expiry_of now ttl })) table)
  specified key_prefix now (claim_one k v ttl) table =
      if is_taken now (table k)
      then (flag false, table)
      else (flag true, written k (some (record { value = v; expiry = expiry_of now ttl })) table)
  specified key_prefix now (delete_one k) table = (done, written k none table)
  specified key_prefix now (exists_one k) table =
      (flag (is_live now (table k)), read_at now k table)
  specified key_prefix now (ttl_one k) table = (seconds (time_left now (table k)), table)
  specified key_prefix now (delete_matching pattern) table = (
    done,
    λ k.
        if matches (get_full_key key_prefix pattern) (get_full_key key_prefix k)
        then none
        else table k,
  )
  specified key_prefix now clear_all table = (done, λ k. none)
  specified key_prefix now sweep table = (done, λ k. live now (table k))

  unfoldable pub specified_all : Text → List (ℕ × Command V) → Table V → List (Reply V)
  specified_all key_prefix [] table = []
  specified_all key_prefix ((now, c) ∷ cs) table =
      (specified key_prefix now c table).0
      ∷ specified_all key_prefix cs (specified key_prefix now c table).1
