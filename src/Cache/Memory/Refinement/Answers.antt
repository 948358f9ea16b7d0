-- ===== src/Cache/Memory/Refinement/Answers.antt =====
-- Any sequence of requests to the in-memory cache, answered by its specification
-- (src/libs/shared/caching/memory-cache.service.ts).
use app_tu_phuc_vu.Prelude.{ℕ, ◌+◌, ◌≤◌, ◌≡◌, refl, none, List, [], ◌∷◌, arith}
use app_tu_phuc_vu.Prelude.OrderedMap
use app_tu_phuc_vu.Cache.Memory.{MemoryCache, CacheOptions, create, max_or_default, prefix_or_empty}
use app_tu_phuc_vu.Prelude.Text.{Text}
use app_tu_phuc_vu.Cache.Memory.Refinement.{Command, ask_all, Table, specified_all}
use app_tu_phuc_vu.Cache.Memory.Refinement.Steps.{Represents, writes, ask-Agrees}

module _ {V : Type 0} where
  abbrev pub count_writes : List (ℕ × Command V) → ℕ
  count_writes [] = 0
  count_writes ((now, c) ∷ cs) = writes c + count_writes cs

  Represents-fewer :
      (key_prefix : Text) (n m : ℕ) (s : MemoryCache V) (table : Table V)
      → m ≤ n
      → Represents key_prefix n s table
      → Represents key_prefix m s table
  Represents-fewer key_prefix n m s table le r = record {
    agrees = r.agrees;
    keyed = r.keyed;
    prefixed = r.prefixed;
    room = omega (arith, r.room);
  }

  ask_all-eq :
      (key_prefix : Text) (cs : List (ℕ × Command V)) (s : MemoryCache V) (table : Table V)
      → Represents key_prefix (count_writes cs) s table
      → ask_all cs s ≡ specified_all key_prefix cs table
  unfolding ask_all specified_all
  ask_all-eq key_prefix [] s table r = refl
  ask_all-eq key_prefix ((now, c) ∷ cs) s table r =
      let step = ask-Agrees key_prefix now (count_writes cs) s table c (
        Represents-fewer key_prefix (writes c + count_writes cs) (count_writes cs + writes c) s
          table (omega arith) r) in
      let rest = ask_all-eq key_prefix cs _ _ step.represents in rw (step.reply, rest) refl

  -- The in-memory cache refines its specification: whatever get, set, setIfNotExist, delete, exists,
  -- ttl, deleteByPattern, clear and sweeps come, one after the other and at any times, it gives the
  -- replies of a function from keys to values with an expiry, as long as the set and setIfNotExist are
  -- no more than its entries; the number that deleteByPattern gives is left out.
  pub ask_all-IsSpecified :
      (options : CacheOptions) (cs : List (ℕ × Command V))
      → count_writes cs ≤ max_or_default options.max_entries
      → ask_all cs (create options)
        ≡ specified_all (prefix_or_empty options.key_prefix) cs (λ k. none)
  unfolding create OrderedMap.get
  ask_all-IsSpecified options cs few =
      ask_all-eq (prefix_or_empty options.key_prefix) cs (create options) (λ k. none)
        (record { agrees = λ k. refl; keyed = tt; prefixed = refl; room = omega arith })
