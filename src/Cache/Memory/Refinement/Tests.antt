-- ===== src/Cache/Memory/Refinement/Tests.antt =====
-- Requests to a small cache (src/libs/shared/caching/memory-cache.service.ts).
use app_tu_phuc_vu.Prelude.{ℕ, ◌≡◌, refl, true, false, none, some, List, [], ◌∷◌, arith}
use app_tu_phuc_vu.Prelude.OrderedMap
use app_tu_phuc_vu.Prelude.Text.{codes, text_eq}
use app_tu_phuc_vu.Prelude.Int.{pos, negsuc}
use app_tu_phuc_vu.Cache.Glob.{star, matches}
use app_tu_phuc_vu.Cache.Memory.{
  CacheOptions, create, get, set, set_if_not_exist, exists, cleanup, make_room, get_full_key, ttl,
  delete_by_pattern,
}
use app_tu_phuc_vu.Cache.Memory.Refinement.{
  Command, get_one, set_one, claim_one, exists_one, ttl_one, delete_matching, sweep, found, flag,
  seconds, done, ask_all, specified_all,
}
use app_tu_phuc_vu.Cache.Memory.Refinement.Answers.{ask_all-IsSpecified}

abbrev options : CacheOptions
options = record { key_prefix = some (codes "app"); max_entries = some 4 }

-- In its last millisecond an entry is read, and taken by a claim.
abbrev requests : List (ℕ × Command ℕ)
requests =
    (1000, set_one (codes "a") 7 (some 5))
    ∷ (2000, claim_one (codes "a") 8 none)
    ∷ (6000, get_one (codes "a"))
    ∷ (6000, claim_one (codes "a") 9 (some 1))
    ∷ (7001, ttl_one (codes "a"))
    ∷ (7001, sweep)
    ∷ (7001, ttl_one (codes "a"))
    ∷ (7001, set_one (codes "b:1") 5 (some 2))
    ∷ (7002, ttl_one (codes "b:1"))
    ∷ (7003, delete_matching (codes "b:*"))
    ∷ (7004, exists_one (codes "b:1"))
    ∷ []

replies_test :
    ask_all requests (create options)
    ≡ done
      ∷ flag false
      ∷ found (some 7)
      ∷ flag true
      ∷ seconds (negsuc 1)
      ∷ done
      ∷ seconds (negsuc 0)
      ∷ done
      ∷ seconds (pos 2)
      ∷ done
      ∷ flag false
      ∷ []
unfolding star matches ask_all ttl delete_by_pattern create get set set_if_not_exist exists cleanup
    make_room get_full_key OrderedMap.get OrderedMap.put OrderedMap.has OrderedMap.delete text_eq
replies_test = refl

ask_all-IsSpecified_example :
    ask_all requests (create options) ≡ specified_all (codes "app") requests (λ k. none)
ask_all-IsSpecified_example = ask_all-IsSpecified options requests (omega arith)
