-- ===== src/Binding/Tests.antt =====
-- The rate limiter (src/modules/binding/binding-rate-limiter.service.ts) on the in-memory cache: runs
-- of wrong guesses, and the theorems at concrete inputs.
use app_tu_phuc_vu.Prelude.{
  String, ℕ, ◌≤◌, ◌≡◌, refl, ◌&&◌, true, false, All, none, List, [], ◌∷◌, arith,
}
use app_tu_phuc_vu.Prelude.OrderedMap
use app_tu_phuc_vu.Prelude.Text.{codes, text_eq}
use app_tu_phuc_vu.Cache.Memory
use app_tu_phuc_vu.Cache.Memory.{MemoryCache}
use app_tu_phuc_vu.Cache.Memory.Reads.{peek}
use app_tu_phuc_vu.Cache.Memory.Instance.{memory_cache}
use app_tu_phuc_vu.Binding.Types.{CacheValue}
use app_tu_phuc_vu.Binding.Keys.{
  user_fail_key, user_lock_key, cust_fail_key, cust_lock_key, user_total_fail_key,
  user_total_lock_key,
}
use app_tu_phuc_vu.Binding.RateLimiter.{
  bump, trip, strongest, record_failure, ttl_sec, check_locked, user_ref_ceiling,
  customer_ref_ceiling, session_ceiling, clear_failures,
}
use app_tu_phuc_vu.Binding.RateLimiter.Attack.{Attempt, guess, guesses}
use app_tu_phuc_vu.Binding.RateLimiter.Ceilings.{session_guesses-le, customer_guesses-le}

limiter : Unit {0}
unfolding Memory.create Memory.get Memory.set Memory.delete Memory.ttl Memory.get_full_key peek
    OrderedMap.get OrderedMap.put OrderedMap.has OrderedMap.delete text_eq user_fail_key
    user_lock_key cust_fail_key cust_lock_key user_total_fail_key user_total_lock_key bump trip
    strongest record_failure ttl_sec check_locked clear_failures user_ref_ceiling
    customer_ref_ceiling session_ceiling guess guesses
limiter = tt

abbrev empty : MemoryCache CacheValue
empty = record { cache = []; key_prefix = []; max_entries = 1000 }

abbrev try : ℕ → String → Attempt
try at ref = record { at = at; user = codes "u1"; ref = codes ref; right = false }

abbrev succeed : ℕ → String → String → Attempt
succeed at user ref = record { at = at; user = codes user; ref = codes ref; right = true }

abbrev attack : List Attempt
attack =
    try 1000 "REF-1"
    ∷ try 2000 "REF-1"
    ∷ try 3000 "REF-1"
    ∷ try 4000 "REF-1"
    ∷ succeed 4500 "u2" "REF-1"
    ∷ try 5000 "REF-2"
    ∷ try 6000 "REF-3"
    ∷ try 7000 "REF-4"
    ∷ try 900999 "REF-5"
    ∷ []

-- After a right guess of the user's own, more wrong ones than five get through.
cleared_test :
    guesses
      (memory_cache CacheValue)
      (λ u r. text_eq u (codes "u1"))
      (try 1000 "REF-1"
        ∷ try 2000 "REF-2"
        ∷ try 3000 "REF-3"
        ∷ try 4000 "REF-4"
        ∷ succeed 5000 "u1" "REF-5"
        ∷ try 6000 "REF-6"
        ∷ try 7000 "REF-7"
        ∷ [])
      empty
    ≡ 6
unfolding limiter
cleared_test = refl

-- Of eight wrong guesses the fourth meets the lock of its reference, and the last two that of the
-- session; a right one of another user clears neither.
attack_test :
    (guesses (memory_cache CacheValue) (λ u r. text_eq u (codes "u1")) attack empty ≡ 5)
    × (guesses
          (memory_cache CacheValue)
          (λ u r. text_eq u (codes "u1") && text_eq r (codes "REF-1"))
          attack
          empty
        ≡ 3)
unfolding limiter
attack_test = (refl, refl)

nothing_counted :
    (peek 1000 (user_total_fail_key (codes "u1")) empty ≡ none)
    × (peek 1000 (cust_fail_key (codes "REF-1")) empty ≡ none)
    × (peek 1000 (user_fail_key (codes "u1") (codes "REF-1")) empty ≡ none)
unfolding limiter
nothing_counted = (refl, refl, refl)

others_right : All (λ a. a.right ≡ true → text_eq a.user (codes "u1") ≡ false) attack
unfolding text_eq
others_right = ground arith

session_guesses-le_example :
    guesses (memory_cache CacheValue) (λ u r. text_eq u (codes "u1")) attack empty ≤ 5
session_guesses-le_example =
    session_guesses-le (memory_cache CacheValue) 1000 (codes "u1") attack empty (omega arith)
      others_right (omega arith) nothing_counted.0

customer_guesses-le_example :
    guesses (memory_cache CacheValue) (λ u r. text_eq r (codes "REF-1")) attack empty ≤ 10
customer_guesses-le_example =
    customer_guesses-le (memory_cache CacheValue) 1000 (codes "REF-1") attack empty (omega arith)
      (omega arith) nothing_counted.1
