-- ===== src/Binding/RateLimiter/Ceilings.antt =====
-- The three ceilings of src/modules/binding/binding-rate-limiter.service.ts bound what an attacker
-- can guess, with the numbers that the file's header promises.
use app_tu_phuc_vu.Prelude.{
  ℕ, suc, ◌+◌, ◌≤◌, ◌<◌, ◌≡◌, refl, false, none, true, List, [], ◌∷◌, All, if◌then◌else◌, arith,
  Bool-cases, inl, inr, ap,
}
use native.Mathlib.Nat.{le_refl}
use app_tu_phuc_vu.Binding.RateLimiter.Apart.{
  user_ref-session-IsApart, customer-session-IsApart, session-session-IsApart,
  user_ref-customer-IsApart, session-customer-IsApart, customer-customer-IsApart,
  customer_ref-IsSound, session-IsSound,
}
use app_tu_phuc_vu.Prelude.Text.{Text, text_eq, text_eq→eq}
use app_tu_phuc_vu.Cache.Contract.{Cache}
use app_tu_phuc_vu.Binding.Types.{CacheValue}
use app_tu_phuc_vu.Binding.Keys.{
  user_lock_key, cust_fail_key, cust_lock_key, user_total_fail_key, user_total_lock_key,
}
use app_tu_phuc_vu.Binding.RateLimiter.{
  user_ref_ceiling, customer_ref_ceiling, session_ceiling, trip, record_failure,
}
use app_tu_phuc_vu.Binding.RateLimiter.Trips.{HasRoom-trip}
use app_tu_phuc_vu.Binding.RateLimiter.Budget.{Budget, fresh, window_end}
use app_tu_phuc_vu.Binding.RateLimiter.Checks.{is_locked}
use app_tu_phuc_vu.Binding.RateLimiter.Failures.{
  Budget-other, Budget-own, Budget-clear_failures, is_locked-trip_other,
}
use app_tu_phuc_vu.Binding.RateLimiter.Attack.{
  Attempt, guesses, InOrder, room_for, guesses-le_limit,
}

module _ (c : Cache CacheValue) (t₀ : ℕ) where
  open c use {State, peek, HasRoom}

  session_counts :
      (v : Text) (now g : ℕ) (u r : Text) (s : State)
      → t₀ ≤ now
      → now < window_end c (session_ceiling v) t₀
      → HasRoom 6 s
      → is_locked c now (user_total_lock_key u) s ≡ false
      → is_locked c now (user_lock_key u r) s ≡ false
      → is_locked c now (cust_lock_key r) s ≡ false
      → Budget c (session_ceiling v) t₀ now g s
      → Budget c
          (session_ceiling v)
          t₀
          now
          (if text_eq u v then suc g else g)
          (record_failure c now u r s).1
  unfolding record_failure session_ceiling user_total_lock_key
  session_counts v now g u r s le lt room off_total off_user off_cust b =
      let q = session_ceiling v in
      let s₁ = (trip c (user_ref_ceiling u r) now s).1 in
      let s₂ = (trip c (customer_ref_ceiling r) now s₁).1 in
      let room₁ = HasRoom-trip c (user_ref_ceiling u r) now s 4 room in
      let room₂ = HasRoom-trip c (customer_ref_ceiling r) now s₁ 2 room₁ in
      let b₂ =
        Budget-other c q t₀ (customer_ref_ceiling r) now g s₁ (customer-session-IsApart r v)
          (c.HasRoom-weaken 2 4 s₁ (omega arith) room₁)
          (Budget-other c q t₀ (user_ref_ceiling u r) now g s (user_ref-session-IsApart u r v)
            (c.HasRoom-weaken 2 6 s (omega arith) room) b) in
      elim (Bool-cases (text_eq u v)) [
        | inl same ↦ rw same (
            Budget-own c q t₀ (session_ceiling u) now g s₂ (session-IsSound v)
              (ap session_ceiling (text_eq→eq u v same)) le lt room₂
              (is_locked-trip_other c (session_ceiling u) t₀ (customer_ref_ceiling r) now s₁
                (customer-session-IsApart r u) (c.HasRoom-weaken 2 4 s₁ (omega arith) room₁)
                (is_locked-trip_other c (session_ceiling u) t₀ (user_ref_ceiling u r) now s
                  (user_ref-session-IsApart u r u) (c.HasRoom-weaken 2 6 s (omega arith) room)
                  off_total))
              b₂)
        | inr other ↦ rw other (
            Budget-other c q t₀ (session_ceiling u) now g s₂ (session-session-IsApart u v other)
              room₂ b₂)
      ]

  customer_counts :
      (v : Text) (now g : ℕ) (u r : Text) (s : State)
      → t₀ ≤ now
      → now < window_end c (customer_ref_ceiling v) t₀
      → HasRoom 6 s
      → is_locked c now (user_total_lock_key u) s ≡ false
      → is_locked c now (user_lock_key u r) s ≡ false
      → is_locked c now (cust_lock_key r) s ≡ false
      → Budget c (customer_ref_ceiling v) t₀ now g s
      → Budget c
          (customer_ref_ceiling v)
          t₀
          now
          (if text_eq r v then suc g else g)
          (record_failure c now u r s).1
  unfolding record_failure customer_ref_ceiling cust_lock_key
  customer_counts v now g u r s le lt room off_total off_user off_cust b =
      let q = customer_ref_ceiling v in
      let s₁ = (trip c (user_ref_ceiling u r) now s).1 in
      let s₂ = (trip c (customer_ref_ceiling r) now s₁).1 in
      let room₀ = c.HasRoom-weaken 2 6 s (omega arith) room in
      let room₁ = HasRoom-trip c (user_ref_ceiling u r) now s 4 room in
      let room₁' = c.HasRoom-weaken 2 4 s₁ (omega arith) room₁ in
      let room₂ = HasRoom-trip c (customer_ref_ceiling r) now s₁ 2 room₁ in
      let b₁ =
        Budget-other c q t₀ (user_ref_ceiling u r) now g s (user_ref-customer-IsApart u r v) room₀
          b in
      elim (Bool-cases (text_eq r v)) [
        | inl same ↦ rw same (
            Budget-other c q t₀ (session_ceiling u) now (suc g) s₂ (session-customer-IsApart u v)
              room₂
              (Budget-own c q t₀ (customer_ref_ceiling r) now g s₁ (customer_ref-IsSound v)
                (ap customer_ref_ceiling (text_eq→eq r v same)) le lt room₁'
                (is_locked-trip_other c (customer_ref_ceiling r) t₀ (user_ref_ceiling u r) now s
                  (user_ref-customer-IsApart u r r) room₀ off_cust)
                b₁))
        | inr other ↦ rw other (
            Budget-other c q t₀ (session_ceiling u) now g s₂ (session-customer-IsApart u v) room₂ (
              Budget-other c q t₀ (customer_ref_ceiling r) now g s₁
                (customer-customer-IsApart r v other) room₁' b₁))
      ]

anybody : (as' : List Attempt) → All (λ a. Unit {0}) as'
anybody [] = tt
anybody (a ∷ as') = (tt, anybody as')

-- Wrong guesses of one user within the 15 minutes from `t₀`, at whatever references and amid right and
-- wrong guesses of others, reach the customer service at most five times, if no failure of the user
-- is being counted at `t₀`, the user makes no right guess, which clears the counter, and the cache
-- has room for six more entries per guess, so that no counter or lock is pushed out of it.
pub session_guesses-le :
    (c : Cache CacheValue) (t₀ : ℕ) (v : Text) (as' : List Attempt) (s : c.State)
    → InOrder c t₀ (t₀ + 900000) as'
    → All (λ a. a.right ≡ true → text_eq a.user v ≡ false) as'
    → c.HasRoom (room_for c as') s
    → c.peek t₀ (user_total_fail_key v) s ≡ none
    → guesses c (λ u r. text_eq u v) as' s ≤ 5
unfolding session_ceiling
session_guesses-le c t₀ v as' s ord others room clear = omega (
  arith,
  guesses-le_limit c (session_ceiling v) t₀ (λ u r. text_eq u v) (session_counts c t₀ v)
      (λ a. a.right ≡ true → text_eq a.user v ≡ false)
      (λ now g a s' other right.
        Budget-clear_failures c (session_ceiling v) t₀ a.user a.ref now g s'
          (user_ref-session-IsApart a.user a.ref v)
          (session-session-IsApart a.user v (other right)))
      as' t₀ 0 s (le_refl t₀) ord others room (fresh refl clear),
)

-- All users' wrong guesses at one reference within the hour from `t₀`, amid any right ones and any at
-- other references, reach the customer service at most ten times, if no failure at the reference is
-- being counted at `t₀` and the cache has room for six more entries per guess, so that no counter or
-- lock is pushed out of it.
pub customer_guesses-le :
    (c : Cache CacheValue) (t₀ : ℕ) (w : Text) (as' : List Attempt) (s : c.State)
    → InOrder c t₀ (t₀ + 3600000) as'
    → c.HasRoom (room_for c as') s
    → c.peek t₀ (cust_fail_key w) s ≡ none
    → guesses c (λ u r. text_eq r w) as' s ≤ 10
unfolding customer_ref_ceiling
customer_guesses-le c t₀ w as' s ord room clear = omega (
  arith,
  guesses-le_limit c (customer_ref_ceiling w) t₀ (λ u r. text_eq r w) (customer_counts c t₀ w)
      (λ a. Unit)
      (λ now g a s' free right.
        Budget-clear_failures c (customer_ref_ceiling w) t₀ a.user a.ref now g s'
          (user_ref-customer-IsApart a.user a.ref w) (session-customer-IsApart a.user w))
      as' t₀ 0 s (le_refl t₀) ord (anybody as') room (fresh refl clear),
)
