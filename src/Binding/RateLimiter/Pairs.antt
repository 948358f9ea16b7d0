-- ===== src/Binding/RateLimiter/Pairs.antt =====
-- The ceiling of one user at one reference (src/modules/binding/binding-rate-limiter.service.ts).
use app_tu_phuc_vu.Prelude.{
  ◌∷◌, ◌++◌, ◌&&◌, ℕ, suc, ◌+◌, ◌≤◌, ◌<◌, ◌≡◌, refl, true, false, none, List, All, if◌then◌else◌,
  arith, Bool-cases, inl, inr, ap,
}
use native.Mathlib.Nat.{le_refl}
use app_tu_phuc_vu.Prelude.Text.{Text, text_eq, text_eq→eq, text_eq_iff, text_eq_refl, codes}
use app_tu_phuc_vu.Cache.Contract.{Cache}
use app_tu_phuc_vu.Binding.Types.{CacheValue}
use app_tu_phuc_vu.Binding.Keys.{user_lock_key, cust_lock_key, user_total_lock_key}
use app_tu_phuc_vu.Binding.RateLimiter.{
  Ceiling, user_ref_ceiling, customer_ref_ceiling, session_ceiling, trip, record_failure,
}
use app_tu_phuc_vu.Binding.RateLimiter.Trips.{HasRoom-trip}
use app_tu_phuc_vu.Binding.RateLimiter.Budget.{Budget, fresh, window_end}
use app_tu_phuc_vu.Binding.RateLimiter.Checks.{is_locked}
use app_tu_phuc_vu.Binding.RateLimiter.Failures.{Budget-other, Budget-own, Budget-clear_failures}
use app_tu_phuc_vu.Binding.RateLimiter.Attack.{
  Attempt, guesses, InOrder, room_for, guesses-le_limit,
}
use app_tu_phuc_vu.Binding.RateLimiter.Apart.{
  customer-user_ref-IsApart, session-user_ref-IsApart, user_ref-user_ref-IsApart, user_ref-IsSound,
}
use app_tu_phuc_vu.Binding.RateLimiter.Budget.{Budget-weaken}
use app_tu_phuc_vu.Binding.Keys.{user_fail_key}

not_pair :
    (u r v w : Text)
    → text_eq (u ++ b':' ∷ r) (v ++ b':' ∷ w) ≡ false
    → (text_eq u v && text_eq r w) ≡ false
not_pair u r v w other =
    ground (arith, text_eq_iff u v, text_eq_iff r w, text_eq_refl (v ++ b':' ∷ w))

ceiling_of_pair :
    (u r v w : Text)
    → text_eq (u ++ b':' ∷ r) (v ++ b':' ∷ w) ≡ true
    → user_ref_ceiling u r ≡ user_ref_ceiling v w
unfolding user_ref_ceiling user_fail_key user_lock_key
ceiling_of_pair u r v w same =
    ap {B = Ceiling}
      (λ (k : Text). record {
        fail_key = codes "bind:fail:user:" ++ k;
        lock_key = codes "bind:lock:user:" ++ k;
        limit = 3;
        window_sec = 900;
        lock_sec = 900;
      })
      (text_eq→eq _ _ same)

module _ (c : Cache CacheValue) (t₀ : ℕ) where
  open c use {State, peek, HasRoom}

  pair_counts :
      (v w : Text) (now g : ℕ) (u r : Text) (s : State)
      → t₀ ≤ now
      → now < window_end c (user_ref_ceiling v w) t₀
      → HasRoom 6 s
      → is_locked c now (user_total_lock_key u) s ≡ false
      → is_locked c now (user_lock_key u r) s ≡ false
      → is_locked c now (cust_lock_key r) s ≡ false
      → Budget c (user_ref_ceiling v w) t₀ now g s
      → Budget c
          (user_ref_ceiling v w)
          t₀
          now
          (if text_eq u v && text_eq r w then suc g else g)
          (record_failure c now u r s).1
  unfolding record_failure user_ref_ceiling
  pair_counts v w now g u r s le lt room off_total off_user off_cust b =
      let q = user_ref_ceiling v w in
      let s₁ = (trip c (user_ref_ceiling u r) now s).1 in
      let s₂ = (trip c (customer_ref_ceiling r) now s₁).1 in
      let room₀ = c.HasRoom-weaken 2 6 s (omega arith) room in
      let room₁ = HasRoom-trip c (user_ref_ceiling u r) now s 4 room in
      let room₁' = c.HasRoom-weaken 2 4 s₁ (omega arith) room₁ in
      let room₂ = HasRoom-trip c (customer_ref_ceiling r) now s₁ 2 room₁ in
      let others = λ (n : ℕ) (b₁ : Budget c q t₀ now n s₁).
        Budget-other c q t₀ (session_ceiling u) now n s₂ (session-user_ref-IsApart u v w) room₂ (
          Budget-other c q t₀ (customer_ref_ceiling r) now n s₁ (customer-user_ref-IsApart r v w)
            room₁' b₁) in
      elim (Bool-cases (text_eq (u ++ b':' ∷ r) (v ++ b':' ∷ w))) [
        | inl same ↦
            let b₁ = others (suc g) (
              Budget-own c q t₀ (user_ref_ceiling u r) now g s (user_ref-IsSound v w)
                (ceiling_of_pair u r v w same) le lt room₀ off_user b) in
            elim (Bool-cases (text_eq u v && text_eq r w)) [
              | inl named ↦ rw named b₁
              | inr collides ↦ rw collides (Budget-weaken c q t₀ b₁)
            ]
        | inr other ↦ rw (not_pair u r v w other) (
            others g (
              Budget-other c q t₀ (user_ref_ceiling u r) now g s
                (user_ref-user_ref-IsApart u r v w other) room₀ b))
      ]

-- One user's wrong guesses at one reference within the 15 minutes from `t₀` reach the customer service
-- at most three times, if no failure of the two is being counted at `t₀`, nobody makes a right guess
-- under the same key, and the cache has room for six more entries per guess.
pub pair_guesses-le :
    (c : Cache CacheValue) (t₀ : ℕ) (v w : Text) (as' : List Attempt) (s : c.State)
    → InOrder c t₀ (t₀ + 900000) as'
    → All (λ a. a.right ≡ true → text_eq (a.user ++ b':' ∷ a.ref) (v ++ b':' ∷ w) ≡ false) as'
    → c.HasRoom (room_for c as') s
    → c.peek t₀ (user_fail_key v w) s ≡ none
    → guesses c (λ u r. text_eq u v && text_eq r w) as' s ≤ 3
unfolding user_ref_ceiling
pair_guesses-le c t₀ v w as' s ord others room clear = omega (
  arith,
  guesses-le_limit c (user_ref_ceiling v w) t₀ (λ u r. text_eq u v && text_eq r w)
      (pair_counts c t₀ v w)
      (λ a. a.right ≡ true → text_eq (a.user ++ b':' ∷ a.ref) (v ++ b':' ∷ w) ≡ false)
      (λ now g a s' other right.
        Budget-clear_failures c (user_ref_ceiling v w) t₀ a.user a.ref now g s'
          (user_ref-user_ref-IsApart a.user a.ref v w (other right))
          (session-user_ref-IsApart a.user v w))
      as' t₀ 0 s (le_refl t₀) ord others room (fresh refl clear),
)
