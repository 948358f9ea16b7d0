-- ===== src/Binding/RateLimiter/Attack.antt =====
-- A run of guesses at secrets, by any users at any references, against the rate limiter: the path of
-- `bind` (src/modules/binding/binding.service.ts) from the lockout check to the failure, or to the
-- clearing of the counters. What a right guess writes under other keys is left out.
use app_tu_phuc_vu.Prelude.{
  ℕ, suc, ◌+◌, ◌≤◌, ◌<◌, ◌≡◌, Bool, true, false, List, [], ◌∷◌, All, ◌&&◌, if◌then◌else◌, arith,
  Bool-cases, inl, inr,
}
use native.Mathlib.Nat.{le_refl}
use app_tu_phuc_vu.Prelude.Text.{Text}
use app_tu_phuc_vu.Cache.Contract.{Cache}
use app_tu_phuc_vu.Binding.Types.{CacheValue}
use app_tu_phuc_vu.Binding.Keys.{user_lock_key, cust_lock_key, user_total_lock_key}
use app_tu_phuc_vu.Binding.RateLimiter.{Ceiling, check_locked, record_failure, clear_failures}
use app_tu_phuc_vu.Binding.RateLimiter.Trips.{HasRoom-trip}
use app_tu_phuc_vu.Binding.RateLimiter.Budget.{
  Budget, Budget-le_limit, Budget-later, Budget-frame, window_end,
}
use app_tu_phuc_vu.Binding.RateLimiter.Checks.{
  is_locked, unlocked-all_off, peek-check_locked, HasRoom-check_locked,
}

pub record Attempt : Type 0 where
  pub at : ℕ
  pub user : Text
  pub ref : Text
  pub right : Bool

module _ (c : Cache CacheValue) where
  open c use {State, peek, HasRoom}

  abbrev pub verdict : Bool → Attempt → State → Bool × State
  verdict true a s = (false, clear_failures c a.user a.ref s)
  verdict false a s = (true, (record_failure c a.at a.user a.ref s).1)

  -- Does the guess reach the customer service, which finds it wrong?
  unfoldable pub guess : Attempt → State → Bool × State
  guess a s =
      let (state, s') = check_locked c a.at a.user a.ref s in
      if state.locked then (false, s') else verdict a.right a s'

  -- How many wrong guesses of those that `who` picks reach the customer service.
  unfoldable pub guesses : (Text → Text → Bool) → List Attempt → State → ℕ
  unfolding guess
  guesses who [] s = 0
  guesses who (a ∷ as') s =
      let (reached, s') = guess a s in
      (if reached && who a.user a.ref then 1 else 0) + guesses who as' s'

  -- The attempts come in the order of time, from `now` up to before `end`.
  abbrev pub InOrder : ℕ → ℕ → List Attempt → Type 0
  InOrder now end [] = Unit
  InOrder now end (a ∷ as') = (now ≤ a.at) × (a.at < end) × InOrder a.at end as'

  -- The writes of one failure, for each attempt.
  abbrev pub room_for : List Attempt → ℕ
  room_for [] = 0
  room_for (a ∷ as') = suc (suc (suc (suc (suc (suc (room_for as'))))))

  keeps_room :
      (now n : ℕ) (u r : Text) (s : State)
      → HasRoom (suc (suc (suc (suc (suc (suc n)))))) s
      → HasRoom n (record_failure c now u r s).1
  unfolding record_failure
  keeps_room now n u r s room =
      HasRoom-trip c _ now _ n (
        HasRoom-trip c _ now _ (suc (suc n))
          (HasRoom-trip c _ now s (suc (suc (suc (suc n)))) room))

  HasRoom-clear_failures :
      (n : ℕ) (u r : Text) (s : State)
      → HasRoom (suc (suc (suc (suc (suc (suc n)))))) s
      → HasRoom n (clear_failures c u r s)
  unfolding clear_failures
  HasRoom-clear_failures n u r s room =
      c.HasRoom-delete n _ _ (c.HasRoom-delete n _ _ (c.HasRoom-weaken n _ s (omega arith) room))

  -- One ceiling, and those whose failures it counts.
  module _ (q : Ceiling) (t₀ : ℕ) (who : Text → Text → Bool)
      (counts : (now g : ℕ) (u r : Text) (s : State)
        → t₀ ≤ now
        → now < window_end c q t₀
        → HasRoom 6 s
        → is_locked c now (user_total_lock_key u) s ≡ false
        → is_locked c now (user_lock_key u r) s ≡ false
        → is_locked c now (cust_lock_key r) s ≡ false
        → Budget c q t₀ now g s
        → Budget c q t₀ now (if who u r then suc g else g) (record_failure c now u r s).1)
      (Spares : Attempt → Type 0)
      (spared : (now g : ℕ) (a : Attempt) (s : State)
        → Spares a
        → a.right ≡ true
        → Budget c q t₀ now g s
        → Budget c q t₀ now g (clear_failures c a.user a.ref s)) where
    pub guesses-le_limit :
        (as' : List Attempt) (now g : ℕ) (s : State)
        → t₀ ≤ now
        → InOrder now (window_end c q t₀) as'
        → All Spares as'
        → HasRoom (room_for as') s
        → Budget c q t₀ now g s
        → guesses who as' s + g ≤ q.limit
    unfolding guesses guess
    guesses-le_limit [] now g s le ord spare room b = omega (arith, Budget-le_limit c q t₀ b)
    guesses-le_limit (a ∷ as') now g s le (at, before, ord) spare room b =
        let s₁ = (check_locked c a.at a.user a.ref s).1 in
        let room₁ = HasRoom-check_locked c a.at a.user a.ref s _ room in
        let b₁ =
          Budget-frame c q t₀ s₁
            (peek-check_locked c a.at a.user a.ref s a.at q.fail_key (le_refl a.at))
            (peek-check_locked c a.at a.user a.ref s a.at q.lock_key (le_refl a.at))
            (Budget-later c q t₀ a.at at before b) in
        elim (Bool-cases (check_locked c a.at a.user a.ref s).0.locked) [
          | inl barred ↦ rw barred (
              omega (
                arith,
                guesses-le_limit as' a.at g s₁ (omega arith) ord spare.1
                    (c.HasRoom-weaken _ _ s₁ (omega arith) room₁) b₁,
              ))
          | inr let_through ↦ rw let_through (elim (Bool-cases a.right) [
            | inl right ↦ rw right (
                omega (
                  arith,
                  guesses-le_limit as' a.at g (clear_failures c a.user a.ref s₁) (omega arith) ord
                      spare.1 (HasRoom-clear_failures _ a.user a.ref s₁ room₁)
                      (spared a.at g a s₁ spare.0 right b₁),
                ))
            | inr wrong ↦ rw wrong (
                let off = unlocked-all_off c a.at a.user a.ref s let_through in
                let same =
                  λ (k : Text). peek-check_locked c a.at a.user a.ref s a.at k (le_refl a.at) in
                ground (
                  arith,
                  guesses-le_limit as' a.at (if who a.user a.ref then suc g else g)
                      (record_failure c a.at a.user a.ref s₁).1 (omega arith) ord spare.1
                      (keeps_room a.at _ a.user a.ref s₁ room₁)
                      (counts a.at g a.user a.ref s₁ (omega arith) before
                        (c.HasRoom-weaken 6 _ s₁ (omega arith) room₁)
                        (rw (same (user_total_lock_key a.user)) off.0)
                        (rw (same (user_lock_key a.user a.ref)) off.1)
                        (rw (same (cust_lock_key a.ref)) off.2) b₁),
                ))
          ])
        ]
