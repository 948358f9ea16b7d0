-- ===== src/Binding/RateLimiter/Failures.antt =====
-- A failure's effect on the budget of one ceiling: its own, or that of a ceiling apart from it
-- (src/modules/binding/binding-rate-limiter.service.ts).
use app_tu_phuc_vu.Prelude.{ℕ, suc, ◌≤◌, ◌<◌, ◌≡◌, refl, false}
use native.Mathlib.Nat.{le_refl}
use app_tu_phuc_vu.Binding.RateLimiter.Apart.{IsApart}
use app_tu_phuc_vu.Prelude.Text.{Text}
use app_tu_phuc_vu.Cache.Contract.{Cache}
use app_tu_phuc_vu.Binding.Types.{CacheValue}
use app_tu_phuc_vu.Binding.RateLimiter.{
  Ceiling, trip, user_ref_ceiling, session_ceiling, clear_failures,
}
use app_tu_phuc_vu.Binding.RateLimiter.Budget.{
  IsSound, Budget, Budget-frame, Budget-trip, peek-trip_other, window_end,
}
use app_tu_phuc_vu.Binding.RateLimiter.Checks.{is_locked}

module _ (c : Cache CacheValue) (q : Ceiling) (t₀ : ℕ) where
  open c use {State, peek, HasRoom}

  -- A failure that another ceiling counts leaves this one's budget and lock alone.
  pub Budget-other :
      (p : Ceiling) (now g : ℕ) (s : State)
      → IsApart p q
      → HasRoom 2 s
      → Budget c q t₀ now g s
      → Budget c q t₀ now g (trip c p now s).1
  Budget-other p now g s apart room b =
      Budget-frame c q t₀ (trip c p now s).1
        (peek-trip_other c p now now q.fail_key s apart.fail_fail apart.lock_fail (le_refl now)
          room)
        (peek-trip_other c p now now q.lock_key s apart.fail_lock apart.lock_lock (le_refl now)
          room)
        b

  pub is_locked-trip_other :
      (p : Ceiling) (now : ℕ) (s : State)
      → IsApart p q
      → HasRoom 2 s
      → is_locked c now q.lock_key s ≡ false
      → is_locked c now q.lock_key (trip c p now s).1 ≡ false
  is_locked-trip_other p now s apart room off =
      rw
        (peek-trip_other c p now now q.lock_key s apart.fail_lock apart.lock_lock (le_refl now)
          room)
        off

  -- A right guess clears the counters of two ceilings, and leaves those apart from them alone.
  pub Budget-clear_failures :
      (u r : Text) (now g : ℕ) (s : State)
      → IsApart (user_ref_ceiling u r) q
      → IsApart (session_ceiling u) q
      → Budget c q t₀ now g s
      → Budget c q t₀ now g (clear_failures c u r s)
  unfolding clear_failures user_ref_ceiling session_ceiling
  Budget-clear_failures u r now g s apart apart' b =
      Budget-frame c q t₀ (clear_failures c u r s)
        (rw (c.peek-delete, apart'.fail_fail, c.peek-delete, apart.fail_fail) refl)
        (rw (c.peek-delete, apart'.fail_lock, c.peek-delete, apart.fail_lock) refl) b

  -- A failure that this ceiling counts, let through while its lock is off.
  pub Budget-own :
      (p : Ceiling) (now g : ℕ) (s : State)
      → IsSound q
      → p ≡ q
      → t₀ ≤ now
      → now < window_end c q t₀
      → HasRoom 2 s
      → is_locked c now p.lock_key s ≡ false
      → Budget c q t₀ now g s
      → Budget c q t₀ now (suc g) (trip c p now s).1
  Budget-own p now g s sound e le lt room off b =
      rw e (Budget-trip c q t₀ sound now g s le lt room (rw e at off) b)
