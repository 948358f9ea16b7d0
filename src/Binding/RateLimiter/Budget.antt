-- ===== src/Binding/RateLimiter/Budget.antt =====
-- The budget of one ceiling: how many failures it lets through within one window.
use app_tu_phuc_vu.Prelude.{
  ℕ, suc, ◌+◌, ◌*◌, ◌≤◌, ◌<◌, ◌≡◌, false, none, some, arith, Bool-cases, inl, inr, ◌∙◌,
}
use native.Mathlib.Nat.{le_refl}
use app_tu_phuc_vu.Prelude.Text.{Text, text_eq, text_eq_refl}
use app_tu_phuc_vu.Cache.Contract.{Cache, expiry_of, live, value_of}
use app_tu_phuc_vu.Binding.Types.{CacheValue, lock, counter}
use app_tu_phuc_vu.Binding.RateLimiter.{Ceiling, trip, is_truthy}
use app_tu_phuc_vu.Binding.RateLimiter.Trips.{
  open_window, next_count, reaches, peek-trip_free, peek-trip_full,
}

-- The numbers of a ceiling: a lock lasts at least as long as the window, and the keys differ.
pub record IsSound (q : Ceiling) : Type 0 where
  pub some_limit : 0 < q.limit
  pub some_window : 0 < q.window_sec
  pub window_le_lock : q.window_sec ≤ q.lock_sec
  pub keys_differ : text_eq q.fail_key q.lock_key ≡ false

-- A value that was just written with a time to live is read.
live_now :
    (now secs : ℕ) (v : CacheValue)
    → 0 < secs
    → live now (some (record { value = v; expiry = expiry_of now (some secs) }))
      ≡ some (record { value = v; expiry = some (now + secs * 1000) })
live_now now secs v h = ground arith

module _ (c : Cache CacheValue) where
  open c use {State, peek, HasRoom}

  -- A ceiling that shares no key with `j` leaves what is read at `j` alone.
  pub peek-trip_other :
      (q : Ceiling) (now t : ℕ) (j : Text) (s : State)
      → text_eq q.fail_key j ≡ false
      → text_eq q.lock_key j ≡ false
      → now ≤ t
      → HasRoom 2 s
      → peek t j (trip c q now s).1 ≡ peek t j s
  peek-trip_other q now t j s f l le room = elim (Bool-cases (reaches c q now s)) [
    | inl full ↦ peek-trip_full c q now s t j full le room ∙ rw (f, l)
    | inr free ↦ peek-trip_free c q now s t j free le room ∙ rw f
  ]

  module _ (q : Ceiling) (t₀ : ℕ) where
    -- The window of the ceiling that begins at `t₀` ends here.
    abbrev pub window_end : ℕ
    window_end = t₀ + q.window_sec * 1000

    -- `g` failures of the window were let through, and the state at `now` accounts for each.
    pub data Budget (now g : ℕ) (s : State) : Type 0 where
      fresh : g ≡ 0 → peek now q.fail_key s ≡ none → Budget now g s
      counting :
          (n since e : ℕ)
          → peek now q.fail_key s ≡ some (record { value = counter n since; expiry = some e })
          → g ≤ n
          → n < q.limit
          → t₀ ≤ since
          → window_end ≤ e
          → Budget now g s
      locked :
          (e : ℕ)
          → peek now q.lock_key s ≡ some (record { value = lock 1; expiry = some e })
          → g ≤ q.limit
          → window_end ≤ e
          → Budget now g s

    pub Budget-le_limit : {now g : ℕ} {s : State} → Budget now g s → g ≤ q.limit
    Budget-le_limit (fresh e p) = omega arith
    Budget-le_limit (counting n since e p le lt st en) = omega arith
    Budget-le_limit (locked e p le en) = le

    -- An account of more failures is one of fewer.
    pub Budget-weaken : {now g : ℕ} {s : State} → Budget now (suc g) s → Budget now g s
    Budget-weaken (fresh e p) = absurd (omega arith)
    Budget-weaken (counting n since e p le lt st en) = counting n since e p (omega arith) lt st en
    Budget-weaken (locked e p le en) = locked e p (omega arith) en

    -- Time alone changes nothing within the window.
    pub Budget-later :
        {now g : ℕ} {s : State} (t : ℕ) → now ≤ t → t < window_end → Budget now g s → Budget t g s
    Budget-later t le lt (fresh e p) = fresh e (c.peek-later _ t q.fail_key _ le ∙ rw p)
    Budget-later t le lt (counting n since e p g l st en) =
        counting n since e (c.peek-later _ t q.fail_key _ le ∙ rw p (ground arith)) g l st en
    Budget-later t le lt (locked e p g en) =
        locked e (c.peek-later _ t q.lock_key _ le ∙ rw p (ground arith)) g en

    -- A change that leaves the ceiling's two keys alone keeps the budget.
    pub Budget-frame :
        {now g : ℕ} {s : State} (s' : State)
        → peek now q.fail_key s' ≡ peek now q.fail_key s
        → peek now q.lock_key s' ≡ peek now q.lock_key s
        → Budget now g s
        → Budget now g s'
    Budget-frame s' f l (fresh e p) = fresh e (f ∙ p)
    Budget-frame s' f l (counting n since e p g lt st en) = counting n since e (f ∙ p) g lt st en
    Budget-frame s' f l (locked e p g en) = locked e (l ∙ p) g en

    module _ (sound : IsSound q) where
      -- Where the window's counter stands at `n`, none being `n` = 0.
      after_trip :
          (now g n since : ℕ) (s : State)
          → t₀ ≤ now
          → now < window_end
          → HasRoom 2 s
          → next_count now (open_window c now q.window_sec q.fail_key s) ≡ (n + 1, since)
          → g ≤ n
          → n < q.limit
          → t₀ ≤ since
          → Budget now (suc g) (trip c q now s).1
      after_trip now g n since s le lt room entry gl l st = elim (Bool-cases (reaches c q now s)) [
        | inl full ↦
            locked (now + q.lock_sec * 1000)
              (peek-trip_full c q now s now q.lock_key full (le_refl now) room
                ∙ rw (sound.keys_differ, text_eq_refl)
                    (live_now now q.lock_sec (lock 1)
                      (omega (arith, sound.some_window, sound.window_le_lock))))
              (omega arith) (omega (arith, sound.window_le_lock))
        | inr free ↦
            counting (n + 1) since (now + q.window_sec * 1000)
              (peek-trip_free c q now s now q.fail_key free (le_refl now) room
                ∙ rw (text_eq_refl, entry)
                    (live_now now q.window_sec (counter (n + 1) since) sound.some_window))
              (omega arith) (ground arith) st (omega arith)
      ]

      -- One more failure, let through while the lock is off, is accounted for.
      pub Budget-trip :
          (now g : ℕ) (s : State)
          → t₀ ≤ now
          → now < window_end
          → HasRoom 2 s
          → is_truthy (value_of (peek now q.lock_key s)) ≡ false
          → Budget now g s
          → Budget now (suc g) (trip c q now s).1
      Budget-trip now g s le lt room off (fresh e p) =
          after_trip now g 0 now s le lt room (rw p) (omega arith) (omega arith) (omega arith)
      Budget-trip now g s le lt room off (counting n since e p gl l st en) =
          after_trip now g n since s le lt room (rw p (ground arith)) gl l st
      Budget-trip now g s le lt room off (locked e p gl en) = absurd (ground (arith, p, off))
