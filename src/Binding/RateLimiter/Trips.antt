-- ===== src/Binding/RateLimiter/Trips.antt =====
-- What one ceiling of the rate limiter does to the entries that a later read finds.
use app_tu_phuc_vu.Prelude.{
  ℕ, suc, ◌+◌, ◌≤◌, ◌≡◌, refl, Bool, true, false, Option, none, some, leb, if◌then◌else◌, arith,
  Bool-cases, inl, inr,
}
use app_tu_phuc_vu.Prelude.Text.{Text, text_eq}
use app_tu_phuc_vu.Cache.Contract.{Cache, CacheEntry, expiry_of, live, value_of}
use app_tu_phuc_vu.Binding.Types.{CacheValue, lock, counter}
use app_tu_phuc_vu.Binding.RateLimiter.{Ceiling, in_window, bump, bump_found, trip}

-- The count that a failure reaches, and the start of its window.
abbrev pub next_count : ℕ → Option (ℕ × ℕ) → ℕ × ℕ
next_count now none = (1, now)
next_count now (some (n, since)) = (n + 1, since)

-- The entry that a failure leaves.
abbrev pub next_entry : ℕ → ℕ → Option (ℕ × ℕ) → CacheEntry CacheValue
next_entry now w o = record {
  value = counter (next_count now o).0 (next_count now o).1;
  expiry = expiry_of now (some w);
}

module _ (c : Cache CacheValue) where
  open c use {State, get, set, delete, peek, HasRoom}

  -- The counter of the window that is open at `now`.
  abbrev pub open_window : ℕ → ℕ → Text → State → Option (ℕ × ℕ)
  open_window now window_sec key s = in_window now window_sec (value_of (peek now key s))

  pub bump-count :
      (now w : ℕ) (k : Text) (s : State)
      → (bump c now k w s).0 ≡ (next_count now (open_window now w k s)).0
  unfolding bump
  bump-count now w k s = rw c.get_lem (by_window (open_window now w k s))
    where
      by_window :
          (o : Option (ℕ × ℕ)) → (bump_found c now k w o (get now k s).1).0 ≡ (next_count now o).0
      by_window none = refl
      by_window (some (n, since)) = refl

  pub peek-bump :
      (now t w : ℕ) (k j : Text) (s : State)
      → now ≤ t
      → HasRoom 1 s
      → peek t j (bump c now k w s).1 ≡ (
          if text_eq k j
          then live t (some (next_entry now w (open_window now w k s)))
          else peek t j s)
  unfolding bump
  peek-bump now t w k j s h room = rw c.get_lem (by_window (open_window now w k s))
    where
      room' : HasRoom 1 (get now k s).1
      room' = c.HasRoom-get 1 now k s room

      by_window :
          (o : Option (ℕ × ℕ))
          → peek t j (bump_found c now k w o (get now k s).1).1
            ≡ (if text_eq k j then live t (some (next_entry now w o)) else peek t j s)
      by_window none =
          rw
            (c.peek-set now t w k j (counter 1 now) (get now k s).1 room', c.peek-get now t k j s h)
      by_window (some (n, since)) = rw (
        c.peek-set now t w k j (counter (n + 1) since) (get now k s).1 room',
        c.peek-get now t k j s h,
      )

  HasRoom-bump :
      (n now w : ℕ) (k : Text) (s : State) → HasRoom (suc n) s → HasRoom n (bump c now k w s).1
  unfolding bump
  HasRoom-bump n now w k s room = by_window (in_window now w (get now k s).0)
    where
      room' : HasRoom (suc n) (get now k s).1
      room' = c.HasRoom-get (suc n) now k s room

      by_window : (o : Option (ℕ × ℕ)) → HasRoom n (bump_found c now k w o (get now k s).1).1
      by_window none = c.HasRoom-set n now w k (counter 1 now) _ room'
      by_window (some (m, since)) = c.HasRoom-set n now w k (counter (m + 1) since) _ room'

  module _ (q : Ceiling) (now : ℕ) (s : State) where
    -- Does a failure at `now` reach the ceiling?
    abbrev pub reaches : Bool
    reaches = leb q.limit (next_count now (open_window now q.window_sec q.fail_key s)).0

    pub trip-armed : (trip c q now s).0 ≡ reaches
    unfolding trip
    trip-armed =
        rw bump-count (elim (Bool-cases reaches) [ inl full ↦ rw full | inr free ↦ rw free ])

    pub HasRoom-trip : (n : ℕ) → HasRoom (suc (suc n)) s → HasRoom n (trip c q now s).1
    unfolding trip
    HasRoom-trip n room =
        let bumped = HasRoom-bump (suc n) now q.window_sec q.fail_key s room in
        elim (Bool-cases (leb q.limit (bump c now q.fail_key q.window_sec s).0)) [
          | inl full ↦
              rw full (
                c.HasRoom-delete n _ _
                  (c.HasRoom-set n now q.lock_sec q.lock_key (lock 1) _ bumped))
          | inr free ↦ rw free (c.HasRoom-weaken n (suc n) _ (omega arith) bumped)
        ]

    -- Below the ceiling a failure changes its counter alone.
    pub peek-trip_free :
        (t : ℕ) (j : Text)
        → reaches ≡ false
        → now ≤ t
        → HasRoom 2 s
        → peek t j (trip c q now s).1 ≡ (
            if text_eq q.fail_key j
            then live t
                (some (next_entry now q.window_sec (open_window now q.window_sec q.fail_key s)))
            else peek t j s)
    unfolding trip
    peek-trip_free t j free le room = rw (
      bump-count,
      free,
      peek-bump now t q.window_sec q.fail_key j s le (c.HasRoom-weaken 1 2 s (omega arith) room),
    )

    -- At the ceiling it arms the lock and drops the counter.
    pub peek-trip_full :
        (t : ℕ) (j : Text)
        → reaches ≡ true
        → now ≤ t
        → HasRoom 2 s
        → peek t j (trip c q now s).1 ≡ (
            if text_eq q.fail_key j
            then none
            else if text_eq q.lock_key j
            then live t (some (record { value = lock 1; expiry = expiry_of now (some q.lock_sec) }))
            else peek t j s)
    unfolding trip
    peek-trip_full t j full le room =
        let bumped = HasRoom-bump 1 now q.window_sec q.fail_key s room in
        rw
          (
            bump-count,
            full,
            c.peek-delete,
            c.peek-set now t q.lock_sec q.lock_key j (lock 1) _ bumped,
          )
          (ground (
            arith,
            peek-bump now t q.window_sec q.fail_key j s le
                (c.HasRoom-weaken 1 2 s (omega arith) room),
          ))
