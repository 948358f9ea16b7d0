-- ===== src/Binding/RateLimiter/Checks.antt =====
-- What `checkLocked` answers, and that asking changes nothing that a later read finds.
use app_tu_phuc_vu.Prelude.{
  ℕ, ◌≤◌, ◌≡◌, refl, Bool, true, false, some, if◌then◌else◌, arith, Bool-cases, inl, inr, ◌∙◌,
}
use native.Mathlib.Nat.{le_refl}
use app_tu_phuc_vu.Prelude.Text.{Text}
use app_tu_phuc_vu.Cache.Contract.{Cache, value_of, seconds_left}
use app_tu_phuc_vu.Binding.Types.{CacheValue}
use app_tu_phuc_vu.Binding.Keys.{user_lock_key, cust_lock_key, user_total_lock_key}
use app_tu_phuc_vu.Binding.RateLimiter.{
  LockReason, LockState, session, user_ref, customer_ref, unlocked, is_truthy, check_locked,
  ttl_sec,
}

module _ (c : Cache CacheValue) where
  open c use {State, get, peek, HasRoom}

  -- The lock under a key, as a read at `now` finds it.
  abbrev pub is_locked : ℕ → Text → State → Bool
  is_locked now key s = is_truthy (value_of (peek now key s))

  abbrev pub lock_of : LockReason → ℕ → Text → State → LockState
  lock_of reason now key s = record {
    locked = true;
    reason = some reason;
    retry_after_sec = some (seconds_left now (peek now key s));
  }

  peek-get_now : (now : ℕ) (k j : Text) (s : State) → peek now j (get now k s).1 ≡ peek now j s
  peek-get_now now k j s = c.peek-get now now k j s (le_refl now)

  module _ (now : ℕ) (u r : Text) (s : State) where
    -- The lock that bars an attempt, the session's first, then the user's on the reference, then
    -- the reference's for everybody, with the seconds that it has left; none bars it otherwise.
    pub check_locked_lem : (check_locked c now u r s).0 ≡ (
        if is_locked now (user_total_lock_key u) s
        then lock_of session now (user_total_lock_key u) s
        else if is_locked now (user_lock_key u r) s
        then lock_of user_ref now (user_lock_key u r) s
        else if is_locked now (cust_lock_key r) s
        then lock_of customer_ref now (cust_lock_key r) s
        else unlocked)
    unfolding check_locked ttl_sec
    check_locked_lem = simp (c.get_lem, c.ttl_lem, peek-get_now) (ground arith)

    -- An attempt is let through only if all three locks are off.
    pub unlocked-all_off :
        (check_locked c now u r s).0.locked ≡ false
        → (is_locked now (user_total_lock_key u) s ≡ false)
          × (is_locked now (user_lock_key u r) s ≡ false)
          × (is_locked now (cust_lock_key r) s ≡ false)
    unlocked-all_off h = ground (arith, check_locked_lem)

    -- Asking only reads: what every read keeps, it keeps.
    check_locked-keeps :
        (P : State → Type 0)
        → ((k : Text) (x : State) → P x → P (get now k x).1)
        → P s
        → P (check_locked c now u r s).1
    unfolding check_locked
    check_locked-keeps P keep p =
        let p₁ = keep (user_total_lock_key u) s p in
        let p₂ = keep (user_lock_key u r) _ p₁ in
        let p₃ = keep (cust_lock_key r) _ p₂ in
        elim (Bool-cases (is_truthy (get now (user_total_lock_key u) s).0)) [
          | inl on ↦ rw on p₁
          | inr off ↦
              rw off
                (elim (Bool-cases (
                  is_truthy
                    (get now (user_lock_key u r) (get now (user_total_lock_key u) s).1).0)) [
                      | inl on ↦ rw on p₂
                      | inr off' ↦
                          rw off'
                            (elim (Bool-cases (
                              is_truthy
                                (get now (cust_lock_key r)
                                  (get now (user_lock_key u r)
                                    (get now (user_total_lock_key u) s).1).1).0)) [
                                      | inl on ↦ rw on p₃
                                      | inr off'' ↦ rw off'' p₃
                                    ])
                    ])
        ]

    pub peek-check_locked :
        (t : ℕ) (j : Text) → now ≤ t → peek t j (check_locked c now u r s).1 ≡ peek t j s
    peek-check_locked t j le =
        check_locked-keeps (λ x. peek t j x ≡ peek t j s) (λ k x e. c.peek-get now t k j x le ∙ e)
          refl

    pub HasRoom-check_locked : (n : ℕ) → HasRoom n s → HasRoom n (check_locked c now u r s).1
    HasRoom-check_locked n room =
        check_locked-keeps (HasRoom n) (λ k x. c.HasRoom-get n now k x) room
