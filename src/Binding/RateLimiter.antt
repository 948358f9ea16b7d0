-- ===== src/Binding/RateLimiter.antt =====
-- src/modules/binding/binding-rate-limiter.service.ts: the three ceilings on wrong guesses, over
-- any cache that keeps the contract. A call runs at one reading `now` of the clock, in milliseconds.
pub mod Trips
pub mod Budget
pub mod Checks
pub mod Attack
pub mod Apart
pub mod Failures
pub mod Ceilings
pub mod Pairs
use app_tu_phuc_vu.Prelude.{
  ℕ, ◌+◌, ◌-◌, ◌*◌, Bool, true, false, Option, none, some, ltb, leb, ◌==◌, not, if◌then◌else◌,
}
use app_tu_phuc_vu.Prelude.Text.{Text}
use app_tu_phuc_vu.Cache.Contract.{Cache, max_zero}
use app_tu_phuc_vu.Binding.Types.{CacheValue, lock, counter}
use app_tu_phuc_vu.Binding.Keys.{
  user_fail_key, user_lock_key, cust_fail_key, cust_lock_key, user_total_fail_key,
  user_total_lock_key,
}

pub data LockReason : Type 0 where
  user_ref customer_ref session : LockReason

pub record LockState : Type 0 where
  pub locked : Bool
  pub reason : Option LockReason
  pub retry_after_sec : Option ℕ

pub record FailureOutcome : Type 0 where
  pub locked_now : Bool
  pub reason : Option LockReason
  pub retry_after_sec : Option ℕ

abbrev pub user_ref_limit : ℕ
user_ref_limit = 3

abbrev pub user_ref_window_sec : ℕ
user_ref_window_sec = 900

abbrev pub customer_ref_limit : ℕ
customer_ref_limit = 10

abbrev pub customer_ref_window_sec : ℕ
customer_ref_window_sec = 3600

abbrev pub customer_ref_lock_sec : ℕ
customer_ref_lock_sec = 86400

abbrev pub user_total_limit : ℕ
user_total_limit = 5

abbrev pub user_total_window_sec : ℕ
user_total_window_sec = 900

abbrev pub user_total_lock_sec : ℕ
user_total_lock_sec = 900

-- One ceiling: the counter of failures, the lock that it arms, and the numbers of its block in
-- `recordFailure`.
pub record Ceiling : Type 0 where
  pub fail_key : Text
  pub lock_key : Text
  pub limit : ℕ
  pub window_sec : ℕ
  pub lock_sec : ℕ

unfoldable pub user_ref_ceiling : Text → Text → Ceiling
user_ref_ceiling u r = record {
  fail_key = user_fail_key u r;
  lock_key = user_lock_key u r;
  limit = user_ref_limit;
  window_sec = user_ref_window_sec;
  lock_sec = user_ref_window_sec;
}

unfoldable pub customer_ref_ceiling : Text → Ceiling
customer_ref_ceiling r = record {
  fail_key = cust_fail_key r;
  lock_key = cust_lock_key r;
  limit = customer_ref_limit;
  window_sec = customer_ref_window_sec;
  lock_sec = customer_ref_lock_sec;
}

unfoldable pub session_ceiling : Text → Ceiling
session_ceiling u = record {
  fail_key = user_total_fail_key u;
  lock_key = user_total_lock_key u;
  limit = user_total_limit;
  window_sec = user_total_window_sec;
  lock_sec = user_total_lock_sec;
}

-- A cached value in a condition: null and the number 0 are falsy.
abbrev pub is_truthy : Option CacheValue → Bool
is_truthy none = false
is_truthy (some (lock n)) = not (n == 0)
is_truthy (some _) = true

-- `entry && now - entry.since < windowSec * 1000`: the entry's count and start, where it counts.
abbrev pub in_window : ℕ → ℕ → Option CacheValue → Option (ℕ × ℕ)
in_window now window_sec none = none
in_window now window_sec (some (counter count since)) =
    if ltb (now - since) (window_sec * 1000) then some (count, since) else none
in_window now window_sec (some _) = none

abbrev pub unlocked : LockState
unlocked = record { locked = false; reason = none; retry_after_sec = none }

-- The strongest ceiling that was armed: session, then customer_ref, then user_ref.
unfoldable pub strongest : Bool → Bool → Bool → FailureOutcome
strongest user_ref_armed customer_armed session_armed =
    if session_armed
    then record {
      locked_now = true;
      reason = some session;
      retry_after_sec = some user_total_lock_sec;
    }
    else if customer_armed
    then record {
      locked_now = true;
      reason = some customer_ref;
      retry_after_sec = some customer_ref_lock_sec;
    }
    else if user_ref_armed
    then record {
      locked_now = true;
      reason = some user_ref;
      retry_after_sec = some user_ref_window_sec;
    }
    else record { locked_now = false; reason = none; retry_after_sec = none }

module _ (c : Cache CacheValue) where
  open c use {State, get, set, delete, ttl}

  abbrev bump_found : ℕ → Text → ℕ → Option (ℕ × ℕ) → State → ℕ × State
  bump_found now key window_sec none s = (1, set now key (counter 1 now) window_sec s)
  bump_found now key window_sec (some (count, since)) s =
      (count + 1, set now key (counter (count + 1) since) window_sec s)

  unfoldable pub bump : ℕ → Text → ℕ → State → ℕ × State
  bump now key window_sec s =
      let (entry, s') = get now key s in
      bump_found now key window_sec (in_window now window_sec entry) s'

  -- One block of `recordFailure`: was its lock armed?
  unfoldable pub trip : Ceiling → ℕ → State → Bool × State
  trip ceiling now s =
      let (count, s') = bump now ceiling.fail_key ceiling.window_sec s in
      if leb ceiling.limit count
      then (true, delete ceiling.fail_key (set now ceiling.lock_key (lock 1) ceiling.lock_sec s'))
      else (false, s')

  unfoldable pub record_failure : ℕ → Text → Text → State → FailureOutcome × State
  record_failure now u r s =
      let (user_ref_armed, s₁) = trip (user_ref_ceiling u r) now s in
      let (customer_armed, s₂) = trip (customer_ref_ceiling r) now s₁ in
      let (session_armed, s₃) = trip (session_ceiling u) now s₂ in
      (strongest user_ref_armed customer_armed session_armed, s₃)

  unfoldable pub ttl_sec : ℕ → Text → State → ℕ
  ttl_sec now key s = max_zero (ttl now key s)

  abbrev pub locked_by : LockReason → ℕ → Text → State → LockState
  locked_by reason now key s = record {
    locked = true;
    reason = some reason;
    retry_after_sec = some (ttl_sec now key s);
  }

  unfoldable pub check_locked : ℕ → Text → Text → State → LockState × State
  check_locked now u r s =
      let (total, s₁) = get now (user_total_lock_key u) s in
      if is_truthy total
      then (locked_by session now (user_total_lock_key u) s₁, s₁)
      else let (user, s₂) = get now (user_lock_key u r) s₁ in
        if is_truthy user
        then (locked_by user_ref now (user_lock_key u r) s₂, s₂)
        else let (cust, s₃) = get now (cust_lock_key r) s₂ in
          if is_truthy cust
          then (locked_by customer_ref now (cust_lock_key r) s₃, s₃)
          else (unlocked, s₃)

  unfoldable pub clear_failures : Text → Text → State → State
  clear_failures u r s = delete (user_total_fail_key u) (delete (user_fail_key u r) s)
