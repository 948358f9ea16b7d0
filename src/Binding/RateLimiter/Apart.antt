-- ===== src/Binding/RateLimiter/Apart.antt =====
-- The keys of different ceilings differ (src/modules/binding/binding-rate-limiter.service.ts).
use app_tu_phuc_vu.Prelude.{◌≡◌, refl, false, ◌∷◌, ◌++◌, arith}
use app_tu_phuc_vu.Prelude.Text.{Text, text_eq}
use app_tu_phuc_vu.Binding.Keys.{
  user_fail_key, user_lock_key, cust_fail_key, cust_lock_key, user_total_fail_key,
  user_total_lock_key,
}
use app_tu_phuc_vu.Binding.RateLimiter.{
  Ceiling, user_ref_ceiling, customer_ref_ceiling, session_ceiling,
}
use app_tu_phuc_vu.Binding.RateLimiter.Budget.{IsSound}

-- Two ceilings with no key in common.
pub record IsApart (p q : Ceiling) : Type 0 where
  pub fail_fail : text_eq p.fail_key q.fail_key ≡ false
  pub lock_fail : text_eq p.lock_key q.fail_key ≡ false
  pub fail_lock : text_eq p.fail_key q.lock_key ≡ false
  pub lock_lock : text_eq p.lock_key q.lock_key ≡ false

keys : Unit {0}
unfolding user_ref_ceiling customer_ref_ceiling session_ceiling user_fail_key user_lock_key
    cust_fail_key cust_lock_key user_total_fail_key user_total_lock_key text_eq
keys = tt

pub user_ref-session-IsApart : (u r v : Text) → IsApart (user_ref_ceiling u r) (session_ceiling v)
unfolding keys
user_ref-session-IsApart u r v = record {
  fail_fail = refl;
  lock_fail = refl;
  fail_lock = refl;
  lock_lock = refl;
}

pub customer-session-IsApart : (r v : Text) → IsApart (customer_ref_ceiling r) (session_ceiling v)
unfolding keys
customer-session-IsApart r v = record {
  fail_fail = refl;
  lock_fail = refl;
  fail_lock = refl;
  lock_lock = refl;
}

pub session-session-IsApart :
    (u v : Text) → text_eq u v ≡ false → IsApart (session_ceiling u) (session_ceiling v)
unfolding keys
session-session-IsApart u v h = record {
  fail_fail = h;
  lock_fail = refl;
  fail_lock = refl;
  lock_lock = h;
}

pub user_ref-customer-IsApart :
    (u r v : Text) → IsApart (user_ref_ceiling u r) (customer_ref_ceiling v)
unfolding keys
user_ref-customer-IsApart u r v = record {
  fail_fail = refl;
  lock_fail = refl;
  fail_lock = refl;
  lock_lock = refl;
}

pub session-customer-IsApart : (u v : Text) → IsApart (session_ceiling u) (customer_ref_ceiling v)
unfolding keys
session-customer-IsApart u v = record {
  fail_fail = refl;
  lock_fail = refl;
  fail_lock = refl;
  lock_lock = refl;
}

pub customer-customer-IsApart :
    (r v : Text) → text_eq r v ≡ false → IsApart (customer_ref_ceiling r) (customer_ref_ceiling v)
unfolding keys
customer-customer-IsApart r v h = record {
  fail_fail = h;
  lock_fail = refl;
  fail_lock = refl;
  lock_lock = h;
}

pub customer-user_ref-IsApart :
    (r v w : Text) → IsApart (customer_ref_ceiling r) (user_ref_ceiling v w)
unfolding keys
customer-user_ref-IsApart r v w = record {
  fail_fail = refl;
  lock_fail = refl;
  fail_lock = refl;
  lock_lock = refl;
}

pub session-user_ref-IsApart : (u v w : Text) → IsApart (session_ceiling u) (user_ref_ceiling v w)
unfolding keys
session-user_ref-IsApart u v w = record {
  fail_fail = refl;
  lock_fail = refl;
  fail_lock = refl;
  lock_lock = refl;
}

pub user_ref-user_ref-IsApart :
    (u r v w : Text)
    → text_eq (u ++ b':' ∷ r) (v ++ b':' ∷ w) ≡ false
    → IsApart (user_ref_ceiling u r) (user_ref_ceiling v w)
unfolding keys
user_ref-user_ref-IsApart u r v w h = record {
  fail_fail = h;
  lock_fail = refl;
  fail_lock = refl;
  lock_lock = h;
}

pub user_ref-IsSound : (u r : Text) → IsSound (user_ref_ceiling u r)
unfolding keys
user_ref-IsSound u r = record {
  some_limit = omega arith;
  some_window = omega arith;
  window_le_lock = omega arith;
  keys_differ = refl;
}

pub customer_ref-IsSound : (r : Text) → IsSound (customer_ref_ceiling r)
unfolding keys
customer_ref-IsSound r = record {
  some_limit = omega arith;
  some_window = omega arith;
  window_le_lock = omega arith;
  keys_differ = refl;
}

pub session-IsSound : (u : Text) → IsSound (session_ceiling u)
unfolding keys
session-IsSound u = record {
  some_limit = omega arith;
  some_window = omega arith;
  window_le_lock = omega arith;
  keys_differ = refl;
}
