-- ===== src/Binding/FlowTests.antt =====
-- The bind flow (src/modules/binding) on the in-memory cache and a small customer service: runs, and
-- the theorems at concrete inputs.
use app_tu_phuc_vu.Prelude.{
  ℕ, suc, ◌≡◌, ◌≢◌, refl, if◌then◌else◌, true, false, Option, none, some, List, [], ◌∷◌, ok, err,
  length, ◌&&◌, not, arith,
}
use app_tu_phuc_vu.Prelude.OrderedMap
use app_tu_phuc_vu.Prelude.Text.{Text, codes, text_eq}
use app_tu_phuc_vu.Cache.Memory
use app_tu_phuc_vu.Cache.Memory.Reads.{peek}
use app_tu_phuc_vu.Cache.Memory.Instance.{memory_cache}
use app_tu_phuc_vu.Binding.Types.{BindingCacheEntry, CacheValue, ResolveResult, one, ma_kh}
use app_tu_phuc_vu.Binding.Keys.{
  user_fail_key, user_lock_key, cust_fail_key, cust_lock_key, user_total_fail_key,
  user_total_lock_key, init_key, bind_key,
}
use app_tu_phuc_vu.Binding.RateLimiter.{
  bump, trip, strongest, record_failure, ttl_sec, check_locked, user_ref_ceiling,
  customer_ref_ceiling, session_ceiling, clear_failures,
}
use app_tu_phuc_vu.Binding.Pii.{Cipher, encrypt_if_needed, decrypt_if_needed, plain}
use app_tu_phuc_vu.Binding.Tables.{Verified, secret, first_row, update_row, upsert_verified}
use app_tu_phuc_vu.Binding.Env.{
  Env, World, CustomerService, CreateCustomerRequest, sinh_hoat, created,
}
use app_tu_phuc_vu.Binding.Flow.{
  BindBody, BindResult, validation, session_expired, foreign_customer, upstream, Caller,
  allowed_refs, allowed_of, includes, cache_get, cache_set, cache_delete, write_audit,
  session_phone, remote_resolve, remote_verify, remote_profile, remote_create, encrypt_id, upsert,
}
use app_tu_phuc_vu.Binding.Service.{
  no_match, init_phone, bind_init, accept, reject, verify_secret, attempt, bind,
}
use app_tu_phuc_vu.Binding.Service.Success.{lock_state, IsEarned, bind-IsEarned}
use app_tu_phuc_vu.Binding.Service.SingleUse.{bind_once}
use app_tu_phuc_vu.Binding.Service.Refusals.{is_bound, owns, barred-asks_nothing}
use app_tu_phuc_vu.Binding.Service.Audit.{IsAudited, bind-IsAudited}
use app_tu_phuc_vu.Binding.Tables.Upsert.{IsUnique}
use app_tu_phuc_vu.Binding.Register.Outcomes.{IsRegistered, bind_register-IsRegistered}
use app_tu_phuc_vu.Binding.Requests.{
  Request, serve, serve_all, serve_all-IsUnique, asks_init, asks_bind, asks_register, asks_route,
}
use app_tu_phuc_vu.Binding.Guard.AfterBind.{bind-can_activate}
use app_tu_phuc_vu.Binding.Guard.Backing.{IsBacked, can_activate-IsBacked}
use app_tu_phuc_vu.Binding.Register.{
  register_created, register_outcome, register_phone, bind_register,
}
use app_tu_phuc_vu.Binding.Guard.{BoundCustomer, passes, resolve_binding, can_activate}

flow : Unit {0}
unfolding Memory.create Memory.get Memory.set Memory.delete Memory.ttl Memory.get_full_key peek
    OrderedMap.get OrderedMap.put OrderedMap.has OrderedMap.delete text_eq user_fail_key
    user_lock_key cust_fail_key cust_lock_key user_total_fail_key user_total_lock_key init_key
    bind_key bump trip strongest record_failure ttl_sec check_locked clear_failures user_ref_ceiling
    customer_ref_ceiling session_ceiling encrypt_if_needed decrypt_if_needed first_row update_row
    upsert_verified allowed_refs allowed_of includes cache_get cache_set cache_delete write_audit
    session_phone remote_resolve remote_verify remote_profile remote_create encrypt_id upsert
    init_phone bind_init accept reject verify_secret attempt bind register_created register_outcome
    register_phone bind_register resolve_binding can_activate
flow = tt

-- A cipher that puts the vector before the text.
abbrev tail_of : Text → Option Text
tail_of [] = none
tail_of (x ∷ xs) = some xs

cons-ne_nil : (x : ℕ) (xs : Text) → x ∷ xs ≢ []
cons-ne_nil x xs h = absurd (cc)

abbrev prefixing : Cipher
prefixing = record {
  encrypt = λ iv x. iv ∷ x;
  decrypt = tail_of;
  decrypt-encrypt = λ iv x. refl;
  encrypt-ne_nil = λ iv x. cons-ne_nil iv x;
}

-- One customer, at one phone, whose secret is "123".
abbrev resolved_one : ResolveResult
resolved_one = record no_match { status = one; customer_ref = some (codes "REF-1") }

abbrev one_customer : CustomerService
one_customer = record {
  Remote = ℕ;
  resolve = λ phone n. (some (if text_eq phone (codes "0900") then resolved_one else no_match), n);
  verify = λ request n. (some (text_eq request.secret_value (codes "123")), suc n);
  create = λ phone profile n.
      (created (record { customer_id = codes "C-2"; customer_ref = codes "REF-2" }), n);
  profile = λ ref n. (some (codes "C-1"), n);
}

abbrev env : Env
env = record {
  cache = memory_cache CacheValue;
  customers = one_customer;
  cipher = prefixing;
  uuid = λ n. n ∷ [];
  accepts = λ x. true;
}

abbrev start : World env
start = record {
  cached = record { cache = []; key_prefix = []; max_entries = 1000 };
  users = (codes "u1", some (codes "0900")) ∷ (codes "u2", some (codes "0901")) ∷ [];
  bindings = [];
  audit = [];
  remote = 0;
  drawn = 0;
}

abbrev caller : Caller
caller = record { user_id = codes "u1"; session_id = codes "s1"; device_info = none; ip = none }

abbrev newcomer : Caller
newcomer = record caller { user_id = codes "u2"; session_id = codes "s2" }

abbrev saying : Text → Text → BindBody
saying ref value = record { customer_ref = ref; secret_type = ma_kh; secret_value = value }

abbrev right_body : BindBody
right_body = saying (codes "REF-1") (codes "123")

abbrev after_init : World env
after_init = (bind_init env 1000 caller start).1

abbrev after_bind : World env
after_bind = (bind env 2000 caller right_body after_init).1

abbrev bound_reply : BindResult
bound_reply = record { bound = true; customer_id = some (codes "C-1") }

bind_test : bind env 2000 caller right_body after_init ≡ (ok bound_reply, after_bind)
unfolding flow
bind_test = refl

bind-IsEarned_example : IsEarned env 2000 caller right_body after_init bound_reply after_bind
bind-IsEarned_example =
    bind-IsEarned env 2000 caller right_body after_init bound_reply after_bind bind_test refl

-- A reference that the resolve did not return, and a wrong secret.
foreign_test :
    (bind env 2000 caller (saying (codes "REF-9") (codes "123")) after_init).0
    ≡ err (validation foreign_customer)
unfolding flow
foreign_test = refl

wrong_test :
    (bind env 2000 caller (saying (codes "REF-1") (codes "1")) after_init).0
    ≡ ok (record { bound = false; customer_id = none })
unfolding flow
wrong_test = refl

room_left : env.cache.HasRoom 1 after_init.cached
unfolding flow
room_left = omega arith

distinct_keys : text_eq (bind_key (codes "u1")) (init_key (codes "s1")) ≡ false
unfolding flow
distinct_keys = refl

bind_once_example :
    (bind env 3000 caller right_body after_bind).0 ≡ err (validation session_expired)
bind_once_example =
    bind_once env 2000 caller right_body after_init bound_reply after_bind bind_test refl room_left
      3000 right_body distinct_keys

audited_test : (bind env 2000 caller right_body after_init).0 ≢ err upstream
unfolding flow
audited_test h = absurd (cc)

bind-IsAudited_example :
    IsAudited caller right_body
      (bind env 2000 caller right_body after_init).0
      after_init.audit
      (bind env 2000 caller right_body after_init).1.audit
bind-IsAudited_example =
    bind-IsAudited env 2000 caller right_body (λ x. refl) after_init audited_test

abbrev foreign_body : BindBody
foreign_body = saying (codes "REF-9") (codes "123")

refused_test : is_bound (bind env 2000 caller foreign_body after_init).0 ≡ false
unfolding flow
refused_test = refl

barred_test :
    (owns env 2000 caller foreign_body after_init
      && not (lock_state env 2000 caller foreign_body after_init).0.locked)
    ≡ false
unfolding flow
barred_test = refl

barred-asks_nothing_example :
    ((bind env 2000 caller foreign_body after_init).1.remote ≡ after_init.remote)
    × ((bind env 2000 caller foreign_body after_init).1.bindings ≡ after_init.bindings)
    × (is_bound (bind env 2000 caller foreign_body after_init).0 ≡ false)
barred-asks_nothing_example =
    barred-asks_nothing env 2000 caller foreign_body after_init barred_test

abbrev guarded_customer : BoundCustomer
guarded_customer = record {
  id = codes "u1";
  customer_id = codes "C-1";
  customer_ref = codes "REF-1";
  verified_at = some 2000;
  device_info = none;
}

bind-can_activate_example :
    (can_activate env 3602000 (some (codes "u1")) false after_bind).0
    ≡ passes (some guarded_customer)
bind-can_activate_example =
    bind-can_activate env 2000 caller right_body after_init after_bind (codes "C-1") 3602000
      bind_test room_left (cons-ne_nil _ _) (cons-ne_nil _ _) (omega arith)

guard_test :
    (can_activate env 3000 (some (codes "u1")) false after_bind).0 ≡ passes (some guarded_customer)
unfolding flow
guard_test = refl

can_activate-IsBacked_example :
    (guarded_customer.id ≡ codes "u1")
    × ((entry : BindingCacheEntry) × IsBacked env 3000 (codes "u1") after_bind entry
        × (decrypt_if_needed prefixing entry.customer_id_cipher ≡ plain (codes "C-1"))
        × (codes "REF-1" ≡ entry.customer_ref))
can_activate-IsBacked_example =
    can_activate-IsBacked env 3000 (codes "u1") after_bind guarded_customer guard_test

abbrev profile : CreateCustomerRequest
profile = record {
  full_name = codes "A";
  classification = sinh_hoat;
  address = record { street = []; ward = []; district = []; city = [] };
  email = none;
}

abbrev registered_reply : BindResult
registered_reply = record { bound = true; customer_id = some (codes "C-2") }

abbrev after_register : World env
after_register = (bind_register env 1000 newcomer profile start).1

register_test :
    bind_register env 1000 newcomer profile start ≡ (ok registered_reply, after_register)
unfolding flow
register_test = refl

bind_register-IsRegistered_example :
    IsRegistered env 1000 newcomer profile start registered_reply after_register
bind_register-IsRegistered_example =
    bind_register-IsRegistered env 1000 newcomer profile start registered_reply after_register
      register_test

known_test : is_bound (bind_register env 1000 caller profile start).0 ≡ false
unfolding flow
known_test = refl

abbrev requests : List (ℕ × Request)
requests =
    (1000, asks_init caller)
    ∷ (2000, asks_bind caller right_body)
    ∷ (3000, asks_init caller)
    ∷ (4000, asks_bind caller right_body)
    ∷ (5000, asks_register newcomer profile)
    ∷ (6000, asks_route (some (codes "u1")) false)
    ∷ []

-- The second bind of the same reference updates the row.
rows_test : length (serve_all env requests start).bindings ≡ 2
unfolding flow serve serve_all
rows_test = refl

serve_all-IsUnique_example : IsUnique (serve_all env requests start).bindings
serve_all-IsUnique_example = serve_all-IsUnique env requests start (λ u r. omega arith)

abbrev verified_once : Verified
verified_once = record {
  user_id = codes "u1";
  customer_ref = codes "REF-1";
  enc_customer_id = some (codes "x");
  factor_used = secret ma_kh;
  device_info = none;
  now = 5;
}
