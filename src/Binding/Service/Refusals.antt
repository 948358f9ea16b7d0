-- ===== src/Binding/Service/Refusals.antt =====
-- What a `bind` that is refused (src/modules/binding/binding.service.ts) leaves alone.
use app_tu_phuc_vu.Prelude.{ℕ, ◌≡◌, refl, Bool, true, false, not, ◌&&◌, Result, ok, err, arith}
use app_tu_phuc_vu.Binding.Keys.{init_key}
use app_tu_phuc_vu.Binding.RateLimiter.{check_locked}
use app_tu_phuc_vu.Binding.Env.{Env, World}
use app_tu_phuc_vu.Binding.Flow.{
  BindBody, BindResult, BindError, Caller, allowed_of, includes, cache_get, cache_set, cache_delete,
  write_audit, remote_verify, remote_profile, encrypt_id, upsert,
}
use app_tu_phuc_vu.Binding.Service.{accept, reject, verify_secret, attempt, bind}
use app_tu_phuc_vu.Binding.Service.Success.{request_of, after_read, lock_state}

-- Did the request report a bound customer?
abbrev pub is_bound : Result BindError BindResult → Bool
is_bound (ok b) = b.bound
is_bound (err x) = false

-- A bound customer is reported by an answer.
pub is_bound_lem :
    {W : Type 0} (run : Result BindError BindResult × W)
    → is_bound run.0 ≡ true
    → (b : BindResult) × (run ≡ (ok b, run.1)) × (b.bound ≡ true)
is_bound_lem (ok b, w) h = (b, refl, h)
is_bound_lem (err x, w) h = absurd (cc)

module _ (e : Env) (now : ℕ) (who : Caller) (body : BindBody) where
  accept-rows :
      (w : World e)
      → is_bound (accept e now who body w).0 ≡ false
      → (accept e now who body w).1.bindings ≡ w.bindings
  unfolding accept remote_profile encrypt_id upsert cache_delete write_audit cache_set
  accept-rows w h = ground arith

  reject-rows : (w : World e) → (reject e now who body w).1.bindings ≡ w.bindings
  unfolding reject write_audit
  reject-rows w = ground arith

  verify_secret-rows :
      (w : World e)
      → is_bound (verify_secret e now who body w).0 ≡ false
      → (verify_secret e now who body w).1.bindings ≡ w.bindings
  unfolding verify_secret remote_verify
  verify_secret-rows w h =
      let w₁ = record w { remote = (e.customers.verify (request_of body) w.remote).1 } in
      ground (arith, accept-rows w₁, reject-rows w₁)

  attempt-rows :
      (w : World e)
      → is_bound (attempt e now who body w).0 ≡ false
      → (attempt e now who body w).1.bindings ≡ w.bindings
  unfolding attempt write_audit
  attempt-rows w h = ground (
    arith,
    verify_secret-rows
        (record w { cached = (check_locked e.cache now who.user_id body.customer_ref w.cached).1 }),
  )

  -- A bind that does not report a bound customer, by an answer or an error, leaves the table of
  -- bindings as it was.
  pub refused-keeps_rows :
      (w : World e)
      → is_bound (bind e now who body w).0 ≡ false
      → (bind e now who body w).1.bindings ≡ w.bindings
  unfolding bind cache_get write_audit
  refused-keeps_rows w h =
      ground (arith, attempt-rows (record w { cached = after_read e now who body w }))

  -- Is the reference one that the session's pending resolve returned?
  abbrev pub owns : World e → Bool
  owns w =
      includes (allowed_of (e.cache.get now (init_key who.session_id) w.cached).0) body.customer_ref

  -- A bind at a reference that the session's pending resolve did not return, or under a lock, never
  -- asks the customer service: the secret is not tried, and nothing is bound.
  pub barred-asks_nothing :
      (w : World e)
      → (owns w && not (lock_state e now who body w).0.locked) ≡ false
      → ((bind e now who body w).1.remote ≡ w.remote)
        × ((bind e now who body w).1.bindings ≡ w.bindings)
        × (is_bound (bind e now who body w).0 ≡ false)
  unfolding bind cache_get write_audit attempt
  barred-asks_nothing w h = ground arith
