-- ===== src/Binding/Service.antt =====
-- `bindInit` and `bind` of src/modules/binding/binding.service.ts.
pub mod Success
pub mod Refusals
pub mod Audit
pub mod SingleUse
use app_tu_phuc_vu.Prelude.{
  ℕ, true, false, Option, none, some, or_else, length, if◌then◌else◌, ok, returns, throws, modifies,
  ◌>>=◌, ◌>>◌,
}
use mathlib.Core.Option
use app_tu_phuc_vu.Prelude.Text.{Text}
use app_tu_phuc_vu.Binding.Types.{ResolveResult, none_found, init}
use app_tu_phuc_vu.Binding.Keys.{init_key, bind_key}
use app_tu_phuc_vu.Binding.Tables
use app_tu_phuc_vu.Binding.Tables.{
  AuditEntry, challenge_attempt, lockout, resolved, init_expired, foreign_ref_rejected, lockout_hit,
  lockout_armed, verify_failed, factor, secret,
}
use app_tu_phuc_vu.Binding.RateLimiter.{
  LockReason, user_ref, FailureOutcome, is_truthy, check_locked, record_failure, clear_failures,
}
use app_tu_phuc_vu.Binding.Env.{Env}
use app_tu_phuc_vu.Binding.Flow.{
  BindBody, BindResult, session_expired, foreign_customer, validation, locked_out, Caller,
  init_ttl_sec, binding_cache_ttl_sec, allowed_of, includes, status_ref, Bind, cache_get, cache_set,
  cache_delete, write_audit, entry_of, session_phone, remote_resolve, remote_verify, remote_profile,
  encrypt_id, upsert, warm_entry, verified_by,
}

abbrev pub no_match : ResolveResult
no_match = record {
  status = none_found;
  customer_ref = none;
  masked_hint = none;
  challenge = none;
  candidates = none;
  capped = false;
}

abbrev pub reason_or : Option LockReason → LockReason
reason_or r = or_else r user_ref

abbrev pub failure_entry : Caller → BindBody → FailureOutcome → AuditEntry
failure_entry who body f =
    if f.locked_now
    then entry_of who (some body.customer_ref) Tables.lockout false
        (lockout_armed (reason_or f.reason) (or_else f.retry_after_sec 900))
    else entry_of who (some body.customer_ref) Tables.bind false verify_failed

module _ (e : Env) where
  unfoldable pub init_phone : ℕ → Caller → Option Text → Bind e ResolveResult
  init_phone now who none = returns no_match
  init_phone now who (some phone) = do
    result ← remote_resolve e phone
    write_audit e (
        entry_of who (status_ref result) challenge_attempt true
          (resolved result.status (Option.map length result.candidates) result.capped))
    cache_set e now (init_key who.session_id) (init result) init_ttl_sec
    returns result

  unfoldable pub bind_init : ℕ → Caller → Bind e ResolveResult
  bind_init now who w = init_phone now who (session_phone e who.user_id w) w

  -- The tail of `bind`, from the profile on.
  unfoldable pub accept : ℕ → Caller → BindBody → Bind e BindResult
  accept now who body = do
    customer_id ← remote_profile e body.customer_ref
    cipher_id ← encrypt_id e customer_id
    upsert e (verified_by now who body.customer_ref cipher_id (secret body.secret_type))
    modifies
        (λ w. record w { cached = clear_failures e.cache who.user_id body.customer_ref w.cached })
    cache_delete e (init_key who.session_id)
    write_audit e
        (entry_of who (some body.customer_ref) Tables.bind true (factor (secret body.secret_type)))
    cache_set e now (bind_key who.user_id) (warm_entry now who body.customer_ref cipher_id)
        binding_cache_ttl_sec
    returns (record { bound = true; customer_id = some customer_id })

  abbrev pub failure_reply : FailureOutcome → Bind e BindResult
  failure_reply f =
      if f.locked_now
      then throws (locked_out (reason_or f.reason) (or_else f.retry_after_sec 900))
      else returns (record { bound = false; customer_id = none })

  -- The branch of `bind` for a wrong secret.
  unfoldable pub reject : ℕ → Caller → BindBody → Bind e BindResult
  reject now who body = do
    outcome ← λ w.
        let (f, s) = record_failure e.cache now who.user_id body.customer_ref w.cached in
        (ok f, record w { cached = s })
    write_audit e (failure_entry who body outcome)
    failure_reply outcome

  unfoldable pub verify_secret : ℕ → Caller → BindBody → Bind e BindResult
  verify_secret now who body = do
    verified ← remote_verify e (record {
      customer_ref = body.customer_ref;
      secret_type = body.secret_type;
      secret_value = body.secret_value;
    })
    if verified then accept now who body else reject now who body

  -- From the lockout check on.
  unfoldable pub attempt : ℕ → Caller → BindBody → Bind e BindResult
  attempt now who body = do
    lock ← λ w.
        let (l, s) = check_locked e.cache now who.user_id body.customer_ref w.cached in
        (ok l, record w { cached = s })
    if lock.locked
        then (do
          write_audit e (
              entry_of who (some body.customer_ref) Tables.lockout false
                (lockout_hit (reason_or lock.reason)))
          throws (locked_out (reason_or lock.reason) (or_else lock.retry_after_sec 900)))
        else verify_secret now who body

  unfoldable pub bind : ℕ → Caller → BindBody → Bind e BindResult
  bind now who body = do
    pending ← cache_get e now (init_key who.session_id)
    if is_truthy pending
        then (if includes (allowed_of pending) body.customer_ref then attempt now who body else (do
          write_audit e
              (entry_of who (some body.customer_ref) Tables.bind false foreign_ref_rejected)
          throws (validation foreign_customer)))
        else (do
          write_audit e (entry_of who (some body.customer_ref) Tables.bind false init_expired)
          throws (validation session_expired))
