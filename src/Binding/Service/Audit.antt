-- ===== src/Binding/Service/Audit.antt =====
-- The audit trail of `bind` (src/modules/binding/binding.service.ts).
use app_tu_phuc_vu.Prelude.{
  ℕ, ◌≡◌, ◌≢◌, refl, true, false, some, List, [], ◌∷◌, ◌++◌, Result, err, arith, Bool-cases,
  Option-cases, inl, inr,
}
use app_tu_phuc_vu.Binding.Keys.{init_key}
use app_tu_phuc_vu.Binding.Tables
use app_tu_phuc_vu.Binding.Tables.{
  AuditEntry, factor, secret, lockout_hit, init_expired, foreign_ref_rejected,
}
use app_tu_phuc_vu.Binding.RateLimiter.{is_truthy, check_locked, record_failure}
use app_tu_phuc_vu.Binding.Env.{Env, World}
use app_tu_phuc_vu.Binding.Flow.{
  BindBody, BindResult, BindError, upstream, Caller, allowed_of, includes, cache_get, cache_set,
  cache_delete, write_audit, entry_of, remote_verify, remote_profile, encrypt_id, upsert,
}
use app_tu_phuc_vu.Binding.Service.{
  accept, reject, verify_secret, attempt, bind, reason_or, failure_entry,
}
use app_tu_phuc_vu.Binding.Service.Success.{request_of}
use app_tu_phuc_vu.Binding.Service.Refusals.{is_bound}

-- One row was added, which names the caller and the reference and says whether a customer was bound.
pub record IsAudited (who : Caller) (body : BindBody) (r : Result BindError BindResult)
    (before after : List AuditEntry) : Type 0 where
  pub row : AuditEntry
  pub added : after ≡ before ++ row ∷ []
  pub user : row.user_id ≡ who.user_id
  pub ref : row.customer_ref ≡ some body.customer_ref
  pub told : row.success ≡ is_bound r

module _ (e : Env) (now : ℕ) (who : Caller) (body : BindBody) where
  -- The outcome and the log of a run, audited against the log before it.
  abbrev Audited : World e → Result BindError BindResult × World e → Type 0
  Audited w run = IsAudited who body run.0 w.audit run.1.audit

  module _ (all_taken : (x : AuditEntry) → e.accepts x ≡ true) where
    accept-IsAudited :
        (w : World e)
        → (accept e now who body w).0 ≢ err upstream
        → Audited w (accept e now who body w)
    unfolding accept remote_profile encrypt_id upsert cache_delete write_audit cache_set
    accept-IsAudited w h =
        let row =
          entry_of who (some body.customer_ref) Tables.bind true
            (factor (secret body.secret_type)) in
        record {
          row = row;
          added = ground (arith, all_taken row);
          user = refl;
          ref = refl;
          told = ground arith;
        }

    reject-IsAudited : (w : World e) → Audited w (reject e now who body w)
    unfolding reject write_audit
    reject-IsAudited w =
        let row =
          failure_entry who body
            (record_failure e.cache now who.user_id body.customer_ref w.cached).0 in
        record {
          row = row;
          added = ground (arith, all_taken row);
          user = ground arith;
          ref = ground arith;
          told = ground arith;
        }

    verify_secret-IsAudited :
        (w : World e)
        → (verify_secret e now who body w).0 ≢ err upstream
        → Audited w (verify_secret e now who body w)
    unfolding verify_secret remote_verify
    verify_secret-IsAudited w h =
        let answer = e.customers.verify (request_of body) w.remote in
        let w₁ = record w { remote = answer.1 } in
        elim (Option-cases answer.0) [
          | inl threw ↦ absurd (h (rw threw))
          | inr (true, right) ↦ rw right (accept-IsAudited w₁ (λ x. h (rw right x)))
          | inr (false, wrong) ↦ rw wrong (reject-IsAudited w₁)
        ]

    attempt-IsAudited :
        (w : World e)
        → (attempt e now who body w).0 ≢ err upstream
        → Audited w (attempt e now who body w)
    unfolding attempt write_audit
    attempt-IsAudited w h =
        let check = check_locked e.cache now who.user_id body.customer_ref w.cached in
        let w₁ = record w { cached = check.1 } in
        let row =
          entry_of who (some body.customer_ref) Tables.lockout false
            (lockout_hit (reason_or check.0.reason)) in
        elim (Bool-cases check.0.locked) [
          | inl barred ↦ rw barred (record {
            row = row;
            added = rw (all_taken row);
            user = refl;
            ref = refl;
            told = refl;
          })
          | inr free ↦ rw free (verify_secret-IsAudited w₁ (λ x. h (rw free x)))
        ]

    -- Where the database takes every audit row, each bind leaves exactly one, on every branch but
    -- the one where the customer service throws: it names the caller and the reference, and its
    -- success says whether a customer was bound.
    pub bind-IsAudited :
        (w : World e)
        → (bind e now who body w).0 ≢ err upstream
        → IsAudited who body (bind e now who body w).0 w.audit (bind e now who body w).1.audit
    unfolding bind cache_get write_audit
    bind-IsAudited w h =
        let found = e.cache.get now (init_key who.session_id) w.cached in
        let expired = entry_of who (some body.customer_ref) Tables.bind false init_expired in
        let foreign =
          entry_of who (some body.customer_ref) Tables.bind false foreign_ref_rejected in
        elim (Bool-cases (is_truthy found.0)) [
          | inr none' ↦ rw none' (record {
            row = expired;
            added = rw (all_taken expired);
            user = refl;
            ref = refl;
            told = refl;
          })
          | inl pending ↦ elim (Bool-cases (includes (allowed_of found.0) body.customer_ref)) [
            | inr other ↦
                rw (pending, other)
                  (record {
                    row = foreign;
                    added = rw (all_taken foreign);
                    user = refl;
                    ref = refl;
                    told = refl;
                  })
            | inl own ↦
                rw (pending, own)
                  (attempt-IsAudited (record w { cached = found.1 }) (λ x. h (rw (pending, own) x)))
          ]
        ]
