-- ===== src/Binding/Service/Success.antt =====
-- What a successful `bind` (src/modules/binding/binding.service.ts) rests on, and what it leaves.
use app_tu_phuc_vu.Prelude.{
  ℕ, ◌+◌, ◌≡◌, true, false, Option, some, ok, arith, Option-cases, inl, inr,
}
use app_tu_phuc_vu.Prelude.Text.{Text}
use app_tu_phuc_vu.Binding.Keys.{init_key, bind_key}
use app_tu_phuc_vu.Binding.Pii.{encrypt_if_needed}
use app_tu_phuc_vu.Binding.Tables.{secret, upsert_verified}
use app_tu_phuc_vu.Binding.RateLimiter.{check_locked, clear_failures, LockState}
use app_tu_phuc_vu.Binding.Env.{Env, World, VerifyRequest}
use app_tu_phuc_vu.Binding.Flow.{
  BindBody, BindResult, Caller, binding_cache_ttl_sec, allowed_of, includes, cache_get, cache_set,
  cache_delete, write_audit, remote_verify, remote_profile, encrypt_id, upsert, warm_entry,
  verified_by,
}
use app_tu_phuc_vu.Binding.Service.{accept, reject, verify_secret, attempt, bind}

abbrev pub request_of : BindBody → VerifyRequest
request_of body = record {
  customer_ref = body.customer_ref;
  secret_type = body.secret_type;
  secret_value = body.secret_value;
}

module _ (e : Env) (now : ℕ) (who : Caller) (body : BindBody) where
  abbrev pub cipher_of : World e → Text → Option Text
  cipher_of w id = encrypt_if_needed e.cipher w.drawn (some id)

  -- What `accept` leaves, from a world `w` on, for the customer id `id`.
  pub record IsAccepted (w : World e) (id : Text) (w' : World e) : Type 0 where
    pub row :
        w'.bindings
        ≡ upsert_verified
            (e.uuid (w.drawn + 1))
            (verified_by now who body.customer_ref (cipher_of w id) (secret body.secret_type))
            w.bindings
    pub cache :
        w'.cached
        ≡ e.cache.set now
            (bind_key who.user_id)
            (warm_entry now who body.customer_ref (cipher_of w id))
            binding_cache_ttl_sec
            (e.cache.delete
              (init_key who.session_id)
              (clear_failures e.cache who.user_id body.customer_ref w.cached))
    pub profile : (e.customers.profile body.customer_ref w.remote).0 ≡ some id

  accept-IsAccepted :
      (w : World e) (b : BindResult) (w' : World e)
      → accept e now who body w ≡ (ok b, w')
      → (id : Text) × (b ≡ record { bound = true; customer_id = some id }) × IsAccepted w id w'
  unfolding accept remote_profile encrypt_id upsert cache_delete write_audit cache_set
  accept-IsAccepted w b w' h =
      elim (Option-cases (e.customers.profile body.customer_ref w.remote).0) [
        | inl threw ↦ absurd (ground arith)
        | inr (id, answered) ↦ (id, ground arith, ground arith)
      ]

  -- The cache after the read of the pending resolve, and after the lockout check.
  abbrev pub after_read : World e → e.cache.State
  after_read w = (e.cache.get now (init_key who.session_id) w.cached).1

  abbrev pub lock_state : World e → LockState × e.cache.State
  lock_state w = check_locked e.cache now who.user_id body.customer_ref (after_read w)

  abbrev pub before_accept : World e → World e
  before_accept w = record w {
    cached = (lock_state w).1;
    remote = (e.customers.verify (request_of body) w.remote).1;
  }

  reject-not_bound :
      (w : World e) (b : BindResult) (w' : World e)
      → reject e now who body w ≡ (ok b, w')
      → b.bound ≡ false
  unfolding reject write_audit
  reject-not_bound w b w' h = ground arith

  verify_secret-accepts :
      (w : World e) (b : BindResult) (w' : World e)
      → verify_secret e now who body w ≡ (ok b, w')
      → b.bound ≡ true
      → ((e.customers.verify (request_of body) w.remote).0 ≡ some true)
        × (accept e now who body
              (record w { remote = (e.customers.verify (request_of body) w.remote).1 })
            ≡ (ok b, w'))
  unfolding verify_secret remote_verify
  verify_secret-accepts w b w' h bound = ground (
    arith,
    reject-not_bound (record w { remote = (e.customers.verify (request_of body) w.remote).1 }) b w',
  )

  attempt-verifies :
      (w : World e) (b : BindResult) (w' : World e)
      → attempt e now who body w ≡ (ok b, w')
      → ((check_locked e.cache now who.user_id body.customer_ref w.cached).0.locked ≡ false)
        × (verify_secret e now who body (record w {
          cached = (check_locked e.cache now who.user_id body.customer_ref w.cached).1;
        })
            ≡ (ok b, w'))
  unfolding attempt write_audit
  attempt-verifies w b w' h = ground arith

  bind-attempts :
      (w : World e) (b : BindResult) (w' : World e)
      → bind e now who body w ≡ (ok b, w')
      → (includes
            (allowed_of (e.cache.get now (init_key who.session_id) w.cached).0)
            body.customer_ref
          ≡ true)
        × (attempt e now who body (record w { cached = after_read w }) ≡ (ok b, w'))
  unfolding bind cache_get write_audit
  bind-attempts w b w' h = ground arith

  -- What a successful bind rests on, and what it leaves.
  pub record IsEarned (w : World e) (b : BindResult) (w' : World e) : Type 0 where
    pub id : Text
    pub reply : b ≡ record { bound = true; customer_id = some id }
    pub own_resolve :
        includes
          (allowed_of (e.cache.get now (init_key who.session_id) w.cached).0)
          body.customer_ref
        ≡ true
    pub not_locked : (lock_state w).0.locked ≡ false
    pub proved : (e.customers.verify (request_of body) w.remote).0 ≡ some true
    pub accepted : IsAccepted (before_accept w) id w'

  -- A bind that reports success had a reference that this session's pending resolve returned, met no
  -- lock, and had its secret confirmed by the customer service; it reports the id of the service's
  -- profile, and leaves that id encrypted in the table's verified row and in the guard's cache, with
  -- the pending resolve used up.
  pub bind-IsEarned :
      (w : World e) (b : BindResult) (w' : World e)
      → bind e now who body w ≡ (ok b, w')
      → b.bound ≡ true
      → IsEarned w b w'
  bind-IsEarned w b w' h bound =
      let (own, h₁) = bind-attempts w b w' h in
      let (free, h₂) = attempt-verifies (record w { cached = after_read w }) b w' h₁ in
      let (proved, h₃) =
        verify_secret-accepts (record w { cached = (lock_state w).1 }) b w' h₂ bound in
      let (id, reply, accepted) = accept-IsAccepted (before_accept w) b w' h₃ in
      record {
        id = id;
        reply = reply;
        own_resolve = own;
        not_locked = free;
        proved = proved;
        accepted = accepted;
      }
