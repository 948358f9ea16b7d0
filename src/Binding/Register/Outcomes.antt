-- ===== src/Binding/Register/Outcomes.antt =====
-- What `bindRegister` of src/modules/binding/binding.service.ts rests on, and what it leaves.
use app_tu_phuc_vu.Prelude.{
  ℕ, ◌⊎◌, refl, ◌+◌, ◌≡◌, true, false, some, Option, ok, arith, Option-cases, inl, inr,
}
use app_tu_phuc_vu.Prelude.Text.{Text}
use app_tu_phuc_vu.Binding.Keys.{init_key, bind_key}
use app_tu_phuc_vu.Binding.Types.{ResolveResult, ResolveStatus, none_found, one, many}
use app_tu_phuc_vu.Binding.Pii.{encrypt_if_needed}
use app_tu_phuc_vu.Binding.Tables.{upsert_verified, self_registration}
use app_tu_phuc_vu.Binding.Env.{
  Env, World, CreateCustomerRequest, CreateCustomerResult, CreateOutcome, created, conflicted,
  failed,
}
use app_tu_phuc_vu.Binding.Flow.{
  BindResult, Caller, binding_cache_ttl_sec, cache_set, cache_delete, write_audit, session_phone,
  remote_resolve, remote_create, encrypt_id, upsert, warm_entry, verified_by,
}
use app_tu_phuc_vu.Binding.Register.{
  is_none_found, register_created, register_outcome, register_phone, bind_register,
}
use app_tu_phuc_vu.Binding.Service.Refusals.{is_bound}

module _ (e : Env) (now : ℕ) (who : Caller) (profile : CreateCustomerRequest) where
  abbrev pub cipher_of : World e → CreateCustomerResult → Option Text
  cipher_of w customer = encrypt_if_needed e.cipher w.drawn (some customer.customer_id)

  -- What a registration rests on and leaves: the session's own phone, at which the customer service
  -- knows nobody, the customer that it then created, and that customer's row and cached entry.
  pub record IsRegistered (w : World e) (b : BindResult) (w' : World e) : Type 0 where
    pub phone : Text
    pub customer : CreateCustomerResult
    pub own_phone : session_phone e who.user_id w ≡ some phone
    pub nobody :
        (r : ResolveResult) × ((e.customers.resolve phone w.remote).0 ≡ some r)
        × (r.status ≡ none_found)
    pub made :
        (e.customers.create phone profile (e.customers.resolve phone w.remote).1).0
        ≡ created customer
    pub reply : b ≡ record { bound = true; customer_id = some customer.customer_id }
    pub row :
        w'.bindings
        ≡ upsert_verified
            (e.uuid (w.drawn + 1))
            (verified_by now who customer.customer_ref (cipher_of w customer) self_registration)
            w.bindings
    pub cache :
        w'.cached
        ≡ e.cache.set now
            (bind_key who.user_id)
            (warm_entry now who customer.customer_ref (cipher_of w customer))
            binding_cache_ttl_sec
            (e.cache.delete (init_key who.session_id) w.cached)

  CreateOutcome-cases :
      (o : CreateOutcome)
      → ((c : CreateCustomerResult) × (o ≡ created c)) ⊎ (o ≡ conflicted) ⊎ (o ≡ failed)
  CreateOutcome-cases (created c) = inl (c, refl)
  CreateOutcome-cases conflicted = inr (inl refl)
  CreateOutcome-cases failed = inr (inr refl)

  is_none_found_lem : (s : ResolveStatus) → is_none_found s ≡ true → s ≡ none_found
  is_none_found_lem none_found h = refl
  is_none_found_lem one h = absurd (cc)
  is_none_found_lem many h = absurd (cc)

  -- From a phone on: nobody is found there, and a customer is created.
  register_phone-created :
      (w : World e) (phone : Text) (b : BindResult) (w' : World e)
      → register_phone e now who profile (some phone) w ≡ (ok b, w')
      → let answer = e.customers.resolve phone w.remote in
        let outcome = e.customers.create phone profile answer.1 in
        (r : ResolveResult) × (customer : CreateCustomerResult) × (answer.0 ≡ some r)
        × (is_none_found r.status ≡ true)
        × (outcome.0 ≡ created customer)
        × (register_created e now who customer (record w { remote = outcome.1 }) ≡ (ok b, w'))
  unfolding register_phone remote_resolve remote_create register_outcome write_audit
  register_phone-created w phone b w' h =
      let answer = e.customers.resolve phone w.remote in
      let outcome = e.customers.create phone profile answer.1 in
      elim (Option-cases answer.0) [
        | inl threw ↦ absurd (ground arith)
        | inr (r, found) ↦ elim (CreateOutcome-cases outcome.0) [
          | inl (customer, made) ↦ (r, customer, found, ground arith, made, ground arith)
          | inr other ↦ absurd (ground arith)
        ]
      ]

  -- A registration that answers, answers that the customer is bound: the session's user has a phone,
  -- the customer service knew nobody there and created the customer, whose id is in the reply and,
  -- encrypted, in the table's verified row and the guard's cache; the pending resolve is used up.
  pub bind_register-IsRegistered :
      (w : World e) (b : BindResult) (w' : World e)
      → bind_register e now who profile w ≡ (ok b, w')
      → IsRegistered w b w'
  unfolding bind_register register_phone register_created encrypt_id upsert cache_delete cache_set
      write_audit
  bind_register-IsRegistered w b w' h = elim (Option-cases (session_phone e who.user_id w)) [
    | inl missing ↦ absurd (ground arith)
    | inr (phone, own) ↦
        let (r, customer, found, nobody, made, rest) =
          register_phone-created w phone b w' (ground arith) in
        record {
          phone = phone;
          customer = customer;
          own_phone = own;
          nobody = (r, found, is_none_found_lem r.status nobody);
          made = made;
          reply = ground arith;
          row = ground arith;
          cache = ground arith;
        }
  ]

  -- A registration that fails, with whatever error, leaves the table of bindings and the cache.
  pub register_failed-keeps :
      (w : World e)
      → is_bound (bind_register e now who profile w).0 ≡ false
      → ((bind_register e now who profile w).1.bindings ≡ w.bindings)
        × ((bind_register e now who profile w).1.cached ≡ w.cached)
  unfolding bind_register register_phone remote_resolve remote_create register_outcome write_audit
      register_created encrypt_id upsert cache_delete cache_set
  register_failed-keeps w h = ground arith
