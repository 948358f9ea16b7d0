-- ===== src/Binding/Flow.antt =====
-- The types, the parts and the remote calls of src/modules/binding/binding.service.ts. A request runs
-- at one reading `now` of the clock, in milliseconds.
use app_tu_phuc_vu.Prelude.{
  ℕ, ◌+◌, Bool, Option, none, some, List, [], ◌∷◌, ◌++◌, map, any, or_else, if◌then◌else◌, Exec, ok,
  returns, throws, modifies,
}
use app_tu_phuc_vu.Prelude.OrderedMap
use app_tu_phuc_vu.Prelude.Text.{Text, text_eq}
use app_tu_phuc_vu.Binding.Types.{
  SecretType, ResolveResult, ResolveStatus, none_found, one, many, CacheValue, init, binding,
  BindingCacheEntry,
}
use app_tu_phuc_vu.Binding.Pii.{encrypt_if_needed}
use app_tu_phuc_vu.Binding.Tables
use app_tu_phuc_vu.Binding.Tables.{AuditEntry, AuditAction, AuditDetail, Factor, upsert_verified}
use app_tu_phuc_vu.Binding.RateLimiter.{LockReason}
use app_tu_phuc_vu.Binding.Env.{Env, World, VerifyRequest, CreateCustomerRequest, CreateOutcome}

pub record BindBody : Type 0 where
  pub customer_ref : Text
  pub secret_type : SecretType
  pub secret_value : Text

pub record BindResult : Type 0 where
  pub bound : Bool
  pub customer_id : Option Text

pub data Invalid : Type 0 where
  session_expired foreign_customer no_verified_phone : Invalid

pub data BindError : Type 0 where
  validation : Invalid → BindError
  locked_out : LockReason → ℕ → BindError
  customer_exists : Option ResolveStatus → BindError
  upstream : BindError

-- Where a request comes from: the session's user and id, the device and the address.
pub record Caller : Type 0 where
  pub user_id : Text
  pub session_id : Text
  pub device_info : Option Text
  pub ip : Option Text

abbrev pub init_ttl_sec : ℕ
init_ttl_sec = 300

abbrev pub binding_cache_ttl_sec : ℕ
binding_cache_ttl_sec = 3600

-- `init.customerRef ? [init.customerRef] : []`
abbrev pub ref_list : Option Text → List Text
ref_list none = []
ref_list (some []) = []
ref_list (some (x ∷ xs)) = (x ∷ xs) ∷ []

unfoldable pub allowed_refs : ResolveResult → List Text
allowed_refs r = elim r.status [
  | one ↦ ref_list r.customer_ref
  | many ↦ map (λ c. c.customer_ref) (or_else r.candidates [])
  | none_found ↦ []
]

-- The references of a pending resolve, as the cache returned it.
unfoldable pub allowed_of : Option CacheValue → List Text
unfolding allowed_refs
allowed_of (some (init r)) = allowed_refs r
allowed_of _ = []

unfoldable pub includes : List Text → Text → Bool
includes refs r = any (λ x. text_eq x r) refs

abbrev pub status_ref : ResolveResult → Option Text
status_ref r = elim r.status [ one ↦ r.customer_ref | _ ↦ none ]

abbrev pub entry_of : Caller → Option Text → AuditAction → Bool → AuditDetail → AuditEntry
entry_of who ref action success detail = record {
  user_id = who.user_id;
  customer_ref = ref;
  action = action;
  success = success;
  detail = detail;
  ip = who.ip;
  device_info = who.device_info;
}

-- `rows[0]?.phoneNumber ?? null`, and then `if (!phone)`: the empty text counts as none.
abbrev phone_in : Option (Option Text) → Option Text
phone_in (some (some (x ∷ xs))) = some (x ∷ xs)
phone_in _ = none

abbrev pub bound_entry : ℕ → Caller → Text → Option Text → BindingCacheEntry
bound_entry now who ref cipher_id = record {
  customer_id_cipher = cipher_id;
  customer_ref = ref;
  verified_at = some now;
  device_info = who.device_info;
}

abbrev pub warm_entry : ℕ → Caller → Text → Option Text → CacheValue
warm_entry now who ref cipher_id = binding (bound_entry now who ref cipher_id)

abbrev pub verified_by : ℕ → Caller → Text → Option Text → Factor → Tables.Verified
verified_by now who ref cipher_id by = record {
  user_id = who.user_id;
  customer_ref = ref;
  enc_customer_id = cipher_id;
  factor_used = by;
  device_info = who.device_info;
  now = now;
}

module _ (e : Env) where
  abbrev pub Bind : Type 0 → Type 0
  Bind A = Exec BindError (World e) A

  unfoldable pub cache_get : ℕ → Text → Bind (Option CacheValue)
  cache_get now key w =
      let (found, s) = e.cache.get now key w.cached in (ok found, record w { cached = s })

  unfoldable pub cache_set : ℕ → Text → CacheValue → ℕ → Bind Unit
  cache_set now key v ttl = modifies (λ w. record w { cached = e.cache.set now key v ttl w.cached })

  unfoldable pub cache_delete : Text → Bind Unit
  cache_delete key = modifies (λ w. record w { cached = e.cache.delete key w.cached })

  -- A failed insert is logged and forgotten.
  unfoldable pub write_audit : AuditEntry → Bind Unit
  write_audit entry =
      modifies (λ w. if e.accepts entry then record w { audit = w.audit ++ entry ∷ [] } else w)

  -- A remote call that may throw.
  abbrev pub or_upstream : {A : Type 0} → Option A → Bind A
  or_upstream none = throws upstream
  or_upstream (some x) = returns x

  unfoldable pub session_phone : Text → World e → Option Text
  session_phone u w = phone_in (OrderedMap.get w.users u)

  unfoldable pub remote_resolve : Text → Bind ResolveResult
  remote_resolve phone w =
      let (answer, r) = e.customers.resolve phone w.remote in
      or_upstream answer (record w { remote = r })

  unfoldable pub remote_verify : VerifyRequest → Bind Bool
  remote_verify request w =
      let (answer, r) = e.customers.verify request w.remote in
      or_upstream answer (record w { remote = r })

  unfoldable pub remote_profile : Text → Bind Text
  remote_profile ref w =
      let (answer, r) = e.customers.profile ref w.remote in
      or_upstream answer (record w { remote = r })

  unfoldable pub remote_create : Text → CreateCustomerRequest → Bind CreateOutcome
  remote_create phone profile w =
      let (answer, r) = e.customers.create phone profile w.remote in
      (ok answer, record w { remote = r })

  unfoldable pub encrypt_id : Text → Bind (Option Text)
  encrypt_id id w =
      (ok (encrypt_if_needed e.cipher w.drawn (some id)), record w { drawn = w.drawn + 1 })

  unfoldable pub upsert : Tables.Verified → Bind Unit
  upsert v = modifies (λ w. record w {
    bindings = upsert_verified (e.uuid w.drawn) v w.bindings;
    drawn = w.drawn + 1;
  })
