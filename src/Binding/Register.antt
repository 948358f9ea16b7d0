-- ===== src/Binding/Register.antt =====
-- `bindRegister` of src/modules/binding/binding.service.ts.
pub mod Outcomes
use app_tu_phuc_vu.Prelude.{
  ℕ, Bool, true, false, Option, none, some, if◌then◌else◌, returns, throws, ◌>>=◌, ◌>>◌,
}
use app_tu_phuc_vu.Prelude.Text.{Text}
use app_tu_phuc_vu.Binding.Types.{ResolveStatus, none_found}
use app_tu_phuc_vu.Binding.Keys.{init_key, bind_key}
use app_tu_phuc_vu.Binding.Tables.{register, factor, re_resolve, create_conflict, self_registration}
use app_tu_phuc_vu.Binding.Env.{
  Env, CreateCustomerRequest, CreateCustomerResult, CreateOutcome, created, conflicted, failed,
}
use app_tu_phuc_vu.Binding.Flow.{
  BindResult, no_verified_phone, validation, customer_exists, upstream, Caller,
  binding_cache_ttl_sec, Bind, cache_set, cache_delete, write_audit, entry_of, session_phone,
  remote_resolve, remote_create, encrypt_id, upsert, warm_entry, verified_by,
}

abbrev pub is_none_found : ResolveStatus → Bool
is_none_found none_found = true
is_none_found _ = false

module _ (e : Env) where
  -- The tail of `bindRegister`, from a created customer on.
  unfoldable pub register_created : ℕ → Caller → CreateCustomerResult → Bind e BindResult
  register_created now who customer = do
    cipher_id ← encrypt_id e customer.customer_id
    upsert e (verified_by now who customer.customer_ref cipher_id self_registration)
    cache_delete e (init_key who.session_id)
    write_audit e
        (entry_of who (some customer.customer_ref) register true (factor self_registration))
    cache_set e now (bind_key who.user_id) (warm_entry now who customer.customer_ref cipher_id)
        binding_cache_ttl_sec
    returns (record { bound = true; customer_id = some customer.customer_id })

  unfoldable pub register_outcome : ℕ → Caller → CreateOutcome → Bind e BindResult
  register_outcome now who (created customer) = register_created now who customer
  register_outcome now who conflicted = do
    write_audit e (entry_of who none register false create_conflict)
    throws (customer_exists none)
  register_outcome now who failed = throws upstream

  unfoldable pub register_phone :
      ℕ → Caller → CreateCustomerRequest → Option Text → Bind e BindResult
  register_phone now who profile none = throws (validation no_verified_phone)
  register_phone now who profile (some phone) = do
    found ← remote_resolve e phone
    if is_none_found found.status
        then (do outcome ← remote_create e phone profile; register_outcome now who outcome)
        else (do
          write_audit e (entry_of who none register false (re_resolve found.status))
          throws (customer_exists (some found.status)))

  unfoldable pub bind_register : ℕ → Caller → CreateCustomerRequest → Bind e BindResult
  bind_register now who profile w = register_phone now who profile (session_phone e who.user_id w) w
