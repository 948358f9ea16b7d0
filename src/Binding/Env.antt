-- ===== src/Binding/Env.antt =====
-- What the bind flow runs on (src/modules/binding, src/modules/account/clients): the cache, the
-- customer service, the cipher and the database, and the state that they hold.
use app_tu_phuc_vu.Prelude.{ℕ, Bool, Option, List}
use app_tu_phuc_vu.Prelude.OrderedMap.{OrderedMap}
use app_tu_phuc_vu.Prelude.Text.{Text}
use app_tu_phuc_vu.Cache.Contract.{Cache}
use app_tu_phuc_vu.Binding.Types.{CacheValue, SecretType, ResolveResult}
use app_tu_phuc_vu.Binding.Pii.{Cipher}
use app_tu_phuc_vu.Binding.Tables.{BindingRow, AuditEntry}

pub record VerifyRequest : Type 0 where
  pub customer_ref : Text
  pub secret_type : SecretType
  pub secret_value : Text

pub data Classification : Type 0 where
  sinh_hoat san_xuat hanh_chinh : Classification

pub record CreateAddress : Type 0 where
  pub street : Text
  pub ward : Text
  pub district : Text
  pub city : Text

pub record CreateCustomerRequest : Type 0 where
  pub full_name : Text
  pub classification : Classification
  pub address : CreateAddress
  pub email : Option Text

pub record CreateCustomerResult : Type 0 where
  pub customer_id : Text
  pub customer_ref : Text

-- `create` returns, throws a ConflictException, or throws anything else.
pub data CreateOutcome : Type 0 where
  created : CreateCustomerResult → CreateOutcome
  conflicted : CreateOutcome
  failed : CreateOutcome

-- The remote service: a call changes its state, and `none` is a call that throws. Of a profile the
-- bind flow reads the customer id.
pub record CustomerService : Type 1 where
  pub Remote : Type 0
  pub resolve : Text → Remote → Option ResolveResult × Remote
  pub verify : VerifyRequest → Remote → Option Bool × Remote
  pub create : Text → CreateCustomerRequest → Remote → CreateOutcome × Remote
  pub profile : Text → Remote → Option Text × Remote

-- `uuid n` is the n-th random id, and `accepts` says which audit rows the database takes.
pub record Env : Type 1 where
  pub cache : Cache CacheValue
  pub customers : CustomerService
  pub cipher : Cipher
  pub uuid : ℕ → Text
  pub accepts : AuditEntry → Bool

-- `drawn` counts the random values taken so far.
pub record World (e : Env) : Type 0 where
  pub cached : e.cache.State
  pub users : OrderedMap (Option Text)
  pub bindings : List BindingRow
  pub audit : List AuditEntry
  pub remote : e.customers.Remote
  pub drawn : ℕ
