-- ===== src/Binding/Types.antt =====
-- The data of the bind flow: src/modules/account/clients/customer-service.client.ts,
-- src/modules/binding/dto/bind.dto.ts, the cached values and the rows of the two tables.
use app_tu_phuc_vu.Prelude.{ℕ, Bool, Option, List}
use app_tu_phuc_vu.Prelude.Text.{Text}

pub data SecretType : Type 0 where
  last_invoice_amount ma_kh : SecretType

pub data InputMode : Type 0 where
  numeric text : InputMode

pub record ChallengeDescriptor : Type 0 where
  pub factor : SecretType
  pub label : Text
  pub input_mode : InputMode

pub record Candidate : Type 0 where
  pub customer_ref : Text
  pub masked_hint : Text
  pub challenge : ChallengeDescriptor

pub data ResolveStatus : Type 0 where
  none_found one many : ResolveStatus

pub record ResolveResult : Type 0 where
  pub status : ResolveStatus
  pub customer_ref : Option Text
  pub masked_hint : Option Text
  pub challenge : Option ChallengeDescriptor
  pub candidates : Option (List Candidate)
  pub capped : Bool

-- The guard's cached entry: the customer id stays ciphertext.
pub record BindingCacheEntry : Type 0 where
  pub customer_id_cipher : Option Text
  pub customer_ref : Text
  pub verified_at : Option ℕ
  pub device_info : Option Text

-- What the bind flow keeps in the cache: a lock's number, a windowed counter, a pending resolve and
-- a user's binding.
pub data CacheValue : Type 0 where
  lock : ℕ → CacheValue
  counter : ℕ → ℕ → CacheValue
  init : ResolveResult → CacheValue
  binding : BindingCacheEntry → CacheValue
