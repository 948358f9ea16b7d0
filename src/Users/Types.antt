-- ===== src/Users/Types.antt =====
-- The value objects of src/modules/auth/domain/value-objects and the events of
-- src/modules/auth/domain/events.
use app_tu_phuc_vu.Prelude.{ℕ, Bool, true, false, Option, none, some, if◌then◌else◌}
use app_tu_phuc_vu.Prelude.Text.{Text, codes, text_eq}

pub data ProviderType : Type 0 where
  phone zalo google facebook apple : ProviderType

pub data UserRole : Type 0 where
  customer admin : UserRole

pub data UserStatus : Type 0 where
  active suspended deleted : UserStatus

-- The values of the enumerations.
unfoldable pub provider_value : ProviderType → Text
provider_value phone = codes "phone"
provider_value zalo = codes "zalo"
provider_value google = codes "google"
provider_value facebook = codes "facebook"
provider_value apple = codes "apple"

unfoldable pub role_value : UserRole → Text
role_value customer = codes "customer"
role_value admin = codes "admin"

unfoldable pub status_value : UserStatus → Text
status_value active = codes "active"
status_value suspended = codes "suspended"
status_value deleted = codes "deleted"

-- fromString; none is the error for an unknown value.
unfoldable pub provider_from_string : Text → Option ProviderType
unfolding text_eq
provider_from_string value =
    if text_eq value (codes "phone")
    then some phone
    else if text_eq value (codes "zalo")
    then some zalo
    else if text_eq value (codes "google")
    then some google
    else if text_eq value (codes "facebook")
    then some facebook
    else if text_eq value (codes "apple")
    then some apple
    else none

unfoldable pub role_from_string : Text → Option UserRole
unfolding text_eq
role_from_string value =
    if text_eq value (codes "customer")
    then some customer
    else if text_eq value (codes "admin")
    then some admin
    else none

unfoldable pub status_from_string : Text → Option UserStatus
unfolding text_eq
status_from_string value =
    if text_eq value (codes "active")
    then some active
    else if text_eq value (codes "suspended")
    then some suspended
    else if text_eq value (codes "deleted")
    then some deleted
    else none

-- Two value objects of one class are equal where their components are.
unfoldable pub provider_equals : ProviderType → ProviderType → Bool
unfolding text_eq provider_value
provider_equals p q = text_eq (provider_value p) (provider_value q)

pub data EventType : Type 0 where
  provider_linked user_registered : EventType

-- The aggregate's type is User.
pub record DomainEvent : Type 0 where
  pub event_id : Text
  pub event_type : EventType
  pub aggregate_id : Text
  pub occurred_at : ℕ
  pub provider_type : Text
  pub provider_id : Text

pub record ProviderLink : Type 0 where
  pub id : Text
  pub user_id : Text
  pub provider_type : ProviderType
  pub provider_id : Text
  pub provider_email : Option Text
  pub is_verified : Bool
  pub created_at : ℕ
  pub updated_at : ℕ

-- ProviderLink.create
abbrev pub create_link : ℕ → Text → Text → ProviderType → Text → Option Text → ProviderLink
create_link now id user_id provider_type provider_id provider_email = record {
  id = id;
  user_id = user_id;
  provider_type = provider_type;
  provider_id = provider_id;
  provider_email = provider_email;
  is_verified = false;
  created_at = now;
  updated_at = now;
}

unfoldable pub mark_verified : ℕ → ProviderLink → ProviderLink
mark_verified now link = record link { is_verified = true; updated_at = now }
