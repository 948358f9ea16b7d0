-- ===== src/Users/Aggregate.antt =====
-- src/modules/auth/domain/entities/user.entity.ts on src/libs/core/domain/entities/aggregate-root.ts.
-- Each operation runs at one reading of the clock; `uuid n` is the n-th random id that is drawn.
pub mod Invariant
pub mod Requests
pub mod Reconstitution
use app_tu_phuc_vu.Prelude.{
  ℕ, ◌+◌, Bool, ◌&&◌, Option, none, some, List, [], ◌∷◌, ◌++◌, any, or_else, if◌then◌else◌,
}
use app_tu_phuc_vu.Prelude.Text.{Text, text_eq}
use app_tu_phuc_vu.Users.Types.{
  ProviderType, phone, UserRole, customer, UserStatus, active, EventType, provider_linked,
  user_registered, DomainEvent, ProviderLink, create_link, provider_equals, provider_value,
  role_value, status_value, role_from_string, status_from_string,
}

-- The aggregate root's fields and the user's own.
pub record User : Type 0 where
  pub id : Text
  pub version : ℕ
  pub domain_events : List DomainEvent
  pub created_at : ℕ
  pub updated_at : ℕ
  pub email : Option Text
  pub phone_number : Option Text
  pub name : Text
  pub role : UserRole
  pub status : UserStatus
  pub providers : List ProviderLink

-- An event counts as an update, and an update as a version.
unfoldable pub add_domain_event : ℕ → DomainEvent → User → User
add_domain_event now event u = record u {
  domain_events = u.domain_events ++ event ∷ [];
  updated_at = now;
  version = u.version + 1;
}

unfoldable pub clear_domain_events : User → User
clear_domain_events u = record u { domain_events = [] }

abbrev pub is_linked : ProviderType → Text → ProviderLink → Bool
is_linked t id link = provider_equals link.provider_type t && text_eq link.provider_id id

abbrev pub has_phone : User → Bool
has_phone u = any (λ link. provider_equals link.provider_type phone) u.providers

unfoldable pub update_name : Text → User → User
update_name name u = record u { name = name }

module _ (uuid : ℕ → Text) where
  abbrev pub event_of : EventType → ℕ → ℕ → User → ProviderType → Text → DomainEvent
  event_of kind n now u t provider_id = record {
    event_id = uuid n;
    event_type = kind;
    aggregate_id = u.id;
    occurred_at = now;
    provider_type = provider_value t;
    provider_id = provider_id;
  }

  -- none is a conflict: the provider is linked already.
  unfoldable pub add_provider : ℕ → ℕ → ProviderType → Text → Option Text → User → Option User
  unfolding add_domain_event provider_equals
  add_provider n now t provider_id provider_email u =
      if any (is_linked t provider_id) u.providers
      then none
      else some (
          add_domain_event now (event_of provider_linked (n + 1) now u t provider_id) (record u {
            providers =
                u.providers ++ create_link now (uuid n) u.id t provider_id provider_email ∷ [];
          }))

  unfoldable pub link_phone : ℕ → ℕ → Text → User → Option User
  unfolding add_provider
  link_phone n now number u =
      let u' = record u { phone_number = some number } in
      if has_phone u then some u' else add_provider n now phone number none u'

  -- The user of `register` before its provider is linked.
  abbrev pub new_user : ℕ → ℕ → Option Text → Option Text → Option Text → User
  new_user n now number email name = record {
    id = uuid n;
    version = 0;
    domain_events = [];
    created_at = now;
    updated_at = now;
    email = email;
    phone_number = number;
    name = or_else name [];
    role = customer;
    status = active;
    providers = [];
  }

  -- The end of `register`, by what linking the provider gave.
  abbrev pub announced : ℕ → ℕ → ProviderType → Text → Option User → Option User
  announced n now t provider_id none = none
  announced n now t provider_id (some u) =
      some (add_domain_event now (event_of user_registered n now u t provider_id) u)

  unfoldable pub register :
      ℕ
      → ℕ
      → Option Text
      → Option Text
      → Option Text
      → ProviderType
      → Text
      → Option Text
      → Option User
  unfolding add_provider
  register n now number email name t provider_id provider_email =
      announced (n + 3) now t provider_id
        (add_provider (n + 1) now t provider_id provider_email (new_user n now number email name))

-- What a row gives back to the aggregate.
pub record UserParams : Type 0 where
  pub id : Text
  pub version : ℕ
  pub email : Option Text
  pub phone_number : Option Text
  pub name : Text
  pub role : Text
  pub status : Text
  pub created_at : ℕ
  pub updated_at : ℕ
  pub providers : List ProviderLink

abbrev pub reconstituted : UserParams → UserRole → UserStatus → User
reconstituted p role status = record {
  id = p.id;
  version = p.version;
  domain_events = [];
  created_at = p.created_at;
  updated_at = p.updated_at;
  email = p.email;
  phone_number = p.phone_number;
  name = p.name;
  role = role;
  status = status;
  providers = p.providers;
}

-- none is the error for an invalid role or status.
unfoldable pub reconstitute : UserParams → Option User
unfolding role_from_string status_from_string
reconstitute p = elim (role_from_string p.role) [
  | none ↦ none
  | some role ↦ elim (status_from_string p.status) [
    | none ↦ none
    | some status ↦ some (reconstituted p role status)
  ]
]

-- The getters, as a repository reads them.
unfoldable pub to_params : User → UserParams
unfolding role_value status_value
to_params u = record {
  id = u.id;
  version = u.version;
  email = u.email;
  phone_number = u.phone_number;
  name = u.name;
  role = role_value u.role;
  status = status_value u.status;
  created_at = u.created_at;
  updated_at = u.updated_at;
  providers = u.providers;
}
