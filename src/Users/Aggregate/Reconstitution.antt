-- ===== src/Users/Aggregate/Reconstitution.antt =====
-- What a row keeps of a user (reconstitute of src/modules/auth/domain/entities/user.entity.ts).
use app_tu_phuc_vu.Prelude.{◌≡◌, refl, arith, some}
use app_tu_phuc_vu.Users.Types.{
  UserRole, customer, admin, UserStatus, active, suspended, deleted, role_value, status_value,
  role_from_string, status_from_string,
}
use app_tu_phuc_vu.Users.Aggregate.{User, clear_domain_events, reconstitute, to_params}

role_from_string-role_value : (role : UserRole) → role_from_string (role_value role) ≡ some role
unfolding role_from_string role_value
role_from_string-role_value customer = refl
role_from_string-role_value admin = refl

status_from_string-status_value :
    (status : UserStatus) → status_from_string (status_value status) ≡ some status
unfolding status_from_string status_value
status_from_string-status_value active = refl
status_from_string-status_value suspended = refl
status_from_string-status_value deleted = refl

-- A user that is read back from what its getters give is the user without its pending events.
pub reconstitute-to_params : (u : User) → reconstitute (to_params u) ≡ some (clear_domain_events u)
unfolding reconstitute to_params clear_domain_events
reconstitute-to_params u =
    ground (arith, role_from_string-role_value u.role, status_from_string-status_value u.status)
