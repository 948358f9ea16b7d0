-- ===== src/Security/Authorization/Tests.antt =====
-- Requests to a route of src/libs/shared/security/authorization.decorator.ts.
use app_tu_phuc_vu.Prelude.{◌≡◌, refl, ◌↔◌, true, Option, none, some, [], ◌∷◌, ok, err}
use app_tu_phuc_vu.Prelude.Text.{codes, text_eq, includes, starts_with}
use app_tu_phuc_vu.Security.Authorization.{
  AuthUser, AuthRequest, delete, ResourceRule, SecureOptions, secured,
  derive_permissions_from_roles, resource_of, every, has_all, evaluate_condition,
  missing_permission, not_authenticated,
}
use app_tu_phuc_vu.Security.Authorization.Allowed.{
  RolesMet, PermissionsMet, ResourceMet, secured_iff,
}
use app_tu_phuc_vu.Security.Authorization.Ownership.{renamed, secured-owner}

abbrev rule : ResourceRule
rule = record {
  resource = codes "order";
  access = delete ∷ [];
  condition = some (codes "user == resource.ownerId");
}

abbrev no_options : SecureOptions
no_options = record { roles = none; permissions = none; resource = none }

abbrev on_orders : SecureOptions
on_orders = record {
  roles = none;
  permissions = some (codes "order:delete" ∷ []);
  resource = some rule;
}

abbrev an : AuthUser
an = record {
  id = some (codes "an");
  role = some (codes "user");
  roles = none;
  permissions = some (codes "order:delete" ∷ []);
}

abbrev asked_by : Option AuthUser → AuthRequest
asked_by user = record { user = user; body_user_id = none; params_user_id = none }

passes_test : secured no_options on_orders (asked_by (some an)) ≡ ok true
unfolding secured every has_all resource_of evaluate_condition text_eq includes starts_with
passes_test = refl

unknown_test : secured no_options on_orders (asked_by none) ≡ err not_authenticated
unfolding secured
unknown_test = refl

-- An admin with a list of permissions of its own has no others.
masked_test :
    secured no_options on_orders
      (asked_by (some (record an { roles = some (codes "admin" ∷ []); permissions = some [] })))
    ≡ err missing_permission
unfolding secured every has_all resource_of derive_permissions_from_roles text_eq
masked_test = refl

secured_iff_example : (secured no_options on_orders (asked_by (some an)) ≡ ok true) ↔ (
    RolesMet none (asked_by (some an))
    × PermissionsMet (some (codes "order:delete" ∷ [])) (asked_by (some an))
    × ResourceMet (some rule) (asked_by (some an)))
secured_iff_example = secured_iff no_options on_orders (asked_by (some an))

secured-owner_example :
    secured no_options on_orders (asked_by (some an))
    ≡ secured no_options on_orders (asked_by (some (renamed an (some (codes "binh")))))
unfolding includes starts_with
secured-owner_example =
    secured-owner no_options on_orders rule (codes "user == resource.ownerId") an
      (some (codes "binh")) (asked_by (some an))
      (asked_by (some (renamed an (some (codes "binh"))))) refl refl refl refl refl
