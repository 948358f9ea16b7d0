-- ===== src/Security/Authorization.antt =====
-- src/libs/shared/security/authorization.decorator.ts: the guards for roles, permissions and resources,
-- and the decorator Secure that applies them. A message is left out of its error.
pub mod Allowed
pub mod Ownership
mod Tests
use app_tu_phuc_vu.Prelude.{
  Bool, true, false, not, ◌&&◌, ◌||◌, ◌==◌, Option, none, some, List, [], ◌∷◌, ◌++◌, any, or_else,
  is_some, if◌then◌else◌, Result, ok, err,
}
use app_tu_phuc_vu.Prelude.Text.{Text, codes, text_eq, includes}

-- The user of a request: role and roles, and permissions where it carries them.
pub record AuthUser : Type 0 where
  pub id : Option Text
  pub role : Option Text
  pub roles : Option (List Text)
  pub permissions : Option (List Text)

-- A request, with the user id that its body or its path names.
pub record AuthRequest : Type 0 where
  pub user : Option AuthUser
  pub body_user_id : Option Text
  pub params_user_id : Option Text

pub data ResourceAccess : Type 0 where
  create read update delete list : ResourceAccess

abbrev pub access_value : ResourceAccess → Text
access_value create = codes "create"
access_value read = codes "read"
access_value update = codes "update"
access_value delete = codes "delete"
access_value list = codes "list"

-- The metadata of RequireResource; its ownerField is read by nothing.
pub record ResourceRule : Type 0 where
  pub resource : Text
  pub access : List ResourceAccess
  pub condition : Option Text

pub record SecureOptions : Type 0 where
  pub roles : Option (List Text)
  pub permissions : Option (List Text)
  pub resource : Option ResourceRule

-- The reasons of a ForbiddenException.
pub data Forbidden : Type 0 where
  not_authenticated missing_role missing_permission insufficient_access : Forbidden

abbrev pub contains : List Text → Text → Bool
contains xs x = any (λ y. text_eq y x) xs

abbrev pub some_contains : Option (List Text) → Text → Bool
some_contains none x = false
some_contains (some xs) x = contains xs x

abbrev pub is_text : Option Text → Text → Bool
is_text none x = false
is_text (some y) x = text_eq y x

abbrev pub holds_role : AuthUser → Text → Bool
holds_role u role = some_contains u.roles role || is_text u.role role

-- A guard's requirement, checked against the user of the request.
abbrev pub authenticated :
    Option AuthUser → (AuthUser → Result Forbidden Bool) → Result Forbidden Bool
authenticated none check = err not_authenticated
authenticated (some u) check = check u

abbrev pub unless : Bool → Forbidden → Result Forbidden Bool
unless allowed reason = if allowed then ok true else err reason

abbrev pub roles_guard : Option (List Text) → AuthRequest → Result Forbidden Bool
roles_guard none r = ok true
roles_guard (some required) r =
    authenticated r.user (λ u. unless (any (holds_role u) required) missing_role)

abbrev pub permissions_of_role : Text → List Text
permissions_of_role role =
    if text_eq role (codes "admin")
    then codes "*:*" ∷ []
    else if text_eq role (codes "manager")
    then codes "product:read"
      ∷ codes "product:create"
      ∷ codes "product:update"
      ∷ codes "order:read"
      ∷ codes "order:update"
      ∷ codes "user:read"
      ∷ []
    else if text_eq role (codes "user")
    then codes "product:read"
      ∷ codes "order:create"
      ∷ codes "order:read"
      ∷ codes "order:update"
      ∷ []
    else if text_eq role (codes "guest")
    then codes "product:read" ∷ []
    else []

unfoldable pub derive_permissions_from_roles : List Text → List Text
derive_permissions_from_roles [] = []
derive_permissions_from_roles (role ∷ roles) =
    permissions_of_role role ++ derive_permissions_from_roles roles

-- What stands before the first colon.
unfoldable pub resource_of : Text → Text
resource_of [] = []
resource_of (c ∷ permission) = let rest = resource_of permission in if c == 58 then [] else c ∷ rest

abbrev pub has_permission : List Text → Text → Bool
has_permission granted required =
    if contains granted (codes "*:*")
    then true
    else if contains granted required
    then true
    else if contains granted (resource_of required ++ codes ":*")
    then true
    else false

-- Permissions of the user's own, even none, stand in place of the roles'.
abbrev pub effective_permissions : AuthUser → List Text
effective_permissions u = or_else u.permissions (derive_permissions_from_roles (or_else u.roles []))

unfoldable pub every : (Text → Bool) → List Text → Bool
every p [] = true
every p (x ∷ xs) = p x && every p xs

abbrev pub permissions_guard : Option (List Text) → AuthRequest → Result Forbidden Bool
permissions_guard none r = ok true
permissions_guard (some required) r =
    authenticated r.user
      (λ u. unless (every (has_permission (effective_permissions u)) required) missing_permission)

-- The guard for resources reads the user's own permissions only.
abbrev pub has_own_permission : AuthUser → Text → Bool
has_own_permission u permission =
    contains (or_else u.permissions []) (codes "*:*")
    || contains (or_else u.permissions []) permission

abbrev pub access_permission : ResourceRule → ResourceAccess → Text
access_permission rule access = rule.resource ++ (codes ":" ++ access_value access)

unfoldable pub has_all : AuthUser → ResourceRule → List ResourceAccess → Bool
has_all u rule [] = true
has_all u rule (access ∷ accesses) =
    has_own_permission u (access_permission rule access) && has_all u rule accesses

-- The first id that is not empty.
abbrev pub or_params : Option Text → Option Text → Option Text
or_params none params = params
or_params (some []) params = params
or_params (some (c ∷ id)) params = some (c ∷ id)

abbrev pub same_id : Option Text → Option Text → Bool
same_id none none = true
same_id none (some y) = false
same_id (some x) none = false
same_id (some x) (some y) = text_eq x y

abbrev pub check_user_id_match : AuthUser → AuthRequest → Bool
check_user_id_match u r = same_id u.id (or_params r.body_user_id r.params_user_id)

abbrev pub check_resource_ownership : AuthUser → AuthRequest → Bool
check_resource_ownership u r = true

unfoldable pub evaluate_condition : Text → AuthUser → AuthRequest → Bool
evaluate_condition condition u r =
    if includes condition (codes "resource.ownerId")
    then check_resource_ownership u r
    else if includes condition (codes "user.roles.includes('admin')")
    then some_contains u.roles (codes "admin")
    else if includes condition (codes "user.id ==")
    then check_user_id_match u r
    else true

abbrev pub condition_met : Option Text → AuthUser → AuthRequest → Bool
condition_met none u r = true
condition_met (some []) u r = true
condition_met (some (c ∷ condition)) u r = evaluate_condition (c ∷ condition) u r

abbrev pub check_resource_access : AuthUser → ResourceRule → AuthRequest → Bool
check_resource_access u rule r =
    if some_contains u.roles (codes "admin")
    then true
    else if not (has_all u rule rule.access)
    then false
    else condition_met rule.condition u r

abbrev pub resource_guard : Option ResourceRule → AuthRequest → Result Forbidden Bool
resource_guard none r = ok true
resource_guard (some rule) r =
    authenticated r.user (λ u. unless (check_resource_access u rule r) insufficient_access)

-- getAllAndOverride: the handler's metadata, or else the class's.
abbrev pub override {ℓ} : {A : Type ℓ} → Option A → Option A → Option A
override none class_level = class_level
override (some a) class_level = some a

abbrev pub and_pass : Result Forbidden Bool → Result Forbidden Bool → Result Forbidden Bool
and_pass (ok true) next = next
and_pass (ok false) next = ok false
and_pass (err reason) next = err reason

abbrev pub only_if : Bool → Result Forbidden Bool → Result Forbidden Bool
only_if used guard = if used then guard else ok true

-- The guards that one use of Secure applies; each reads the metadata of handler and class.
abbrev pub guards_of :
    SecureOptions → SecureOptions → SecureOptions → AuthRequest → Result Forbidden Bool
guards_of o handler class_level r =
    and_pass (only_if (is_some o.roles) (roles_guard (override handler.roles class_level.roles) r))
      (and_pass
        (only_if (is_some o.permissions)
          (permissions_guard (override handler.permissions class_level.permissions) r))
        (only_if (is_some o.resource)
          (resource_guard (override handler.resource class_level.resource) r)))

-- Secure on a class and on its handler: the class's guards run first.
unfoldable pub secured : SecureOptions → SecureOptions → AuthRequest → Result Forbidden Bool
secured class_level handler r =
    and_pass (guards_of class_level handler class_level r) (guards_of handler handler class_level r)
