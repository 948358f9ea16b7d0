-- ===== src/Security/Authorization/Ownership.antt =====
-- What a rule with the condition on the owner reads, in
-- src/libs/shared/security/authorization.decorator.ts.
use app_tu_phuc_vu.Prelude.{◌≡◌, ◌∙◌, refl, sym, ap, true, Option, none, some, List, [], ◌∷◌}
use app_tu_phuc_vu.Prelude.Text.{Text, codes, includes}
use app_tu_phuc_vu.Security.Authorization.{
  AuthUser, AuthRequest, ResourceAccess, ResourceRule, SecureOptions, insufficient_access,
  authenticated, unless, has_all, evaluate_condition, condition_met, check_resource_access,
  roles_guard, permissions_guard, resource_guard, override, secured,
}

condition_met-owner :
    (condition : Text) (u : AuthUser) (r : AuthRequest)
    → includes condition (codes "resource.ownerId") ≡ true
    → condition_met (some condition) u r ≡ true
unfolding evaluate_condition
condition_met-owner [] u r h = refl
condition_met-owner (c ∷ condition) u r h = rw h refl

-- The user under another id.
abbrev pub renamed : AuthUser → Option Text → AuthUser
renamed u id = record u { id = id }

has_all-renamed :
    (u : AuthUser) (id : Option Text) (rule : ResourceRule) (accesses : List ResourceAccess)
    → has_all (renamed u id) rule accesses ≡ has_all u rule accesses
unfolding has_all
has_all-renamed u id rule [] = refl
has_all-renamed u id rule (access ∷ accesses) = rw (has_all-renamed u id rule accesses) refl

check_resource_access-owner :
    (u : AuthUser) (id : Option Text) (rule : ResourceRule) (condition : Text) (r r' : AuthRequest)
    → rule.condition ≡ some condition
    → includes condition (codes "resource.ownerId") ≡ true
    → check_resource_access (renamed u id) rule r' ≡ check_resource_access u rule r
check_resource_access-owner u id rule condition r r' of_rule on_owner =
    rw
      (
        has_all-renamed u id rule rule.access,
        of_rule,
        condition_met-owner condition u r on_owner,
        condition_met-owner condition (renamed u id) r' on_owner,
      )
      refl

roles_guard-renamed :
    (o : Option (List Text)) (u : AuthUser) (id : Option Text) (r r' : AuthRequest)
    → r.user ≡ some u
    → r'.user ≡ some (renamed u id)
    → roles_guard o r ≡ roles_guard o r'
roles_guard-renamed none u id r r' first second = refl
roles_guard-renamed (some required) u id r r' first second = rw (first, second) refl

permissions_guard-renamed :
    (o : Option (List Text)) (u : AuthUser) (id : Option Text) (r r' : AuthRequest)
    → r.user ≡ some u
    → r'.user ≡ some (renamed u id)
    → permissions_guard o r ≡ permissions_guard o r'
permissions_guard-renamed none u id r r' first second = refl
permissions_guard-renamed (some required) u id r r' first second = rw (first, second) refl

resource_guard-renamed :
    (rule : ResourceRule) (condition : Text) (u : AuthUser) (id : Option Text) (r r' : AuthRequest)
    → r.user ≡ some u
    → r'.user ≡ some (renamed u id)
    → rule.condition ≡ some condition
    → includes condition (codes "resource.ownerId") ≡ true
    → resource_guard (some rule) r ≡ resource_guard (some rule) r'
resource_guard-renamed rule condition u id r r' first second of_rule on_owner =
    let judge = λ (q : AuthRequest) (v : AuthUser).
      unless (check_resource_access v rule q) insufficient_access in
    let same = check_resource_access-owner u id rule condition r r' of_rule on_owner in
    ap (λ user. authenticated user (judge r)) first
    ∙ sym (ap (λ allowed. unless allowed insufficient_access) same)
    ∙ sym (ap (λ user. authenticated user (judge r')) second)

-- A condition on the owner asks nothing of the user: whatever id the user has, whatever the request
-- names, and whoever owns the resource, the same roles and permissions give the same outcome.
pub secured-owner :
    (class_level handler : SecureOptions) (rule : ResourceRule) (condition : Text) (u : AuthUser)
    (id : Option Text) (r r' : AuthRequest)
    → r.user ≡ some u
    → r'.user ≡ some (renamed u id)
    → override handler.resource class_level.resource ≡ some rule
    → rule.condition ≡ some condition
    → includes condition (codes "resource.ownerId") ≡ true
    → secured class_level handler r ≡ secured class_level handler r'
unfolding secured
secured-owner c h rule condition u id r r' first second applies of_rule on_owner =
    rw
      (
        applies,
        roles_guard-renamed (override h.roles c.roles) u id r r' first second,
        permissions_guard-renamed (override h.permissions c.permissions) u id r r' first second,
        resource_guard-renamed rule condition u id r r' first second of_rule on_owner,
      )
      refl
