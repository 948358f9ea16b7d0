-- ===== src/Security/Authorization/Allowed.antt =====
-- Which requests the guards of src/libs/shared/security/authorization.decorator.ts let pass.
use app_tu_phuc_vu.Prelude.{
  ◌≡◌, refl, ◌↔◌, ◌⊎◌, Bool, true, false, Option, none, some, List, [], ◌∷◌, ◌++◌, any, or_else,
  is_some, All, Result, ok, err, arith,
}
use app_tu_phuc_vu.Prelude.Text.{Text, codes, text_eq, text_eq_iff}
use app_tu_phuc_vu.Security.Authorization.{
  Forbidden, AuthUser, AuthRequest, ResourceAccess, ResourceRule, SecureOptions, contains,
  some_contains, is_text, holds_role, authenticated, unless, roles_guard, resource_of,
  has_permission, effective_permissions, every, permissions_guard, has_own_permission,
  access_permission, has_all, condition_met, check_resource_access, resource_guard, missing_role,
  missing_permission, insufficient_access, override, and_pass, only_if, secured,
}

-- Some element satisfies the predicate.
abbrev pub Some : (Text → Type 0) → List Text → Type 0
Some P [] = ⊥
Some P (x ∷ xs) = P x ⊎ Some P xs

abbrev pub HoldsRole : AuthUser → Text → Type 0
HoldsRole u role = Some (λ r. r ≡ role) (or_else u.roles []) ⊎ (u.role ≡ some role)

-- A permission is granted by the wildcard of all, by itself, or by the wildcard of its resource.
abbrev pub Grants : List Text → Text → Type 0
Grants granted required =
    Some (λ p. (p ≡ codes "*:*") ⊎ ((p ≡ required) ⊎ (p ≡ resource_of required ++ codes ":*")))
      granted

abbrev pub GrantsAccess : List Text → Text → Type 0
GrantsAccess granted permission = Some (λ p. (p ≡ codes "*:*") ⊎ (p ≡ permission)) granted

abbrev pub RolesMet : Option (List Text) → AuthRequest → Type 0
RolesMet none r = Unit
RolesMet (some roles) r = (u : AuthUser) × (r.user ≡ some u) × Some (HoldsRole u) roles

abbrev pub PermissionsMet : Option (List Text) → AuthRequest → Type 0
PermissionsMet none r = Unit
PermissionsMet (some required) r =
    (u : AuthUser) × (r.user ≡ some u) × All (Grants (effective_permissions u)) required

-- An admin, or every access is granted and the condition met.
abbrev pub ResourceMet : Option ResourceRule → AuthRequest → Type 0
ResourceMet none r = Unit
ResourceMet (some rule) r =
    (u : AuthUser) × (r.user ≡ some u)
    × (Some (λ role. role ≡ codes "admin") (or_else u.roles [])
        ⊎ (All (λ access. GrantsAccess (or_else u.permissions []) (access_permission rule access))
              rule.access
            × (condition_met rule.condition u r ≡ true)))

any-Some_iff :
    (p : Text → Bool) (P : Text → Type 0) (xs : List Text)
    → ((x : Text) → (p x ≡ true) ↔ P x)
    → (any p xs ≡ true) ↔ Some P xs
any-Some_iff p P [] same = (λ h. absurd (cc), λ h. absurd h)
any-Some_iff p P (x ∷ xs) same = let rest = any-Some_iff p P xs same in ground (arith, same x, rest)

contains_iff : (xs : List Text) (x : Text) → (contains xs x ≡ true) ↔ Some (λ y. y ≡ x) xs
contains_iff xs x = any-Some_iff (λ y. text_eq y x) (λ y. y ≡ x) xs (λ y. text_eq_iff y x)

Some-or :
    (P Q : Text → Type 0) (xs : List Text) → Some (λ x. P x ⊎ Q x) xs ↔ (Some P xs ⊎ Some Q xs)
Some-or P Q [] = ground arith
Some-or P Q (x ∷ xs) = let rest = Some-or P Q xs in ground (arith, rest)

some_contains_iff :
    (xs : Option (List Text)) (x : Text)
    → (some_contains xs x ≡ true) ↔ Some (λ y. y ≡ x) (or_else xs [])
some_contains_iff none x = ground arith
some_contains_iff (some xs) x = contains_iff xs x

is_text_iff : (y : Option Text) (x : Text) → (is_text y x ≡ true) ↔ (y ≡ some x)
is_text_iff none x = ground arith
is_text_iff (some y) x = ground (arith, text_eq_iff y x)

holds_role_iff : (u : AuthUser) (role : Text) → (holds_role u role ≡ true) ↔ HoldsRole u role
holds_role_iff u role =
    let listed = some_contains_iff u.roles role in ground (arith, listed, is_text_iff u.role role)

has_permission_iff :
    (granted : List Text) (required : Text)
    → (has_permission granted required ≡ true) ↔ Grants granted required
has_permission_iff granted required =
    let wildcard = codes "*:*" in
    let of_resource = resource_of required ++ codes ":*" in
    let outer = Some-or (λ p. p ≡ wildcard) (λ p. (p ≡ required) ⊎ (p ≡ of_resource)) granted in
    let inner = Some-or (λ p. p ≡ required) (λ p. p ≡ of_resource) granted in
    let all_of = contains_iff granted wildcard in
    let itself = contains_iff granted required in
    let resource = contains_iff granted of_resource in
    ground (arith, outer, inner, all_of, itself, resource)

every_iff :
    (p : Text → Bool) (P : Text → Type 0) (xs : List Text)
    → ((x : Text) → (p x ≡ true) ↔ P x)
    → (every p xs ≡ true) ↔ All P xs
unfolding every
every_iff p P [] same = ground arith
every_iff p P (x ∷ xs) same = let rest = every_iff p P xs same in ground (arith, same x, rest)

own_permission_iff :
    (u : AuthUser) (permission : Text)
    → (has_own_permission u permission ≡ true) ↔ GrantsAccess (or_else u.permissions []) permission
own_permission_iff u permission =
    let granted = or_else u.permissions [] in
    let either = Some-or (λ p. p ≡ codes "*:*") (λ p. p ≡ permission) granted in
    let all_of = contains_iff granted (codes "*:*") in
    let itself = contains_iff granted permission in ground (arith, either, all_of, itself)

has_all_iff :
    (u : AuthUser) (rule : ResourceRule) (accesses : List ResourceAccess)
    → (has_all u rule accesses ≡ true)
      ↔ All
          (λ access. GrantsAccess (or_else u.permissions []) (access_permission rule access))
          accesses
unfolding has_all
has_all_iff u rule [] = ground arith
has_all_iff u rule (access ∷ accesses) =
    let rest = has_all_iff u rule accesses in
    ground (arith, own_permission_iff u (access_permission rule access), rest)

authenticated_iff :
    (user : Option AuthUser) (check : AuthUser → Result Forbidden Bool) (Met : AuthUser → Type 0)
    → ((u : AuthUser) → (check u ≡ ok true) ↔ Met u)
    → (authenticated user check ≡ ok true) ↔ ((u : AuthUser) × (user ≡ some u) × Met u)
authenticated_iff none check Met same = (λ h. absurd (cc), λ (u, h, m). absurd (cc))
authenticated_iff (some v) check Met same = (
  λ h. (v, refl, (same v).0 h),
  λ (u, h, met). let own : u ≡ v = cc in (same v).1 (rw (← own) met),
)

unless_iff : (b : Bool) (reason : Forbidden) → (unless b reason ≡ ok true) ↔ (b ≡ true)
unless_iff true reason = ground arith
unless_iff false reason = ground arith

and_pass_iff :
    (a b : Result Forbidden Bool) → (and_pass a b ≡ ok true) ↔ ((a ≡ ok true) × (b ≡ ok true))
and_pass_iff (ok true) b = ground arith
and_pass_iff (ok false) b = ground arith
and_pass_iff (err reason) b = ground arith

-- A guard that runs where the class or the handler has its metadata, on the handler's or else the
-- class's.
twice_iff :
    {A : Type 0} (guard : Option A → Result Forbidden Bool) (Met : Option A → Type 0)
    (class_level handler : Option A)
    → ((o : Option A) → (guard o ≡ ok true) ↔ Met o)
    → Met none
    → ((only_if (is_some class_level) (guard (override handler class_level)) ≡ ok true)
        × (only_if (is_some handler) (guard (override handler class_level)) ≡ ok true))
      ↔ Met (override handler class_level)
twice_iff guard Met none none same free = ground arith
twice_iff guard Met (some a) none same free = ground (arith, same (some a))
twice_iff guard Met none (some b) same free = ground (arith, same (some b))
twice_iff guard Met (some a) (some b) same free = ground (arith, same (some b))

pass_all_iff :
    {P Q R : Type 0} (a b c a' b' c' : Result Forbidden Bool)
    → ((a ≡ ok true) × (a' ≡ ok true)) ↔ P
    → ((b ≡ ok true) × (b' ≡ ok true)) ↔ Q
    → ((c ≡ ok true) × (c' ≡ ok true)) ↔ R
    → (and_pass (and_pass a (and_pass b c)) (and_pass a' (and_pass b' c')) ≡ ok true) ↔ (P × Q × R)
pass_all_iff a b c a' b' c' p q r =
    let both = and_pass_iff (and_pass a (and_pass b c)) (and_pass a' (and_pass b' c')) in
    let first = and_pass_iff a (and_pass b c) in
    let first' = and_pass_iff a' (and_pass b' c') in
    let second = and_pass_iff b c in
    let second' = and_pass_iff b' c' in
    (
      λ h.
          let (h, h') = both.0 h in
          let (ha, hr) = first.0 h in
          let (ha', hr') = first'.0 h' in
          let (hb, hc) = second.0 hr in
          let (hb', hc') = second'.0 hr' in (p.0 (ha, ha'), q.0 (hb, hb'), r.0 (hc, hc')),
      λ (mp, mq, mr).
          let (ha, ha') = p.1 mp in
          let (hb, hb') = q.1 mq in
          let (hc, hc') = r.1 mr in
          both.1 (first.1 (ha, second.1 (hb, hc)), first'.1 (ha', second'.1 (hb', hc'))),
    )

roles_guard_iff :
    (o : Option (List Text)) (r : AuthRequest) → (roles_guard o r ≡ ok true) ↔ RolesMet o r
roles_guard_iff none r = ground arith
roles_guard_iff (some roles) r = authenticated_iff r.user _ _ (λ u.
    let some_role = any-Some_iff (holds_role u) (HoldsRole u) roles (holds_role_iff u) in
    let passes = unless_iff (any (holds_role u) roles) missing_role in
    ground (arith, some_role, passes))

permissions_guard_iff :
    (o : Option (List Text)) (r : AuthRequest)
    → (permissions_guard o r ≡ ok true) ↔ PermissionsMet o r
permissions_guard_iff none r = ground arith
permissions_guard_iff (some required) r = authenticated_iff r.user _ _ (λ u.
    let granted = effective_permissions u in
    let each =
      every_iff (has_permission granted) (Grants granted) required (has_permission_iff granted) in
    let passes = unless_iff (every (has_permission granted) required) missing_permission in
    ground (arith, each, passes))

check_resource_access_iff :
    (u : AuthUser) (rule : ResourceRule) (r : AuthRequest)
    → (check_resource_access u rule r ≡ true) ↔ (
        Some (λ role. role ≡ codes "admin") (or_else u.roles [])
        ⊎ (All
              (λ access. GrantsAccess (or_else u.permissions []) (access_permission rule access))
              rule.access
            × (condition_met rule.condition u r ≡ true)))
check_resource_access_iff u rule r =
    let is_admin = some_contains_iff u.roles (codes "admin") in
    let each = has_all_iff u rule rule.access in ground (arith, is_admin, each)

resource_guard_iff :
    (o : Option ResourceRule) (r : AuthRequest) → (resource_guard o r ≡ ok true) ↔ ResourceMet o r
resource_guard_iff none r = ground arith
resource_guard_iff (some rule) r = authenticated_iff r.user _ _ (λ u.
    let checked = check_resource_access_iff u rule r in
    let passes = unless_iff (check_resource_access u rule r) insufficient_access in
    ground (arith, checked, passes))

-- A request passes a route that Secure guards on its class, its handler or both exactly if it meets
-- the roles, the permissions and the resource rule, each the handler's or else the class's: its user
-- holds one of the roles, is granted every permission by itself or by a wildcard, and is an admin, or
-- is granted every access and meets the condition.
pub secured_iff :
    (class_level handler : SecureOptions) (r : AuthRequest)
    → (secured class_level handler r ≡ ok true) ↔ (
        RolesMet (override handler.roles class_level.roles) r
        × PermissionsMet (override handler.permissions class_level.permissions) r
        × ResourceMet (override handler.resource class_level.resource) r)
unfolding secured
secured_iff c h r =
    let roles =
      twice_iff (λ o. roles_guard o r) (λ o. RolesMet o r) c.roles h.roles
        (λ o. roles_guard_iff o r) tt in
    let permissions =
      twice_iff (λ o. permissions_guard o r) (λ o. PermissionsMet o r) c.permissions h.permissions
        (λ o. permissions_guard_iff o r) tt in
    let resource =
      twice_iff (λ o. resource_guard o r) (λ o. ResourceMet o r) c.resource h.resource
        (λ o. resource_guard_iff o r) tt in
    pass_all_iff _ _ _ _ _ _ roles permissions resource
