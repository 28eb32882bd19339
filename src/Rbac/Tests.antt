-- ===== src/Rbac/Tests.antt =====
-- Runs of the access control engine at concrete inputs.
use dgraphai.Prelude.{
  All, List, Option, String, [], arith, eq_iff, false, keep, none, not, refl, some, true, ℕ, ◌++◌,
  ◌↔◌, ◌∷◌, ◌≡◌,
}
use dgraphai.Rbac.Assign.{assign_builtin_role, assign_once, new_assignment}
use dgraphai.Rbac.Assign.Effect.{assign_builtin_role-allowed, assign_builtin_role-idempotent}
use dgraphai.Rbac.Permissions.{
  Db, Role, RoleAssignment, ScopeValue, before_colon, builtin, collect, expand_permissions,
  forbidden, granted, is_allowed, load_user_permissions, passed, require_permissions, rows,
}
use dgraphai.Rbac.Permissions.Grants.{
  AllAllowed, Allows, IsCurrent, load-allowed, require_permissions_lem,
}
use dgraphai.Rbac.Permissions.Joins.{Matches}
use dgraphai.Prelude.Members.{IsIn}
use dgraphai.Rbac.Scope.{build_scope_filter, clauses, scope_filter_to_cypher}
use dgraphai.Rbac.Scope.Filter.{
  fragment, build_scope_filter-unscoped, restricts_nothing, unrestricted_iff,
}

abbrev acme_roles : List Role
acme_roles =
    record {
      id = "r1";
      tenant_id = "acme";
      name = "auditors";
      role_type = "custom";
      permissions = "audit:*" ∷ [];
      is_system = false;
    }
    ∷ record {
      id = "r2";
      tenant_id = "acme";
      name = "viewer";
      role_type = "viewer";
      permissions = [];
      is_system = true;
    }
    ∷ []

abbrev no_scope : ScopeValue
no_scope = record { connector_ids = none; tags = none; filters = none }

abbrev held_until : String → Option ℕ → RoleAssignment
held_until role_id expires = record {
  tenant_id = "acme";
  user_id = "ann";
  role_id = role_id;
  scope_type = none;
  scope_value = none;
  expires_at = expires;
}

abbrev acme : Db
acme = record {
  roles = acme_roles;
  assignments = held_until "r1" (some 50) ∷ held_until "r2" none ∷ [];
}

abbrev tag_scope : Option (List String) → RoleAssignment
tag_scope tags = record (held_until "r2" none) {
  scope_type = some "tag";
  scope_value = some (record no_scope { tags = tags });
}

ann_at_40 :
    load_user_permissions 40 "ann" "acme" acme
    ≡ ("auditors" ∷ "viewer" ∷ [], "audit:*" ∷ "graph:read" ∷ "mounts:read" ∷ "scanners:read" ∷ [])
unfolding load_user_permissions collect rows granted builtin expand_permissions
ann_at_40 = refl

ann_audits :
    (is_allowed ("audit:*" ∷ []) "audit:read" ≡ true)
    × (is_allowed ("audit:*" ∷ []) "graph:read" ≡ false)
unfolding is_allowed before_colon
ann_audits = (refl, refl)

tag_fragment :
    fragment (build_scope_filter (tag_scope (some ("pii" ∷ "hr" ∷ [])) ∷ []))
    ≡ some "('pii' IN n.tags OR 'hr' IN n.tags)"
unfolding scope_filter_to_cypher build_scope_filter clauses
tag_fragment = refl

load-allowed_example :
    (is_allowed (load_user_permissions 40 "ann" "acme" acme).1 "audit:read" ≡ true) ↔ (
      (a : RoleAssignment) × (role : Role) × IsIn a acme.assignments
      × Matches "ann" "acme" acme.roles a role
      × IsCurrent 40 a
      × Allows role "audit:read")
load-allowed_example = load-allowed 40 "ann" "acme" "audit:read" acme

require_permissions_lem_run :
    ((require_permissions ("graph:read" ∷ "users:write" ∷ []) ("graph:*" ∷ []) ≡ passed)
      ↔ AllAllowed ("graph:*" ∷ []) ("graph:read" ∷ "users:write" ∷ []))
    × ((missing : List String)
        → require_permissions ("graph:read" ∷ "users:write" ∷ []) ("graph:*" ∷ [])
          ≡ forbidden missing
        → missing
          ≡ keep (λ p. not (is_allowed ("graph:*" ∷ []) p)) ("graph:read" ∷ "users:write" ∷ []))
require_permissions_lem_run =
    require_permissions_lem ("graph:read" ∷ "users:write" ∷ []) ("graph:*" ∷ [])

abbrev acme_after : Db
acme_after = record acme { assignments = acme.assignments ++ new_assignment "bob" "acme" "r2" ∷ [] }

assigned : assign_builtin_role "r9" "bob" "acme" "viewer" acme ≡ some acme_after
unfolding assign_builtin_role assign_once
assigned = refl

assign_builtin_role-idempotent_run :
    assign_builtin_role "r10" "bob" "acme" "viewer" acme_after ≡ some acme_after
assign_builtin_role-idempotent_run =
    assign_builtin_role-idempotent "r9" "r10" "bob" "acme" "viewer" acme assigned

assign_builtin_role-allowed_run :
    (after : Db) × (assign_builtin_role "r9" "bob" "new" "admin" acme ≡ some after)
    × ((now : ℕ) (p : String)
        → is_allowed (load_user_permissions now "bob" "new" after).1 p
          ≡ is_allowed (builtin "admin") p)
assign_builtin_role-allowed_run =
    assign_builtin_role-allowed "r9" "bob" "new" "admin" acme refl
      (ground (arith, eq_iff "r1" "r9", eq_iff "r2" "r9")) (ground (arith, eq_iff "ann" "bob"))

build_scope_filter-unscoped_run :
    build_scope_filter (tag_scope (some ("pii" ∷ [])) ∷ held_until "r1" none ∷ [])
    ≡ build_scope_filter (tag_scope (some ("pii" ∷ [])) ∷ [])
build_scope_filter-unscoped_run =
    build_scope_filter-unscoped (tag_scope (some ("pii" ∷ [])) ∷ []) [] (held_until "r1" none) refl

unrestricted_iff_example :
    (fragment (build_scope_filter (tag_scope none ∷ [])) ≡ some "")
    ↔ All (λ a. restricts_nothing a ≡ true) (tag_scope none ∷ [])
unrestricted_iff_example = unrestricted_iff (tag_scope none ∷ [])
