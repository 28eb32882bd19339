-- ===== src/Rbac/Permissions.antt =====
-- Permissions: the built-in roles, what a user is granted in a tenant, and the check of a
-- required permission. A Python set is a list here, of which only membership is read.
pub mod Grants
pub mod Joins
use Prim.Native.Char.{code}
use Prim.Native.String.{◌++◌ as append}
use dgraphai.Prelude.{
  ℕ, String, Bool, true, false, Option, none, some, List, [], ◌∷◌, ◌++◌, map, ltb, ◌==◌, ◌&&◌, ◌||◌,
  not, keep, str_eq, if◌then◌else◌,
}
use dgraphai.Prelude.Dict.{contains, lookup}

abbrev pub builtin_permissions : List (String × List String)
builtin_permissions =
    ("admin", "admin:*" ∷ [])
    ∷ (
      "analyst",
      "graph:read" ∷ "graph:query" ∷ "mounts:read" ∷ "mounts:index" ∷ "actions:propose"
          ∷ "scanners:read" ∷ "users:read" ∷ [],
    )
    ∷ ("viewer", "graph:read" ∷ "mounts:read" ∷ "scanners:read" ∷ [])
    ∷ ("agent", "scanners:register" ∷ "scanners:read" ∷ "graph:read" ∷ [])
    ∷ []

-- `BUILTIN_PERMISSIONS.get(name, set())`
unfoldable pub builtin : String → List String
builtin name = elim (lookup name builtin_permissions) [ none ↦ [] | some perms ↦ perms ]

abbrev all_builtin : List (String × List String) → List String
all_builtin [] = []
all_builtin ((_, perms) ∷ rest) = perms ++ all_builtin rest

unfoldable pub expand_permissions : List String → List String
expand_permissions permissions =
    if contains "admin:*" permissions
    then all_builtin builtin_permissions ++ permissions
    else permissions

-- The columns of the tables `roles` and `role_assignments` that the engine reads or writes.
pub record Role : Type 0 where
  pub id : String
  pub tenant_id : String
  pub name : String
  pub role_type : String
  pub permissions : List String
  pub is_system : Bool

-- A JSON object in `scope_value`: `none` for a missing key. The column may be NULL.
pub record ScopeValue : Type 0 where
  pub connector_ids : Option (List String)
  pub tags : Option (List String)
  pub filters : Option (List (String × String))

pub record RoleAssignment : Type 0 where
  pub tenant_id : String
  pub user_id : String
  pub role_id : String
  pub scope_type : Option String
  pub scope_value : Option ScopeValue
  pub expires_at : Option ℕ

pub record Db : Type 0 where
  pub roles : List Role
  pub assignments : List RoleAssignment

-- The join of a user's assignments in a tenant with their roles.
unfoldable pub rows :
    String → String → List Role → List RoleAssignment → List (RoleAssignment × Role)
rows user_id tenant_id roles [] = []
rows user_id tenant_id roles (a ∷ as') =
    (if str_eq a.user_id user_id && str_eq a.tenant_id tenant_id
      then map (λ r. (a, r)) (keep (λ r. str_eq a.role_id r.id) roles)
      else [])
    ++ rows user_id tenant_id roles as'

-- `assignment.expires_at and assignment.expires_at < now`
abbrev pub expired : ℕ → RoleAssignment → Bool
expired now a = elim a.expires_at [ none ↦ false | some t ↦ ltb t now ]

-- what one role gives: its built-in set, and its own list
unfoldable pub granted : Role → List String
granted role = builtin role.role_type ++ role.permissions

-- The loop of `load_user_permissions` over the joined rows.
unfoldable pub collect : ℕ → List (RoleAssignment × Role) → List String × List String
collect now [] = ([], [])
collect now ((assignment, role) ∷ rest) =
    let (names, permissions) = collect now rest in
    if expired now assignment
    then (names, permissions)
    else (role.name ∷ names, granted role ++ permissions)

unfoldable pub load_user_permissions : ℕ → String → String → Db → List String × List String
load_user_permissions now user_id tenant_id db =
    let (names, permissions) = collect now (rows user_id tenant_id db.roles db.assignments) in
    (names, expand_permissions permissions)

-- `required.split(":")[0]`
unfoldable pub before_colon : String → String
before_colon String.[] = ""
before_colon (String.◌∷◌ c s) = if code c == b':' then "" else String.◌∷◌ c (before_colon s)

unfoldable pub is_allowed : List String → String → Bool
is_allowed user_perms required =
    contains required user_perms
    || contains (append (before_colon required) ":*") user_perms
    || contains "admin:*" user_perms

-- The answer of the dependency that `require_permission` or `require_permissions` makes: the
-- request goes on, or status 403 names the missing permissions.
pub data Verdict : Type 0 where
  passed : Verdict
  forbidden : List String → Verdict

unfoldable pub require_permission : String → List String → Verdict
require_permission permission user_perms =
    if is_allowed user_perms permission then passed else forbidden (permission ∷ [])

unfoldable pub require_permissions : List String → List String → Verdict
require_permissions permissions user_perms =
    elim (keep (λ p. not (is_allowed user_perms p)) permissions) [
      | [] ↦ passed
      | p ∷ rest ↦ forbidden (p ∷ rest)
    ]
