-- ===== src/Rbac/Assign.antt =====
-- `assign_builtin_role`, used at signup and when an invitation is accepted. The identifier of a new
-- role is an argument; `scalar_one_or_none` raises where more than one row is found.
pub mod Effect
use dgraphai.Prelude.{
  ℕ, String, Bool, true, false, Option, none, some, List, [], ◌∷◌, ◌++◌, keep, str_eq, ◌&&◌,
  if◌then◌else◌,
}
use dgraphai.Prelude.Dict.{contains}
use dgraphai.Rbac.Permissions.{Role, ScopeValue, RoleAssignment, Db, builtin}

pub data Rows {ℓ} (A : Type ℓ) : Type ℓ where
  no_row : Rows A
  one_row : A → Rows A
  many_rows : Rows A

-- `result.scalar_one_or_none()`
abbrev pub one_or_none {ℓ} : {A : Type ℓ} → List A → Rows A
one_or_none [] = no_row
one_or_none (a ∷ []) = one_row a
one_or_none (a ∷ b ∷ rest) = many_rows

unfoldable pub new_role : String → String → String → Role
new_role id tenant_id role_name = record {
  id = id;
  tenant_id = tenant_id;
  name = role_name;
  role_type =
      if contains role_name ("admin" ∷ "analyst" ∷ "viewer" ∷ "agent" ∷ [])
      then role_name
      else "custom";
  permissions = builtin role_name;
  is_system = true;
}

abbrev pub new_assignment : String → String → String → RoleAssignment
new_assignment user_id tenant_id role_id = record {
  tenant_id = tenant_id;
  user_id = user_id;
  role_id = role_id;
  scope_type = none;
  scope_value = none;
  expires_at = none;
}

-- the first query: roles of the tenant with the name
abbrev pub named : String → String → List Role → List Role
named tenant_id role_name = keep (λ r. str_eq r.tenant_id tenant_id && str_eq r.name role_name)

-- the second query: assignments of the role to the user
abbrev pub held : String → String → List RoleAssignment → List RoleAssignment
held user_id role_id = keep (λ a. str_eq a.user_id user_id && str_eq a.role_id role_id)

unfoldable pub assign_once : String → String → Role → Db → Option Db
assign_once user_id tenant_id role db = elim (one_or_none (held user_id role.id db.assignments)) [
  | no_row ↦
      some (record db {
        assignments = db.assignments ++ new_assignment user_id tenant_id role.id ∷ [];
      })
  | one_row a ↦ some db
  | many_rows ↦ none
]

-- `none` is an exception of `scalar_one_or_none`.
unfoldable pub assign_builtin_role : String → String → String → String → Db → Option Db
assign_builtin_role fresh user_id tenant_id role_name db =
    elim (one_or_none (named tenant_id role_name db.roles)) [
      | no_row ↦
          let role = new_role fresh tenant_id role_name in
          assign_once user_id tenant_id role (record db { roles = db.roles ++ role ∷ [] })
      | one_row role ↦ assign_once user_id tenant_id role db
      | many_rows ↦ none
    ]
