-- ===== src/Tenancy/Scim/Groups.antt =====
-- The handlers of groups, which are roles.
use dgraphai.Prelude.{
  Bool, List, Option, String, [], find, if◌then◌else◌, keep, none, not, some, str_eq, ◌&&◌, ◌∷◌,
}
use dgraphai.Tenancy.Model.{Store, Tenant, with_roles}
use dgraphai.Tenancy.Scim.{text_or}
use dgraphai.Tenancy.Signup.{lower_all}
use dgraphai.Prelude.{◌>>=◌}
use dgraphai.Auth.Model.{http_exception, Library, Reply, ok}
use dgraphai.Rbac.Assign.{assign_builtin_role}
use dgraphai.Rbac.Permissions.{Role, RoleAssignment, Db as Roles}
use dgraphai.Prelude.Chars.{chars}
use text.Mathlib.TextBridge.{of_list}

-- `value` holds the "value" of each member
pub record GroupOp : Type 0 where
  pub op : String
  pub value : List (Option String)

unfoldable pub list_scim_groups : String → List Role → List Role
list_scim_groups tenant_id roles = keep (λ r. str_eq r.tenant_id tenant_id) roles

-- the identifier for a new role, which a role of that name makes superfluous, is an argument
abbrev pub add_members : String → String → Role → List (Option String) → Roles → Option Roles
add_members fresh tenant_id role [] d = some d
add_members fresh tenant_id role (m ∷ ms) d =
    if str_eq (text_or m "") ""
    then add_members fresh tenant_id role ms d
    else (elim (assign_builtin_role fresh (text_or m "") tenant_id role.name d) [
      | none ↦ none
      | some after ↦ add_members fresh tenant_id role ms after
    ])

-- `RoleAssignment.user_id == id, RoleAssignment.role_id == role.id`
abbrev pub holds : String → Role → RoleAssignment → Bool
holds user_id role a = str_eq a.user_id user_id && str_eq a.role_id role.id

abbrev pub remove_members : Role → List (Option String) → Roles → Roles
remove_members role [] d = d
remove_members role (m ∷ ms) d = remove_members role ms (
    if str_eq (text_or m "") ""
    then d
    else record d { assignments = keep (λ a. not (holds (text_or m "") role a)) d.assignments })

abbrev pub apply_group_op : Library → String → String → Role → GroupOp → Roles → Option Roles
apply_group_op c fresh tenant_id role op d =
    let kind = of_list (lower_all c (chars op.op)) in
    if str_eq kind "add"
    then add_members fresh tenant_id role op.value d
    else if str_eq kind "remove"
    then some (remove_members role op.value d)
    else some d

abbrev pub apply_group_ops : Library → String → String → Role → List GroupOp → Roles → Option Roles
apply_group_ops c fresh tenant_id role [] d = some d
apply_group_ops c fresh tenant_id role (op ∷ ops) d = do
  next ← apply_group_op c fresh tenant_id role op d
  apply_group_ops c fresh tenant_id role ops next

unfoldable pub patch_scim_group :
    Library → String → String → List GroupOp → Tenant → Store → Store × Reply
patch_scim_group c fresh group_id ops tenant s =
    elim (find (λ r. str_eq r.id group_id && str_eq r.tenant_id tenant.id) s.rbac.roles) [
      | none ↦ (s, http_exception 404 "Group/role not found")
      | some role ↦ with_roles s (apply_group_ops c fresh tenant.id role ops s.rbac) (ok role.name)
    ]
