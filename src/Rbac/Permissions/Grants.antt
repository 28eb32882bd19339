-- ===== src/Rbac/Permissions/Grants.antt =====
-- What the loaded permissions allow.
use Prim.Native.String.{◌++◌ as append}
use dgraphai.Rbac.Permissions.Joins.{Matches, Matches-rows, rows-Matches}
use dgraphai.Prelude.Members.{IsIn, IsIn-any, any-IsIn}
use dgraphai.Prelude.{
  none, some, ◌≤◌, ◌⊎◌, sym, ℕ, String, Bool, true, List, [], ◌∷◌, ◌++◌, ◌&&◌, ◌||◌, not, ◌≡◌, refl,
  ◌∙◌, arith, any, All, keep, Bool-cases, inl, inr, ◌↔◌,
}
use dgraphai.Prelude.Dict.{contains, contains-append}
use dgraphai.Rbac.Permissions.{
  builtin, Role, RoleAssignment, Db, rows, expired, granted, collect, expand_permissions,
  load_user_permissions, before_colon, is_allowed, passed, forbidden, require_permissions,
  builtin_permissions, all_builtin,
}

pub is_allowed-append :
    (xs ys : List String) (p : String)
    → is_allowed (xs ++ ys) p ≡ (is_allowed xs p || is_allowed ys p)
unfolding is_allowed
is_allowed-append xs ys p = ground (
  arith,
  contains-append p xs ys,
  contains-append (append (before_colon p) ":*") xs ys,
  contains-append "admin:*" xs ys,
)

is_allowed-admin :
    (xs : List String) (p : String) → contains "admin:*" xs ≡ true → is_allowed xs p ≡ true
unfolding is_allowed
is_allowed-admin xs p h = ground arith

-- Expanding an administrator's permissions allows nothing that was not allowed before.
pub is_allowed-expand_permissions :
    (xs : List String) (p : String) → is_allowed (expand_permissions xs) p ≡ is_allowed xs p
unfolding expand_permissions
is_allowed-expand_permissions xs p = elim (Bool-cases (contains "admin:*" xs)) [
  | inl admin ↦
      ground (
        arith,
        is_allowed-append (all_builtin builtin_permissions) xs p,
        is_allowed-admin xs p admin,
      )
  | inr other ↦ rw other
]

-- whether one row of the join allows `p` by itself
abbrev pub grants : ℕ → String → RoleAssignment × Role → Bool
grants now p (assignment, role) = not (expired now assignment) && is_allowed (granted role) p

is_allowed-collect :
    (now : ℕ) (p : String) (rs : List (RoleAssignment × Role))
    → is_allowed (collect now rs).1 p ≡ any (grants now p) rs
unfolding collect
is_allowed-collect now p [] = unfold is_allowed in refl
is_allowed-collect now p ((a, r) ∷ rs) =
    ground (arith, is_allowed-collect now p rs, is_allowed-append (granted r) (collect now rs).1 p)

pub load-any :
    (now : ℕ) (user_id tenant_id p : String) (db : Db)
    → is_allowed (load_user_permissions now user_id tenant_id db).1 p
      ≡ any (grants now p) (rows user_id tenant_id db.roles db.assignments)
unfolding load_user_permissions
load-any now user_id tenant_id p db =
    let rs = rows user_id tenant_id db.roles db.assignments in
    is_allowed-expand_permissions (collect now rs).1 p ∙ is_allowed-collect now p rs

-- It never expires, or not before now.
abbrev pub IsCurrent : ℕ → RoleAssignment → Type 0
IsCurrent now a = (a.expires_at ≡ none) ⊎ ((t : ℕ) × (a.expires_at ≡ some t) × (now ≤ t))

-- The built-in set of the role's type allows it, or the role's own list.
abbrev pub Allows : Role → String → Type 0
Allows role p =
    (is_allowed (builtin role.role_type) p ≡ true) ⊎ (is_allowed role.permissions p ≡ true)

grants-Allows :
    (now : ℕ) (p : String) (a : RoleAssignment) (role : Role)
    → (grants now p (a, role) ≡ true) ↔ (IsCurrent now a × Allows role p)
unfolding granted
grants-Allows now p a role =
    ground (arith, is_allowed-append (builtin role.role_type) role.permissions p)

-- A user is allowed a permission in a tenant exactly when some single role assignment of theirs in
-- that tenant has not expired and its role allows it, by its built-in set or its own list: nothing
-- comes of another tenant, another user, an expired assignment or a combination of roles.
pub load-allowed :
    (now : ℕ) (user_id tenant_id p : String) (db : Db)
    → (is_allowed (load_user_permissions now user_id tenant_id db).1 p ≡ true) ↔ (
        (a : RoleAssignment) × (role : Role) × IsIn a db.assignments
        × Matches user_id tenant_id db.roles a role
        × IsCurrent now a
        × Allows role p)
load-allowed now user_id tenant_id p db =
    let rs = rows user_id tenant_id db.roles db.assignments in
    (
      λ e.
          let ((a, role), m, g) =
            any-IsIn (grants now p) rs (sym (load-any now user_id tenant_id p db) ∙ e) in
          let (there, matches) = rows-Matches user_id tenant_id db.roles db.assignments a role m in
          let (current, allows) = (grants-Allows now p a role).0 g in
          (a, role, there, matches, current, allows),
      λ h.
          let (a, role, there, matches, current, allows) = h in
          load-any now user_id tenant_id p db
          ∙ IsIn-any (grants now p) (a, role) rs
              (Matches-rows user_id tenant_id db.roles db.assignments a role there matches)
              ((grants-Allows now p a role).1 (current, allows)),
    )

-- Whether every permission of a list is allowed.
abbrev pub AllAllowed : List String → List String → Type 0
AllAllowed user_perms = All (λ p. is_allowed user_perms p ≡ true)

missing-eq-nil :
    (ps user_perms : List String)
    → (keep (λ p. not (is_allowed user_perms p)) ps ≡ []) ↔ AllAllowed user_perms ps
missing-eq-nil [] user_perms = (λ _. tt, λ _. refl)
missing-eq-nil (p ∷ ps) user_perms = ground (arith, missing-eq-nil ps user_perms)

-- A request for several permissions passes exactly when each of them is allowed; otherwise it is
-- forbidden, and the answer names every permission that is not allowed, in order, and no other.
pub require_permissions_lem :
    (ps user_perms : List String)
    → ((require_permissions ps user_perms ≡ passed) ↔ AllAllowed user_perms ps)
      × ((missing : List String)
          → require_permissions ps user_perms ≡ forbidden missing
          → missing ≡ keep (λ p. not (is_allowed user_perms p)) ps)
unfolding require_permissions
require_permissions_lem ps user_perms =
    (ground (arith, missing-eq-nil ps user_perms), λ missing h. ground arith)
