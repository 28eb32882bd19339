-- ===== src/Rbac/Assign/Effect.antt =====
-- What `assign_builtin_role` leaves in the tables.
use dgraphai.Prelude.{
  ◌≢◌, Bool-cases, All, ℕ, String, Bool, true, some, List, [], ◌∷◌, ◌++◌, keep, str_eq, ◌&&◌, ◌≡◌,
  refl, arith, eq_iff, eq_refl, inl, inr,
}
use dgraphai.Rbac.Permissions.Grants.{is_allowed-append, load-any}
use dgraphai.Rbac.Permissions.{
  rows, builtin, is_allowed, granted, load_user_permissions, Role, RoleAssignment, Db,
}
use dgraphai.Rbac.Assign.{
  contains, Rows, no_row, one_row, many_rows, one_or_none, new_role, new_assignment, named, held,
  assign_once, assign_builtin_role,
}

-- A row that passes the test, added to a table in which none does, is the only one that does.
pub keep-append_new {ℓ} :
    {A : Type ℓ} (p : A → Bool) (xs : List A) (a : A)
    → one_or_none (keep p xs) ≡ no_row
    → p a ≡ true
    → one_or_none (keep p (xs ++ a ∷ [])) ≡ one_row a
keep-append_new p [] a h e = ground arith
keep-append_new p (x ∷ xs) a h e = ground (arith, keep-append_new p xs a)

module _ (user_id tenant_id : String) where
  assign_once_again :
      (role : Role) (db : Db) {after : Db}
      → assign_once user_id tenant_id role db ≡ some after
      → assign_once user_id tenant_id role after ≡ some after
  unfolding assign_once
  assign_once_again role db h = ground (
    arith,
    keep-append_new (λ (a : RoleAssignment). str_eq a.user_id user_id && str_eq a.role_id role.id)
        db.assignments (new_assignment user_id tenant_id role.id),
    eq_refl user_id,
    eq_refl role.id,
  )

  assign_once-roles :
      (role : Role) (db : Db) {after : Db}
      → assign_once user_id tenant_id role db ≡ some after
      → after.roles ≡ db.roles
  unfolding assign_once
  assign_once-roles role db h = ground arith

  module _ (role_name : String) where
    new_role-named :
        (fresh : String) (roles : List Role)
        → one_or_none (named tenant_id role_name roles) ≡ no_row
        → one_or_none (named tenant_id role_name (roles ++ new_role fresh tenant_id role_name ∷ []))
          ≡ one_row (new_role fresh tenant_id role_name)
    unfolding new_role
    new_role-named fresh roles h =
        keep-append_new (λ (r : Role). str_eq r.tenant_id tenant_id && str_eq r.name role_name)
          roles (new_role fresh tenant_id role_name) h
          (ground (arith, eq_refl tenant_id, eq_refl role_name))

    again :
        (fresh other : String) (db : Db) (found : Rows Role) {after : Db}
        → one_or_none (named tenant_id role_name db.roles) ≡ found
        → assign_builtin_role fresh user_id tenant_id role_name db ≡ some after
        → assign_builtin_role other user_id tenant_id role_name after ≡ some after
    unfolding assign_builtin_role
    again fresh other db no_row {after} e h =
        let role = new_role fresh tenant_id role_name in
        let db' : Db = record db { roles = db.roles ++ role ∷ [] } in
        let k : assign_once user_id tenant_id role db' ≡ some after = ground arith in
        ground (
          arith,
          new_role-named fresh db.roles e,
          assign_once-roles role db' k,
          assign_once_again role db' k,
        )
    again fresh other db (one_row role) {after} e h =
        let k : assign_once user_id tenant_id role db ≡ some after = ground arith in
        ground (arith, assign_once-roles role db k, assign_once_again role db k)
    again fresh other db many_rows e h = ground arith

-- Assigning a built-in role a second time changes nothing, whatever identifier it would give to a
-- new role: after a call that succeeded, the same call succeeds and leaves the tables alone.
pub assign_builtin_role-idempotent :
    (fresh other user_id tenant_id role_name : String) (db : Db) {after : Db}
    → assign_builtin_role fresh user_id tenant_id role_name db ≡ some after
    → assign_builtin_role other user_id tenant_id role_name after ≡ some after
assign_builtin_role-idempotent fresh other user_id tenant_id role_name db h =
    again user_id tenant_id role_name fresh other db
      (one_or_none (named tenant_id role_name db.roles)) refl h

-- What the new role gives is what the built-in set of its name gives, also for a name that is not
-- built in, which gives nothing.
new_role-granted :
    (fresh tenant_id role_name p : String)
    → is_allowed (granted (new_role fresh tenant_id role_name)) p ≡ is_allowed (builtin role_name) p
unfolding granted new_role
new_role-granted fresh tenant_id role_name p =
    elim (Bool-cases (contains role_name ("admin" ∷ "analyst" ∷ "viewer" ∷ "agent" ∷ []))) [
      | inl known ↦
          rw known (ground (arith, is_allowed-append (builtin role_name) (builtin role_name) p))
      | inr other ↦ rw other (unfold builtin in refl)
    ]

rows-none :
    (user_id tenant_id : String) (roles : List Role) (xs ys : List RoleAssignment)
    → All (λ a. a.user_id ≢ user_id) xs
    → rows user_id tenant_id roles (xs ++ ys) ≡ rows user_id tenant_id roles ys
unfolding rows
rows-none user_id tenant_id roles [] ys h = refl
rows-none user_id tenant_id roles (a ∷ xs) ys h =
    ground (arith, eq_iff a.user_id user_id, rows-none user_id tenant_id roles xs ys h.1)

keep-none :
    (id : String) (roles : List Role) (role : Role)
    → All (λ r. r.id ≢ id) roles
    → role.id ≡ id
    → keep (λ (r : Role). str_eq id r.id) (roles ++ role ∷ []) ≡ role ∷ []
keep-none id [] role h e = ground (arith, eq_iff id role.id)
keep-none id (r ∷ roles) role h e = ground (arith, eq_iff id r.id, keep-none id roles role h.1)

held-none :
    (user_id role_id : String) (xs : List RoleAssignment)
    → All (λ a. a.user_id ≢ user_id) xs
    → held user_id role_id xs ≡ []
held-none user_id role_id [] h = refl
held-none user_id role_id (a ∷ xs) h =
    ground (arith, eq_iff a.user_id user_id, held-none user_id role_id xs h.1)

abbrev after_assign : String → String → String → String → Db → Db
after_assign fresh user_id tenant_id role_name db = record {
  roles = db.roles ++ new_role fresh tenant_id role_name ∷ [];
  assignments = db.assignments ++ new_assignment user_id tenant_id fresh ∷ [];
}

module _ (fresh user_id tenant_id role_name : String) (db : Db) where
  assign_first :
      named tenant_id role_name db.roles ≡ []
      → All (λ a. a.user_id ≢ user_id) db.assignments
      → assign_builtin_role fresh user_id tenant_id role_name db
        ≡ some (after_assign fresh user_id tenant_id role_name db)
  unfolding assign_builtin_role assign_once new_role
  assign_first free new = ground (arith, held-none user_id fresh db.assignments new)

  rows_after :
      All (λ r. r.id ≢ fresh) db.roles
      → All (λ a. a.user_id ≢ user_id) db.assignments
      → rows user_id tenant_id
          (after_assign fresh user_id tenant_id role_name db).roles
          (after_assign fresh user_id tenant_id role_name db).assignments
        ≡ (new_assignment user_id tenant_id fresh, new_role fresh tenant_id role_name) ∷ []
  unfolding rows new_role
  rows_after unused new = ground (
    arith,
    rows-none user_id tenant_id (db.roles ++ new_role fresh tenant_id role_name ∷ []) db.assignments
        (new_assignment user_id tenant_id fresh ∷ []) new,
    keep-none fresh db.roles (new_role fresh tenant_id role_name) unused refl,
    eq_refl user_id,
    eq_refl tenant_id,
  )

-- A user without assignments who is given a built-in role in a tenant that has no role of that
-- name, with an identifier that no role has: the call succeeds, and from then on, at any time, the
-- user is allowed exactly what the built-in permissions of the name allow. So the user of a signup
-- is allowed everything.
pub assign_builtin_role-allowed :
    (fresh user_id tenant_id role_name : String) (db : Db)
    → named tenant_id role_name db.roles ≡ []
    → All (λ r. r.id ≢ fresh) db.roles
    → All (λ a. a.user_id ≢ user_id) db.assignments
    → (after : Db) × (assign_builtin_role fresh user_id tenant_id role_name db ≡ some after)
      × ((now : ℕ) (p : String)
          → is_allowed (load_user_permissions now user_id tenant_id after).1 p
            ≡ is_allowed (builtin role_name) p)
unfolding assign_builtin_role assign_once
assign_builtin_role-allowed fresh user_id tenant_id role_name db free unused new =
    let after = after_assign fresh user_id tenant_id role_name db in
    (
      after,
      assign_first fresh user_id tenant_id role_name db free new,
      λ now p. ground (
        arith,
        load-any now user_id tenant_id p after,
        rows_after fresh user_id tenant_id role_name db unused new,
        new_role-granted fresh tenant_id role_name p,
      ),
    )
