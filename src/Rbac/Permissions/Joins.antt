-- ===== src/Rbac/Permissions/Joins.antt =====
-- Which rows the join of assignments and roles has.
use dgraphai.Prelude.Members.{
  IsIn, IsIn-append_left, IsIn-append_right, IsIn-keep, IsIn-map, append-IsIn, keep-IsIn, map-IsIn,
}
use dgraphai.Prelude.{
  ap, eq_iff, if◌then◌else◌, map, str_eq, subst, sym, String, true, List, [], ◌∷◌, ◌&&◌, ◌≡◌, ◌∙◌,
  arith, keep, Bool-cases, inl, inr,
}
use dgraphai.Rbac.Permissions.{Role, RoleAssignment, rows}

-- The assignment is the user's in the tenant, and names the role, which is in the table.
abbrev pub Matches : String → String → List Role → RoleAssignment → Role → Type 0
Matches user_id tenant_id roles a role =
    IsIn role roles × (a.user_id ≡ user_id) × (a.tenant_id ≡ tenant_id) × (a.role_id ≡ role.id)

-- what one assignment gives to the join
abbrev joined_rows : String → String → List Role → RoleAssignment → List (RoleAssignment × Role)
joined_rows user_id tenant_id roles b =
    if str_eq b.user_id user_id && str_eq b.tenant_id tenant_id
    then map (λ r. (b, r)) (keep (λ r. str_eq b.role_id r.id) roles)
    else []

module _ (user_id tenant_id : String) (roles : List Role) where
  of_map :
      (b a : RoleAssignment) (role : Role)
      → IsIn {A = RoleAssignment × Role}
          (a, role)
          (map (λ r. (b, r)) (keep (λ r. str_eq b.role_id r.id) roles))
      → (a ≡ b) × IsIn role roles × (b.role_id ≡ role.id)
  of_map b a role m =
      let (r, k, e) = map-IsIn (λ r. (b, r)) (a, role) _ m in
      let (there, same_id) = keep-IsIn (λ r. str_eq b.role_id r.id) r roles k in
      let same_role : role ≡ r = ap (λ x. x.1) e in
      (
        ap (λ x. x.0) e,
        subst (λ x. IsIn x roles) (sym same_role) there,
        (eq_iff b.role_id r.id).0 same_id ∙ ap (λ (x : Role). x.id) (sym same_role),
      )

  joined_rows-Matches :
      (b a : RoleAssignment) (role : Role)
      → IsIn {A = RoleAssignment × Role} (a, role) (joined_rows user_id tenant_id roles b)
      → (a ≡ b) × Matches user_id tenant_id roles a role
  joined_rows-Matches b a role m =
      elim (Bool-cases (str_eq b.user_id user_id && str_eq b.tenant_id tenant_id)) [
        | inl own ↦
            let (same, there, id) = of_map b a role (
              subst
                (λ c.
                  IsIn {A = RoleAssignment × Role} (a, role)
                    (if c then map (λ r. (b, r)) (keep (λ r. str_eq b.role_id r.id) roles) else []))
                own m) in
            (
              same,
              subst (λ x. Matches user_id tenant_id roles x role) (sym same)
                  (
                    there,
                    ground (arith, own, eq_iff b.user_id user_id),
                    ground (arith, own, eq_iff b.tenant_id tenant_id),
                    id,
                  ),
            )
        | inr foreign ↦
            elim (subst
              (λ c.
                IsIn {A = RoleAssignment × Role} (a, role)
                  (if c then map (λ r. (b, r)) (keep (λ r. str_eq b.role_id r.id) roles) else []))
              foreign m) [ ]
      ]

  Matches-joined_rows :
      (b a : RoleAssignment) (role : Role)
      → a ≡ b
      → Matches user_id tenant_id roles a role
      → IsIn {A = RoleAssignment × Role} (a, role) (joined_rows user_id tenant_id roles b)
  Matches-joined_rows b a role same h =
      subst
        (λ x. IsIn {A = RoleAssignment × Role} (a, role) (joined_rows user_id tenant_id roles x))
        same
        (let own : (str_eq a.user_id user_id && str_eq a.tenant_id tenant_id) ≡ true =
            ground
              (arith, (eq_iff a.user_id user_id).1 h.1, (eq_iff a.tenant_id tenant_id).1 h.2) in
          subst
            (λ c.
              IsIn {A = RoleAssignment × Role} (a, role)
                (if c then map (λ r. (a, r)) (keep (λ r. str_eq a.role_id r.id) roles) else []))
            (sym own)
            (IsIn-map (λ r. (a, r)) role _
              (IsIn-keep (λ r. str_eq a.role_id r.id) role roles h.0
                ((eq_iff a.role_id role.id).1 h.3))))

  pub rows-Matches :
      (as' : List RoleAssignment) (a : RoleAssignment) (role : Role)
      → IsIn {A = RoleAssignment × Role} (a, role) (rows user_id tenant_id roles as')
      → IsIn a as' × Matches user_id tenant_id roles a role
  unfolding rows
  rows-Matches [] a role m = elim m [ ]
  rows-Matches (b ∷ as') a role m =
      elim (append-IsIn {A = RoleAssignment × Role} (a, role)
        (joined_rows user_id tenant_id roles b) (rows user_id tenant_id roles as') m) [
          | inl now_here ↦ let h = joined_rows-Matches b a role now_here in (inl h.0, h.1)
          | inr later ↦ let h = rows-Matches as' a role later in (inr h.0, h.1)
        ]

  pub Matches-rows :
      (as' : List RoleAssignment) (a : RoleAssignment) (role : Role)
      → IsIn a as'
      → Matches user_id tenant_id roles a role
      → IsIn {A = RoleAssignment × Role} (a, role) (rows user_id tenant_id roles as')
  unfolding rows
  Matches-rows [] a role m h = elim m [ ]
  Matches-rows (b ∷ as') a role (inl same) h =
      IsIn-append_left (a, role) (joined_rows user_id tenant_id roles b)
        (rows user_id tenant_id roles as') (Matches-joined_rows b a role same h)
  Matches-rows (b ∷ as') a role (inr m) h =
      IsIn-append_right (a, role) (joined_rows user_id tenant_id roles b)
        (rows user_id tenant_id roles as') (Matches-rows as' a role m h)
