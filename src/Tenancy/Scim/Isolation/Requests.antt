-- ===== src/Tenancy/Scim/Isolation/Requests.antt =====
-- Partial updates, and all requests about users together.
use dgraphai.Prelude.{
  Bool, List, Option, String, [], ap, false, if◌then◌else◌, none, refl, some, starts_with, str_eq,
  sym, true, ℕ, ◌||◌, ◌∙◌, ◌∷◌, ◌≡◌,
}
use dgraphai.Tenancy.Model.{Store, Tenant}
use dgraphai.Tenancy.Scim.{ScimBody, get_scim_tenant}
use dgraphai.Tenancy.Scim.Deprovision.{same_store}
use dgraphai.Tenancy.Scim.Isolation.{
  Isolates, create-Isolates, delete-Isolates, get_scim_tenant-others, others, replace-Isolates,
  update-others,
}
use dgraphai.Tenancy.Scim.Patch.{
  OpValue, UserOp, active_value, apply_op, apply_ops, on_found, on_patched, patch_scim_user,
  set_active, sets_active,
}
use dgraphai.Tenancy.Scim.Users.{create_scim_user, delete_scim_user, replace_scim_user, update_user}
use dgraphai.Prelude.{◌>>=◌}
use dgraphai.Auth.Model.{Library, Reply, User}

module _ (str : OpValue → String) (now : ℕ) (user_id : String) (t : Tenant) where
  set_active-others :
      (a : Option Bool) (s after : Store)
      → set_active str now user_id t.id s a ≡ some after
      → others t.id after ≡ others t.id s
  set_active-others none s after e = absurd cc
  set_active-others (some true) s after e =
      ap (others t.id) (sym (same_store e))
      ∙ update-others user_id t.id (λ u. record u { is_active = true }) s.accounts.users (λ u. refl)
  set_active-others (some false) s after e =
      ap (others t.id) (sym (same_store e))
      ∙ update-others user_id t.id (λ u. record u { is_active = false }) s.accounts.users
          (λ u. refl)

  on_op-others :
      (op : UserOp) (active email name : Bool) (s after : Store)
      → (if active
          then set_active str now user_id t.id s (active_value op.value)
          else if email
          then some (update_user user_id t.id (λ u. record u { email = str op.value }) s)
          else if name
          then some
              (update_user user_id t.id (λ u. record u { display_name = some (str op.value) }) s)
          else some s)
        ≡ some after
      → others t.id after ≡ others t.id s
  on_op-others op true email name s after e = set_active-others (active_value op.value) s after e
  on_op-others op false true name s after e =
      ap (others t.id) (sym (same_store e))
      ∙ update-others user_id t.id (λ u. record u { email = str op.value }) s.accounts.users
          (λ u. refl)
  on_op-others op false false true s after e =
      ap (others t.id) (sym (same_store e))
      ∙ update-others user_id t.id (λ u. record u { display_name = some (str op.value) })
          s.accounts.users (λ u. refl)
  on_op-others op false false false s after e = ap (others t.id) (sym (same_store e))

  next-others :
      (op : UserOp) (ops : List UserOp) (s after : Store) (o : Option Store)
      → apply_op str now user_id t.id op s ≡ o
      → (o >>= apply_ops str now user_id t.id ops) ≡ some after
      → ((next : Store)
          → apply_ops str now user_id t.id ops next ≡ some after
          → others t.id after ≡ others t.id next)
      → others t.id after ≡ others t.id s
  next-others op ops s after none f e rest = absurd cc
  next-others op ops s after (some next) f e rest =
      rest next e
      ∙ on_op-others op (sets_active op)
          (str_eq op.path "userName" || str_eq op.path "emails[type eq \"work\"].value")
          (starts_with op.path "name") s next f

  apply_ops-others :
      (ops : List UserOp) (s after : Store)
      → apply_ops str now user_id t.id ops s ≡ some after
      → others t.id after ≡ others t.id s
  apply_ops-others [] s after e = ap (others t.id) (sym (same_store e))
  apply_ops-others (op ∷ ops) s after e =
      next-others op ops s after (apply_op str now user_id t.id op s) refl e
        (λ next. apply_ops-others ops next after)

  on_patched-others :
      (ops : List UserOp) (s : Store) (o : Option Store)
      → apply_ops str now user_id t.id ops s ≡ o
      → others t.id (on_patched str now user_id t.id s o).0 ≡ others t.id s
  on_patched-others ops s none e = refl
  on_patched-others ops s (some after) e = apply_ops-others ops s after e

  on_found-others :
      (ops : List UserOp) (s : Store) (o : Option User)
      → others t.id (on_found str now user_id ops t s o).0 ≡ others t.id s
  on_found-others ops s none = refl
  on_found-others ops s (some u) = on_patched-others ops s _ refl

patch-Isolates :
    (str : OpValue → String) (now : ℕ) (user_id : String) (ops : List UserOp)
    → Isolates (patch_scim_user str now user_id ops)
unfolding patch_scim_user
patch-Isolates str now user_id ops t s = on_found-others str now user_id t ops s _

-- Whatever the bearer token is and whatever a request asks for, to create, replace, patch or delete a
-- user under the address of a tenant leaves the users of all other tenants as they are.
pub scim_isolation :
    (c : Library) (str : OpValue → String) (strip : String → String) (now : ℕ)
    (tenant_id header user_id role_id : String) (body : ScimBody) (ops : List UserOp) (s : Store)
    → let request : (Tenant → Store → Store × Reply) → List User =
        λ rest. others tenant_id (get_scim_tenant c now tenant_id header rest s).0 in
      (request (create_scim_user c strip user_id role_id body) ≡ others tenant_id s)
      × (request (replace_scim_user strip user_id body) ≡ others tenant_id s)
      × (request (patch_scim_user str now user_id ops) ≡ others tenant_id s)
      × (request (delete_scim_user user_id) ≡ others tenant_id s)
scim_isolation c str strip now tenant_id header user_id role_id body ops s =
    let lift : (rest : Tenant → Store → Store × Reply)
        → Isolates rest
        → others tenant_id (get_scim_tenant c now tenant_id header rest s).0 ≡ others tenant_id s =
      λ rest h. get_scim_tenant-others c now tenant_id header rest h s in
    (
      lift (create_scim_user c strip user_id role_id body)
          (create-Isolates c strip user_id role_id body),
      lift (replace_scim_user strip user_id body) (replace-Isolates strip user_id body),
      lift (patch_scim_user str now user_id ops) (patch-Isolates str now user_id ops),
      lift (delete_scim_user user_id) (delete-Isolates user_id),
    )
