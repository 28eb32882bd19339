-- ===== src/Tenancy/Scim/Isolation.antt =====
-- What a tenant's provisioning leaves alone.
pub mod Requests
use dgraphai.Auth.Login.{given}
use dgraphai.Prelude.{
  ◌>>=◌, Bool, Bool-cases, ap, if◌then◌else◌, inl, inr, starts_with, subst, sym, true, ◌||◌, ◌∙◌,
}
use dgraphai.Tenancy.Model.{with_roles}
use dgraphai.Tenancy.Scim.{extract_email}
use dgraphai.Tenancy.Scim.Deprovision.{same_store}
use dgraphai.Tenancy.Scim.Patch.{
  active_value, apply_op, apply_ops, on_found, on_patched, set_active, sets_active,
}
use dgraphai.Tenancy.Scim.Users.{add_user, on_provisioned, provisioned, update_user}
use dgraphai.Prelude.{
  List, Option, String, [], arith, eq_iff, eq_refl, false, find, keep, none, not, refl, some,
  str_eq, update_where, ℕ, ◌++◌, ◌∷◌, ◌≡◌,
}
use dgraphai.Tenancy.Model.{ScimConfig, Store, Tenant}
use dgraphai.Tenancy.Scim.{
  ScimBody, bearer_hash, get_scim_tenant, scim_user, touch, with_active, with_bearer, with_config,
}
use dgraphai.Tenancy.Scim.Patch.{OpValue, UserOp, patch_scim_user}
use dgraphai.Tenancy.Scim.Users.{create_scim_user, delete_scim_user, replace_scim_user, replaced}
use dgraphai.Auth.Model.{http_exception, Library, Reply, User, ok, get_db, Db as Accounts}
use dgraphai.Rbac.Assign.{Rows, one_row, no_row, many_rows, one_or_none, assign_builtin_role}
use dgraphai.Rbac.Permissions.{Db as Roles}
use dgraphai.Auth.Login.Access.{IsOk}

-- the users of the other tenants
abbrev pub others : String → Store → List User
others tenant_id s = keep (λ u. not (str_eq u.tenant_id tenant_id)) s.accounts.users

pub update-others :
    (user_id tenant_id : String) (f : User → User) (us : List User)
    → ((u : User) → (f u).tenant_id ≡ u.tenant_id)
    → keep
        (λ u. not (str_eq u.tenant_id tenant_id))
        (update_where (scim_user user_id tenant_id) f us)
      ≡ keep (λ u. not (str_eq u.tenant_id tenant_id)) us
update-others user_id tenant_id f [] h = refl
update-others user_id tenant_id f (u ∷ us) h =
    ground (arith, h u, update-others user_id tenant_id f us h)

add-others :
    (u : User) (us : List User)
    → keep (λ x. not (str_eq x.tenant_id u.tenant_id)) (us ++ u ∷ [])
      ≡ keep (λ x. not (str_eq x.tenant_id u.tenant_id)) us
add-others u [] = ground (arith, eq_refl u.tenant_id)
add-others u (x ∷ xs) = ground (arith, add-others u xs)

-- A handler that leaves the users of the tenants other than its own.
abbrev pub Isolates : (Tenant → Store → Store × Reply) → Type 0
Isolates rest = (t : Tenant) (s : Store) → others t.id (rest t s).0 ≡ others t.id s

find-id :
    (id : String) (ts : List Tenant) (t : Tenant)
    → find (λ t. str_eq t.id id) ts ≡ some t
    → t.id ≡ id
find-id id [] t e = ground arith
find-id id (x ∷ xs) t e = ground (arith, eq_iff x.id id, find-id id xs t)

get_db-others :
    (tenant_id : String) (s after : Store) (r : Reply)
    → others tenant_id after ≡ others tenant_id s
    → others tenant_id (get_db s (after, r)).0 ≡ others tenant_id s
get_db-others tenant_id s after (ok a) e = e
get_db-others tenant_id s after (http_exception code detail) e = refl

module _ (c : Library) (now : ℕ) (tenant_id header : String) (rest : Tenant → Store → Store × Reply)
    (isolates : Isolates rest) (s : Store) where
  on_active-others :
      (t : Tenant) (h : String)
      → t.id ≡ tenant_id
      → (active : Bool)
      → others tenant_id
          (if active
            then rest t (touch c now tenant_id h s)
            else (s, http_exception 404 "Tenant not found")).0
        ≡ others tenant_id s
  on_active-others t h same true =
      subst (λ i. others i (rest t (touch c now tenant_id h s)).0 ≡ others i s) same
        (isolates t (touch c now tenant_id h s))
  on_active-others t h same false = refl

  with_active-others :
      (h : String) (o : Option Tenant)
      → find (λ t. str_eq t.id tenant_id) s.tenants ≡ o
      → others tenant_id (with_active c now tenant_id h s rest o).0 ≡ others tenant_id s
  with_active-others h none e = refl
  with_active-others h (some t) e =
      on_active-others t h (find-id tenant_id s.tenants t e) t.is_active

  with_config-others :
      (h : String) (o : Rows ScimConfig)
      → others tenant_id (with_config c now tenant_id h s rest o).0 ≡ others tenant_id s
  with_config-others h no_row = refl
  with_config-others h many_rows = refl
  with_config-others h (one_row x) = with_active-others h _ refl

  with_bearer-others :
      (o : Option String)
      → others tenant_id (with_bearer c now tenant_id s rest o).0 ≡ others tenant_id s
  with_bearer-others none = refl
  with_bearer-others (some h) = with_config-others h _

  pub get_scim_tenant-others :
      others tenant_id (get_scim_tenant c now tenant_id header rest s).0 ≡ others tenant_id s
  unfolding get_scim_tenant
  get_scim_tenant-others = get_db-others tenant_id s _ _ (with_bearer-others (bearer_hash c header))

with_roles-others :
    (tenant_id : String) (s : Store) (o : Option Roles) (r : Reply)
    → others tenant_id (with_roles s o r).0 ≡ others tenant_id s
with_roles-others tenant_id s none r = refl
with_roles-others tenant_id s (some roles) r = refl

on_provisioned-others :
    (role_id : String) (u : User) (s : Store) (o : Rows User)
    → others u.tenant_id (on_provisioned role_id u s o).0 ≡ others u.tenant_id s
on_provisioned-others role_id u s (one_row x) = refl
on_provisioned-others role_id u s many_rows = refl
on_provisioned-others role_id u s no_row =
    with_roles-others u.tenant_id (add_user u s) _ _ ∙ add-others u s.accounts.users

pub create-Isolates :
    (c : Library) (strip : String → String) (user_id role_id : String) (body : ScimBody)
    → Isolates (create_scim_user c strip user_id role_id body)
unfolding create_scim_user
create-Isolates c strip user_id role_id body t s =
    elim (Bool-cases (str_eq (extract_email body) "")) [
      | inl missing ↦ rw missing refl
      | inr given ↦
          rw given (on_provisioned-others role_id (provisioned c strip user_id t.id body) s _)
    ]

pub replace-Isolates :
    (strip : String → String) (user_id : String) (body : ScimBody)
    → Isolates (replace_scim_user strip user_id body)
unfolding replace_scim_user
replace-Isolates strip user_id body t s =
    ground (arith, update-others user_id t.id (replaced strip body) s.accounts.users (λ u. refl))

pub delete-Isolates : (user_id : String) → Isolates (delete_scim_user user_id)
unfolding delete_scim_user
delete-Isolates user_id t s =
    update-others user_id t.id (λ u. record u { is_active = false }) s.accounts.users (λ u. refl)
