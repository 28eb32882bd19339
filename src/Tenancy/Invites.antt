-- ===== src/Tenancy/Invites.antt =====
-- Invitations, the profile and the members of a tenant (api/users.py). What is generated is an
-- argument. The inviter and the name of the tenant, which only the mail reads, are left out. An
-- invitation's tenant exists, since the tenant's row takes its invitations with it.
pub mod Entry
pub mod SharedEmail
use dgraphai.Auth.Passwords.{validate_password}
use dgraphai.Prelude.{
  Bool, List, Option, String, [], any, false, find, if◌then◌else◌, keep, ltb, none, some, str_eq,
  true, update_where, ℕ, ◌&&◌, ◌*◌, ◌++◌, ◌+◌, ◌||◌, ◌∷◌,
}
use dgraphai.Tenancy.Model.{
  AuthContext, Store, Tenant, UserInvite, add_member, multiple_rows, new_credential, new_user,
  with_roles,
}
use dgraphai.Prelude.Dict.{contains}
use dgraphai.Auth.Model.{hash, http_exception, Library, User, Reply, ok, get_db}
use dgraphai.Auth.Login.{given, mfa_of}
use dgraphai.Auth.Account.{unset}
use dgraphai.Rbac.Assign.{Rows, one_row, no_row, many_rows, one_or_none, assign_builtin_role}

pub record InviteRequest : Type 0 where
  pub email : String
  pub role : String

pub record AcceptInviteRequest : Type 0 where
  pub token : String
  pub password : String
  pub name : String

pub record UpdateProfileRequest : Type 0 where
  pub name : Option String
  pub email : Option String

abbrev pub seven_days : ℕ
seven_days = 7 * 86400

-- `User.email == email, User.tenant_id == tenant_id`
abbrev pub member : String → String → User → Bool
member email tenant_id u = str_eq u.email email && str_eq u.tenant_id tenant_id

abbrev pub may_invite : AuthContext → Bool
may_invite auth = contains "admin:*" auth.permissions || contains "users:write" auth.permissions

abbrev pub new_invite : Library → String → ℕ → InviteRequest → AuthContext → UserInvite
new_invite c token now req auth = record {
  tenant_id = auth.tenant_id;
  invited_by = auth.user_id;
  email = req.email;
  role = req.role;
  token_hash = c.hash_token token;
  expires_at = now + seven_days;
  used_at = none;
}

abbrev pub on_member :
    Library → String → ℕ → InviteRequest → AuthContext → Store → Rows User → Store × Reply
on_member c token now req auth s (one_row u) =
    (s, http_exception 409 "User already a member of this tenant")
on_member c token now req auth s many_rows = multiple_rows s
on_member c token now req auth s no_row =
    (record s { invites = s.invites ++ new_invite c token now req auth ∷ [] }, ok "invited")

unfoldable pub invite_user :
    Library → String → ℕ → InviteRequest → AuthContext → Store → Store × Reply
invite_user c token now req auth s = get_db s (
    if may_invite auth
    then on_member c token now req auth s
        (one_or_none (keep (member req.email auth.tenant_id) s.accounts.users))
    else (s, http_exception 403 "Admin permission required"))

-- `token_hash == h` and `used_at == None`
abbrev pub pending : String → UserInvite → Bool
pending h i = str_eq i.token_hash h && unset i.used_at

abbrev pub use_invite : ℕ → String → List UserInvite → List UserInvite
use_invite now h invites =
    update_where (λ i. str_eq i.token_hash h) (λ i. record i { used_at = some now }) invites

module _ (c : Library) (user_id role_id : String) (now : ℕ) where
  abbrev pub joined : AcceptInviteRequest → Store → UserInvite → Store
  joined req s i = record s {
    accounts =
        add_member (new_user user_id i.tenant_id i.email (some req.name) true)
          (new_credential user_id (hash c req.password)) s.accounts;
    invites = use_invite now i.token_hash s.invites;
  }

  abbrev pub join_tenant : AcceptInviteRequest → Store → UserInvite → Option String → Store × Reply
  join_tenant req s i (some detail) = (s, http_exception 422 detail)
  join_tenant req s i none =
      with_roles (joined req s i) (assign_builtin_role role_id user_id i.tenant_id i.role s.rbac)
        (ok user_id)

  abbrev pub on_invite : AcceptInviteRequest → Store → Option UserInvite → Store × Reply
  on_invite req s none = (s, http_exception 400 "Invalid or expired invitation")
  on_invite req s (some i) =
      if ltb i.expires_at now
      then (s, http_exception 400 "Invalid or expired invitation")
      else join_tenant req s i (validate_password c req.password)

  unfoldable pub accept_invite : AcceptInviteRequest → Store → Store × Reply
  accept_invite req s =
      get_db s (on_invite req s (find (pending (c.hash_token req.token)) s.invites))

-- the order of the answer, by the time of creation, is left out
unfoldable pub list_users : AuthContext → Store → List User
list_users auth s = keep (λ u. str_eq u.tenant_id auth.tenant_id && u.is_active) s.accounts.users

pub record Profile : Type 0 where
  pub user : User
  pub mfa_enabled : Bool
  pub tenant : Option Tenant

-- `none` is the answer 404. An identifier is unique, and an MFA configuration for its user.
unfoldable pub get_profile : AuthContext → Store → Option Profile
get_profile auth s = elim (find (λ u. str_eq u.id auth.user_id) s.accounts.users) [
  | none ↦ none
  | some u ↦ some (record {
    user = u;
    mfa_enabled = any (λ m. mfa_of auth.user_id m && m.is_active) s.accounts.mfa;
    tenant = find (λ t. str_eq t.id auth.tenant_id) s.tenants;
  })
]

abbrev pub rename : Option String → User → User
rename none u = u
rename (some name) u = record u { display_name = some name }

abbrev pub readdress : Option String → User → User
readdress none u = u
readdress (some email) u =
    if str_eq email u.email then u else record u { email = email; email_verified = false }

unfoldable pub update_profile : UpdateProfileRequest → AuthContext → Store → Store × Reply
update_profile req auth s = get_db s (elim (find (λ u. str_eq u.id auth.user_id) s.accounts.users) [
  | none ↦ (s, http_exception 404 "User not found")
  | some u ↦ (
    record s {
      accounts = record s.accounts {
        users =
            update_where (λ x. str_eq x.id auth.user_id)
              (λ x. readdress (given req.email) (rename (given req.name) x)) s.accounts.users;
      };
    },
    ok "updated",
  )
])

-- `update(User).where(id, tenant_id).values(is_active=False)`
abbrev pub deactivate : String → String → Store → Store
deactivate user_id tenant_id s = record s {
  accounts = record s.accounts {
    users =
        update_where (λ u. str_eq u.id user_id && str_eq u.tenant_id tenant_id)
          (λ u. record u { is_active = false }) s.accounts.users;
  };
}

unfoldable pub remove_user : String → AuthContext → Store → Store × Reply
remove_user user_id auth s = get_db s (
    if contains "admin:*" auth.permissions
    then (if str_eq auth.user_id user_id
        then (s, http_exception 400 "Cannot remove yourself")
        else (deactivate user_id auth.tenant_id s, ok "removed"))
    else (s, http_exception 403 "Admin required"))
