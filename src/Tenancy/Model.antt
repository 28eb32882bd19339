-- ===== src/Tenancy/Model.antt =====
-- The rows that the handlers about members share, beside those of accounts and roles. `User.name`,
-- which each of them sets to `display_name`, is left out. Times are seconds.
use dgraphai.Prelude.{Bool, List, Option, String, [], none, some, true, ℕ, ◌++◌, ◌∷◌}
use dgraphai.Auth.Model.{http_exception, LocalCredential, User, Reply, Db as Accounts}
use dgraphai.Rbac.Permissions.{Db as Roles}

pub record Tenant : Type 0 where
  pub id : String
  pub slug : String
  pub name : String
  pub plan : String
  pub is_active : Bool

pub record UserInvite : Type 0 where
  pub tenant_id : String
  pub invited_by : String
  pub email : String
  pub role : String
  pub token_hash : String
  pub expires_at : ℕ
  pub used_at : Option ℕ

pub record ScimConfig : Type 0 where
  pub tenant_id : String
  pub token_hash : String
  pub is_active : Bool
  pub last_used_at : Option ℕ
  pub created_by : String

pub record Store : Type 0 where
  pub accounts : Accounts
  pub rbac : Roles
  pub tenants : List Tenant
  pub invites : List UserInvite
  pub scim_configs : List ScimConfig

-- a member without a name or an identity provider
abbrev pub new_user : String → String → String → Option String → Bool → User
new_user id tenant_id email display_name email_verified = record {
  id = id;
  tenant_id = tenant_id;
  email = email;
  is_active = true;
  email_verified = email_verified;
  display_name = display_name;
  external_id = none;
  idp_provider = none;
  role = "member";
}

abbrev pub new_credential : String → String → LocalCredential
new_credential user_id password_hash = record {
  user_id = user_id;
  password_hash = password_hash;
  failed_attempts = some 0;
  locked_until = none;
  last_failed_at = none;
  last_login_at = none;
}

-- an answer with the rows, or the exception of a `scalar_one_or_none`, which rolls back
abbrev pub multiple_rows : Store → Store × Reply
multiple_rows s = (s, http_exception 500 "Multiple rows were found")

abbrev pub add_member : User → LocalCredential → Accounts → Accounts
add_member user cred d = record d {
  users = d.users ++ user ∷ [];
  credentials = d.credentials ++ cred ∷ [];
}

-- the rows with a role assigned, or the exception of the assignment
abbrev pub with_roles : Store → Option Roles → Reply → Store × Reply
with_roles s none r = multiple_rows s
with_roles s (some roles) r = (record s { rbac = roles }, r)

-- who sends a request, as `get_auth_context` found out
pub record AuthContext : Type 0 where
  pub user_id : String
  pub tenant_id : String
  pub email : String
  pub roles : List String
  pub permissions : List String
