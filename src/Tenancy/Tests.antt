-- ===== src/Tenancy/Tests.antt =====
-- Runs of sign-up, invitations and provisioning at concrete inputs.
use dgraphai.Tenancy.Scim.Patch.{apply_op}
use dgraphai.Tenancy.Scim.Users.{update_user}
use dgraphai.Auth.Model.{hash, verify, get_db}
use dgraphai.Prelude.{
  All, Bool-cases, List, Option, String, [], arith, false, find, if◌then◌else◌, inl, inr, keep,
  none, refl, some, str_eq, true, ℕ, ◌==◌, ◌∷◌, ◌≡◌, ◌≢◌,
}
use dgraphai.Tenancy.Invites.{AcceptInviteRequest, InviteRequest, accept_invite, invite_user}
use dgraphai.Tenancy.Invites.Entry.{accepted_once, invited_allowed}
use dgraphai.Tenancy.Invites.SharedEmail.{invite_locks_out}
use dgraphai.Tenancy.Model.{AuthContext, Store, Tenant, UserInvite, new_user}
use dgraphai.Tenancy.Scim.{
  ScimBody, bearer_hash, create_scim_token, get_scim_tenant, is_config, name_text, touch,
}
use dgraphai.Tenancy.Scim.Deprovision.{IsSignedOut, deprovisioned}
use dgraphai.Tenancy.Scim.Filter.{NotN, filter_ignored}
use dgraphai.Tenancy.Scim.Isolation.{others}
use dgraphai.Tenancy.Scim.Isolation.Requests.{scim_isolation}
use dgraphai.Tenancy.Scim.Patch.{OpValue, UserOp, object, patch_scim_user, string}
use dgraphai.Tenancy.Scim.Tokens.{create_scim_token_lem}
use dgraphai.Tenancy.Scim.Users.{
  create_scim_user, delete_scim_user, list_scim_users, replace_scim_user,
}
use dgraphai.Tenancy.Signup.{Generated, SignupRequest, signup}
use dgraphai.Tenancy.Signup.FirstLogin.{IsFresh, signup_opens}
use dgraphai.Auth.Login.{login}
use dgraphai.Auth.Login.Access.{IsOk}
use dgraphai.Auth.Model.{http_exception, Library, Reply, User, ok}
use dgraphai.Auth.Passwords.{validate_password}
use dgraphai.Rbac.Permissions.{builtin, is_allowed, load_user_permissions}
use dgraphai.Rbac.Assign.{assign_builtin_role, assign_once}
use Prim.Native.Char.{Char, code}
use text.Mathlib.TextBridge.{of_list}
use dgraphai.Prelude.Chars.{chars}

-- A hash that is the identity, and a lower case of "N" alone.
abbrev small_n : Char
small_n = "n"

abbrev lower_n : Char → List Char
lower_n x = if code x == b'N' then small_n ∷ [] else x ∷ []

abbrev library : Library
library = record {
  encode = chars;
  checkpw = λ bytes h. some (str_eq (of_list bytes) h);
  hashpw = λ bytes. of_list bytes;
  hash_token = λ t. t;
  verify_totp = λ s code. false;
  is_upper = λ x. str_eq (of_list (x ∷ [])) "A";
  is_digit = λ x. str_eq (of_list (x ∷ [])) "1";
  upper = λ x. x ∷ [];
  lower = lower_n;
}

abbrev bob : User
bob = new_user "bob" "beta" "eve@x.com" (some "Bob") true

abbrev store : Store
store = record {
  accounts = record {
    users = bob ∷ [];
    credentials = [];
    verifications = [];
    resets = [];
    mfa = [];
    sessions =
        record {
          id = "s1";
          user_id = "bob";
          tenant_id = "beta";
          expires_at = 900;
          revoked_at = none;
        }
        ∷ [];
    api_keys = [];
  };
  rbac = record { roles = []; assignments = [] };
  tenants =
      record { id = "beta"; slug = "beta"; name = "Beta"; plan = "pro"; is_active = true } ∷ [];
  invites = [];
  scim_configs =
      record {
        tenant_id = "beta";
        token_hash = "old";
        is_active = true;
        last_used_at = none;
        created_by = "bob";
      }
      ∷ [];
}

abbrev sign_up : SignupRequest
sign_up = record {
  email = "ann@acme.com";
  password = "Apple111";
  name = "Ann";
  company = "Acme";
  plan = "starter";
}

abbrev generated : Generated
generated = record {
  tenant_id = "acme";
  user_id = "ann";
  role_id = "r1";
  token = "tok";
  random = "ff";
}

abbrev digits : ℕ → String
digits n = "7"

signup-IsOk : IsOk (signup library digits generated 5 sign_up store).1
unfolding signup validate_password assign_builtin_role assign_once
signup-IsOk = tt

generated-IsFresh : IsFresh generated store
generated-IsFresh = record {
  credentials = tt;
  mfa = tt;
  tenant = refl;
  role = tt;
  assignments = tt;
}

signup_opens_example :
    ((session : String) (later : ℕ) (code : Option String)
      → (login library session later
          (record { email = "ann@acme.com"; password = "Apple111"; mfa_code = code })
          (signup library digits generated 5 sign_up store).0.accounts).1
        ≡ ok session)
    × ((later : ℕ) (p : String)
        → is_allowed
            (load_user_permissions later "ann" "acme"
              (signup library digits generated 5 sign_up store).0.rbac).1
            p
          ≡ true)
unfolding verify hash
signup_opens_example =
    signup_opens library digits generated 5 sign_up store refl generated-IsFresh signup-IsOk

-- a user of the tenant "beta" who may only write users
abbrev writer : AuthContext
writer = record {
  user_id = "bob";
  tenant_id = "beta";
  email = "eve@x.com";
  roles = [];
  permissions = "users:write" ∷ [];
}

abbrev as_admin : InviteRequest
as_admin = record { email = "ann@acme.com"; role = "admin" }

valid : validate_password library "Apple111" ≡ none
unfolding validate_password
valid = refl

-- The invited user is an administrator; the one who invites is not.
invited_allowed_example :
    let (entered, reply) =
      accept_invite library "ann" "r1" 20
        (record { token = "tok"; password = "Apple111"; name = "Ann" })
        (invite_user library "tok" 10 as_admin writer store).0 in
    (reply ≡ ok "ann")
    × ((at : ℕ) (p : String)
        → is_allowed (load_user_permissions at "ann" "beta" entered.rbac).1 p
          ≡ is_allowed (builtin "admin") p)
invited_allowed_example =
    invited_allowed library "tok" 10 as_admin writer store "ann" "r1" 20 "Apple111" "Ann" refl refl
      tt (omega arith) valid refl tt tt

abbrev invitation : UserInvite
invitation = record {
  tenant_id = "acme";
  invited_by = "cat";
  email = "eve@x.com";
  role = "viewer";
  token_hash = "tok";
  expires_at = 100;
  used_at = none;
}

abbrev invited : Store
invited = record store { invites = invitation ∷ [] }

abbrev acceptance : String → AcceptInviteRequest
acceptance password = record { token = "tok"; password = password; name = "Eve" }

accept-IsOk : IsOk (accept_invite library "eve" "r2" 50 (acceptance "Apple111") invited).1
unfolding accept_invite validate_password assign_builtin_role assign_once
accept-IsOk = tt

accepted_once_example :
    accept_invite library "eve2" "r3" 51
      (acceptance "Avocado1")
      (accept_invite library "eve" "r2" 50 (acceptance "Apple111") invited).0
    ≡ (
      (accept_invite library "eve" "r2" 50 (acceptance "Apple111") invited).0,
      http_exception 400 "Invalid or expired invitation",
    )
accepted_once_example =
    accepted_once library "eve" "r2" 50 (acceptance "Apple111") invited accept-IsOk "eve2" "r3" 51
      (acceptance "Avocado1") refl

invite_locks_out_example :
    (login library "s" 60
      (record { email = "eve@x.com"; password = "Apple111"; mfa_code = none })
      (accept_invite library "eve" "r2" 50 (acceptance "Apple111") invited).0.accounts).1
    ≡ http_exception 500 "Multiple rows were found"
invite_locks_out_example =
    invite_locks_out library "eve" "r2" 50 (acceptance "Apple111") invited invitation refl refl
      accept-IsOk "s" "Apple111" 60 none

abbrev admin : AuthContext
admin = record writer { permissions = "admin:*" ∷ [] }

create_scim_token_lem_example :
    let after = (create_scim_token library 10 "new" admin store).0 in
    ((later : ℕ) (header h : String) (rest : Tenant → Store → Store × Reply)
      → bearer_hash library header ≡ some h
      → h ≢ "new"
      → get_scim_tenant library later "beta" header rest after
        ≡ (after, http_exception 401 "Invalid SCIM token"))
    × ((later : ℕ) (header : String) (rest : Tenant → Store → Store × Reply) (tenant : Tenant)
        → bearer_hash library header ≡ some "new"
        → find (λ t. str_eq t.id "beta") store.tenants ≡ some tenant
        → tenant.is_active ≡ true
        → get_scim_tenant library later "beta" header rest after
          ≡ get_db after (rest tenant (touch library later "beta" "new" after)))
    × ((other h : String)
        → other ≢ "beta"
        → keep (is_config other h) after.scim_configs ≡ keep (is_config other h) store.scim_configs)
create_scim_token_lem_example = create_scim_token_lem library 10 "new" admin store refl

bearer : bearer_hash library "Bearer old" ≡ some "old"
bearer = refl

not_bearer : bearer_hash library "Basic old" ≡ none
not_bearer = refl

-- a part of the name is the whole display name
renames :
    apply_op
      (λ v. "Bo")
      50
      "bob"
      "beta"
      (record { path = "name.givenName"; value = string "Bo" })
      store
    ≡ some (update_user "bob" "beta" (λ u. record u { display_name = some "Bo" }) store)
renames = refl

abbrev text_of : OpValue → String
text_of v = "value"

abbrev beta : Tenant
beta = record { id = "beta"; slug = "beta"; name = "Beta"; plan = "pro"; is_active = true }

abbrev leaving : List UserOp
leaving =
    record { path = "userName"; value = string "b@x.com" }
    ∷ record { path = ""; value = object (some false) }
    ∷ []

patch-IsOk : IsOk (patch_scim_user text_of 50 "bob" leaving beta store).1
unfolding patch_scim_user
patch-IsOk = tt

deprovisioned_example : IsSignedOut "bob" (patch_scim_user text_of 50 "bob" leaving beta store).0
deprovisioned_example = deprovisioned text_of 50 "bob" leaving beta store refl patch-IsOk

lower-NotN : (x : Char) → All NotN (lower_n x)
lower-NotN x = elim (Bool-cases (code x == b'N')) [
  | inl e ↦ rw e (ground arith, tt)
  | inr e ↦ rw e (ground arith, tt)
]

filter_ignored_example :
    list_scim_users library "beta" 1 100 "userName eq \"ann@acme.com\"" (bob ∷ [])
    ≡ list_scim_users library "beta" 1 100 "" (bob ∷ [])
filter_ignored_example =
    filter_ignored library lower-NotN "beta" 1 100 "userName eq \"ann@acme.com\"" (bob ∷ [])

abbrev new_body : ScimBody
new_body = record {
  user_name = some "cat@x.com";
  emails = [];
  name_field = name_text "Cat";
  external_id = none;
  active = none;
  groups = some "Admin" ∷ [];
}

scim_isolation_example :
    let request : (Tenant → Store → Store × Reply) → List User =
      λ rest. others "beta" (get_scim_tenant library 5 "beta" "Bearer old" rest store).0 in
    (request (create_scim_user library (λ t. t) "cat" "r4" new_body) ≡ others "beta" store)
    × (request (replace_scim_user (λ t. t) "cat" new_body) ≡ others "beta" store)
    × (request (patch_scim_user text_of 5 "cat" leaving) ≡ others "beta" store)
    × (request (delete_scim_user "cat") ≡ others "beta" store)
scim_isolation_example =
    scim_isolation library text_of (λ t. t) 5 "beta" "Bearer old" "cat" "r4" new_body leaving store
