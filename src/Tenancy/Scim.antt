-- ===== src/Tenancy/Scim.antt =====
-- Provisioning over SCIM: the bearer token, its rotation, and what is read from a body. A body's
-- values have the types that SCIM gives them, and an identifier in a path is a UUID.
pub mod Users
pub mod Patch
pub mod Groups
pub mod Deprovision
pub mod Tokens
pub mod Filter
pub mod Isolation
use dgraphai.Auth.Model.{User}
use dgraphai.Prelude.{
  Bool, List, Option, String, [], false, find, if◌then◌else◌, keep, none, some, starts_with, str_eq,
  suc, true, update_where, zero, ℕ, ◌&&◌, ◌++◌, ◌∷◌,
}
use dgraphai.Tenancy.Model.{AuthContext, ScimConfig, Store, Tenant, multiple_rows}
use dgraphai.Tenancy.Signup.{lower_all, or_else}
use dgraphai.Prelude.Dict.{contains}
use dgraphai.Prelude.Chars.{chars}
use dgraphai.Auth.Model.{http_exception, Library, Reply, ok, get_db}
use dgraphai.Rbac.Assign.{Rows, one_row, no_row, many_rows, one_or_none}
use Prim.Native.Char.{Char}
use Prim.Native.String.{◌++◌ as append}
use text.Mathlib.TextBridge.{of_list}

abbrev pub drop : ℕ → List Char → List Char
drop zero xs = xs
drop (suc n) [] = []
drop (suc n) (x ∷ xs) = drop n xs

-- `SCIMConfig.tenant_id == id, SCIMConfig.token_hash == h, SCIMConfig.is_active == True`
abbrev pub is_config : String → String → ScimConfig → Bool
is_config tenant_id h x = str_eq x.tenant_id tenant_id && str_eq x.token_hash h && x.is_active

-- the hash of the token of an "Authorization" header, "" for a header that is missing
abbrev pub bearer_hash : Library → String → Option String
bearer_hash c header =
    if starts_with header "Bearer "
    then some (c.hash_token (of_list (drop 7 (chars header))))
    else none

module _ (c : Library) (now : ℕ) where
  abbrev pub touch : String → String → Store → Store
  touch tenant_id h s = record s {
    scim_configs =
        update_where (is_config tenant_id h) (λ x. record x { last_used_at = some now })
          s.scim_configs;
  }

  -- the handler that goes on, with the tenant
  abbrev pub with_active :
      String → String → Store → (Tenant → Store → Store × Reply) → Option Tenant → Store × Reply
  with_active tenant_id h s rest none = (s, http_exception 404 "Tenant not found")
  with_active tenant_id h s rest (some tenant) =
      if tenant.is_active
      then rest tenant (touch tenant_id h s)
      else (s, http_exception 404 "Tenant not found")

  abbrev pub with_config :
      String → String → Store → (Tenant → Store → Store × Reply) → Rows ScimConfig → Store × Reply
  with_config tenant_id h s rest no_row = (s, http_exception 401 "Invalid SCIM token")
  with_config tenant_id h s rest many_rows = multiple_rows s
  with_config tenant_id h s rest (one_row x) =
      with_active tenant_id h s rest (find (λ t. str_eq t.id tenant_id) s.tenants)

  abbrev pub with_bearer :
      String → Store → (Tenant → Store → Store × Reply) → Option String → Store × Reply
  with_bearer tenant_id s rest none = (s, http_exception 401 "Bearer token required")
  with_bearer tenant_id s rest (some h) =
      with_config tenant_id h s rest (one_or_none (keep (is_config tenant_id h) s.scim_configs))

  -- the dependency, and then the handler in the same session
  unfoldable pub get_scim_tenant :
      String → String → (Tenant → Store → Store × Reply) → Store → Store × Reply
  get_scim_tenant tenant_id header rest s =
      get_db s (with_bearer tenant_id s rest (bearer_hash c header))

  -- `raw_token` is generated, and is the answer
  unfoldable pub create_scim_token : String → AuthContext → Store → Store × Reply
  create_scim_token raw_token auth s = get_db s (
      if contains "admin:*" auth.permissions
      then (
        record s {
          scim_configs =
              update_where (λ x. str_eq x.tenant_id auth.tenant_id)
                (λ x. record x { is_active = false }) s.scim_configs
              ++ record {
                tenant_id = auth.tenant_id;
                token_hash = c.hash_token raw_token;
                is_active = true;
                last_used_at = none;
                created_by = auth.user_id;
              }
                ∷ [];
        },
        ok raw_token,
      )
      else (s, http_exception 403 "Admin required"))

-- The value of "name": an object with "formatted", "givenName" and "familyName", or a text.
pub data NameField : Type 0 where
  name_object : Option String → Option String → Option String → NameField
  name_text : String → NameField

-- `emails` and `groups` hold the "value" and the "display" of their entries; a "name" that is missing
-- is an empty object.
pub record ScimBody : Type 0 where
  pub user_name : Option String
  pub emails : List (Option String)
  pub name_field : NameField
  pub external_id : Option String
  pub active : Option Bool
  pub groups : List (Option String)

abbrev pub text_or : Option String → String → String
text_or none d = d
text_or (some t) d = t

-- `xs[0].get(key, "")`, and "" if there is no entry
abbrev first_text : List (Option String) → String
first_text [] = ""
first_text (x ∷ xs) = text_or x ""

unfoldable pub extract_email : ScimBody → String
extract_email body = or_else (text_or body.user_name "") (first_text body.emails)

-- `str.strip` is an argument
unfoldable pub extract_name : (String → String) → ScimBody → String
extract_name strip body = elim body.name_field [
  | name_text t ↦ t
  | name_object formatted given_name family_name ↦
      or_else (text_or formatted "")
        (strip (append (text_or given_name "") (append " " (text_or family_name ""))))
]

unfoldable pub extract_role : Library → ScimBody → String
extract_role c body =
    let display = of_list (lower_all c (chars (first_text body.groups))) in
    if contains display ("admin" ∷ "analyst" ∷ "viewer" ∷ []) then display else "analyst"

-- `scim_user user_id tenant_id` is the condition of the query for one user.
abbrev pub scim_user : String → String → User → Bool
scim_user user_id tenant_id u = str_eq u.id user_id && str_eq u.tenant_id tenant_id
