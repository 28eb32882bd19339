-- ===== src/Identity/Context.antt =====
-- `get_auth_context` with the two kinds of token. The row of the user that a local token names is
-- read and not used, and is left out; so are the times of logins.
pub mod Lookups
pub mod Soundness
pub mod LocalTokens
use dgraphai.Identity.Keys.{
  Cache, Claims, Jose, OidcConfig, claim_or, extract_claim, get_jwks, try_keys,
}
use dgraphai.Prelude.{
  Bool, List, Option, String, any, false, find, if◌then◌else◌, keep, none, not, some, str_eq, true,
  update_where, ℕ, ◌&&◌, ◌||◌,
}
use dgraphai.Auth.Model.{User}
use dgraphai.Rbac.Assign.{Rows, one_row, no_row, many_rows, one_or_none}
use dgraphai.Rbac.Permissions.{load_user_permissions}
use dgraphai.Tenancy.Model.{AuthContext, Store, Tenant}
use dgraphai.Tenancy.Scim.Users.{add_user}

-- The answer of the dependency.
pub data Admission : Type 0 where
  admitted : AuthContext → Admission
  denied : ℕ → String → Admission

-- The cache of keys and the rows.
pub record World : Type 0 where
  pub cache : Cache
  pub store : Store

-- The rows are committed after an admission and rolled back on an exception; the cache stays.
abbrev pub commit : World → World × Admission → World × Admission
commit before (after, admitted a) = (after, admitted a)
commit before (after, denied code detail) =
    (record after { store = before.store }, denied code detail)

abbrev pub context_of : ℕ → String → String → String → Store → AuthContext
context_of now user_id tenant_id email s =
    let (roles, permissions) = load_user_permissions now user_id tenant_id s.rbac in
    record {
      user_id = user_id;
      tenant_id = tenant_id;
      email = email;
      roles = roles;
      permissions = permissions;
    }

-- the join with an active tenant
abbrev pub serves : String → List Tenant → OidcConfig → Bool
serves issuer tenants x =
    str_eq x.issuer_url issuer
    && x.is_active
    && any (λ (t : Tenant). str_eq t.id x.tenant_id && t.is_active) tenants

abbrev pub show_name : String → String → Store → Store
show_name id display_name s = record s {
  accounts = record s.accounts {
    users =
        update_where (λ u. str_eq u.id id)
          (λ u. if str_eq display_name "" then u else record u { display_name = some display_name })
          s.accounts.users;
  };
}

abbrev pub has_external_id : String → Option String → Bool
has_external_id id none = false
has_external_id id (some e) = str_eq e id

-- `app_url` is the variable APP_URL
abbrev pub is_local : String → Claims → Bool
is_local app_url claims =
    str_eq (claim_or "auth_type" "" claims) "local"
    || (not (str_eq (claim_or "iss" "" claims) "") && str_eq (claim_or "iss" "" claims) app_url)

module _ (j : Jose) (secret : String) (now : ℕ) where
  abbrev pub on_local_tenant : Claims → World → Option Tenant → World × Admission
  on_local_tenant claims w none = (w, denied 401 "Tenant not found")
  on_local_tenant claims w (some t) = (
    w,
    admitted (context_of now (claim_or "sub" "" claims) t.id (claim_or "email" "" claims) w.store),
  )

  abbrev pub on_local_claims : World → Option Claims → World × Admission
  on_local_claims w none = (w, denied 401 "Invalid local token")
  on_local_claims w (some claims) =
      on_local_tenant claims w
        (find (λ t. str_eq t.id (claim_or "tenant_id" "" claims)) w.store.tenants)

  abbrev pub local_token : String → World → World × Admission
  local_token token w =
      if str_eq secret ""
      then (w, denied 401 "JWT not configured")
      else on_local_claims w (j.decode_secret token secret)

  module _ (configs : List OidcConfig) (fresh : String) where
    abbrev pub first_login : OidcConfig → String → String → String → User
    first_login x email display_name external_id = record {
      id = fresh;
      tenant_id = x.tenant_id;
      email = email;
      is_active = true;
      email_verified = false;
      display_name = some display_name;
      external_id = some external_id;
      idp_provider = some x.provider_name;
      role = "member";
    }

    abbrev pub enter_as :
        OidcConfig → String → String → String → World → Rows User → World × Admission
    enter_as x email display_name external_id w no_row =
        let s = add_user (first_login x email display_name external_id) w.store in
        (record w { store = s }, admitted (context_of now fresh x.tenant_id email s))
    enter_as x email display_name external_id w (one_row u) =
        let s = show_name u.id display_name w.store in
        (record w { store = s }, admitted (context_of now u.id x.tenant_id email s))
    enter_as x email display_name external_id w many_rows =
        (w, denied 500 "Multiple rows were found")

    abbrev pub on_claims : OidcConfig → World → Option (Option Claims) → World × Admission
    on_claims x w none = (w, denied 500 "Unable to construct the key")
    on_claims x w (some none) = (w, denied 401 "Token validation failed")
    on_claims x w (some (some claims)) =
        let email = extract_claim claims x.claim_mapping "email" "" in
        if str_eq email ""
        then (w, denied 401 "Email claim missing")
        else enter_as x email (extract_claim claims x.claim_mapping "name" email)
            (claim_or "sub" "" claims) w
            (one_or_none (
              keep
                (λ u.
                  str_eq u.tenant_id x.tenant_id
                  && has_external_id (claim_or "sub" "" claims) u.external_id)
                w.store.accounts.users))

    abbrev pub on_keys :
        String → OidcConfig → World → Cache × Option (List String) → World × Admission
    on_keys token x w (cache, none) =
        (record w { cache = cache }, denied 500 "The keys of the issuer cannot be read")
    on_keys token x w (cache, some keys) =
        on_claims x (record w { cache = cache }) (try_keys j token x.client_id keys)

    abbrev pub on_config : String → World → Option OidcConfig → World × Admission
    on_config token w none =
        (w, denied 401 "No active tenant configured for this identity provider")
    on_config token w (some x) = on_keys token x w (get_jwks j now x.issuer_url w.cache)

    abbrev pub oidc_token : String → String → World → World × Admission
    oidc_token token issuer w =
        if str_eq issuer ""
        then (w, denied 401 "Missing issuer claim")
        else on_config token w (find (serves issuer w.store.tenants) configs)

    abbrev pub on_unverified : String → String → World → Option Claims → World × Admission
    on_unverified app_url token w none = (w, denied 401 "Invalid token")
    on_unverified app_url token w (some claims) =
        if is_local app_url claims
        then local_token token w
        else oidc_token token (claim_or "iss" "" claims) w

    abbrev pub on_credentials : String → World → Option String → World × Admission
    on_credentials app_url w none = (w, denied 401 "Authorization header required")
    on_credentials app_url w (some token) = on_unverified app_url token w (j.unverified token)

    unfoldable pub get_auth_context : String → Option String → World → World × Admission
    get_auth_context app_url credentials w = commit w (on_credentials app_url w credentials)
