-- ===== src/Identity/Tests.antt =====
-- Runs of `get_auth_context` at concrete inputs.
use dgraphai.Identity.Context.{World, admitted, get_auth_context}
use dgraphai.Identity.Context.LocalTokens.{local_ignores_accounts}
use dgraphai.Identity.Context.Soundness.{Sound, get_auth_context-Sound}
use dgraphai.Identity.Keys.{Claims, Jose, OidcConfig, claims_of, extract_claim, get_jwks, jwt_error}
use dgraphai.Prelude.{[], false, if◌then◌else◌, none, refl, some, str_eq, true, ◌∷◌, ◌≡◌}
use dgraphai.Auth.Model.{User}
use dgraphai.Tenancy.Model.{new_user}
use dgraphai.Rbac.Permissions.{load_user_permissions, collect, rows, expand_permissions}

abbrev local_claims : Claims
local_claims = ("auth_type", "local") ∷ ("sub", "ann") ∷ ("tenant_id", "acme") ∷ []

abbrev jose : Jose
jose = record {
  unverified =
      λ t. if str_eq t "local" then some local_claims else some (("iss", "https://idp") ∷ []);
  decode_secret = λ t s. if str_eq s "s3cret" then some local_claims else none;
  decode_key = λ t k client.
      if str_eq k "k2"
      then claims_of (("sub", "x7") ∷ ("email", "bob@acme.com") ∷ [])
      else jwt_error;
  fetch = λ issuer. some ("k1" ∷ "k2" ∷ []);
}

abbrev ann : User
ann = new_user "ann" "acme" "ann@acme.com" none true

abbrev world : World
world = record {
  cache = [];
  store = record {
    accounts = record {
      users = ann ∷ [];
      credentials = [];
      verifications = [];
      resets = [];
      mfa = [];
      sessions = [];
      api_keys = [];
    };
    rbac = record { roles = []; assignments = [] };
    tenants =
        record { id = "acme"; slug = "acme"; name = "Acme"; plan = "pro"; is_active = true } ∷ [];
    invites = [];
    scim_configs = [];
  };
}

abbrev config : OidcConfig
config = record {
  tenant_id = "acme";
  provider_name = "okta";
  issuer_url = "https://idp";
  client_id = "client";
  claim_mapping = [];
  is_active = true;
}

-- The second key verifies the token, and the user is new.
first_login_admits :
    (get_auth_context jose "s3cret" 50 (config ∷ []) "u9" "https://app" (some "sso") world).1
    ≡ admitted (record {
      user_id = "u9";
      tenant_id = "acme";
      email = "bob@acme.com";
      roles = [];
      permissions = [];
    })
unfolding get_auth_context get_jwks extract_claim load_user_permissions collect rows
    expand_permissions
first_login_admits = refl

get_auth_context-Sound_example :
    Sound jose "s3cret" 50
      (config ∷ [])
      "u9"
      "sso"
      world
      (get_auth_context jose "s3cret" 50 (config ∷ []) "u9" "https://app" (some "sso") world)
get_auth_context-Sound_example =
    get_auth_context-Sound jose "s3cret" 50 (config ∷ []) "u9" "https://app" "sso" world

-- the user of the token is deactivated
abbrev without_ann : World
without_ann = record world {
  store = record world.store {
    accounts = record world.store.accounts { users = record ann { is_active = false } ∷ [] };
  };
}

local_ignores_accounts_example :
    (get_auth_context jose "s3cret" 50 [] "u9" "https://app" (some "local") world).1
    ≡ (get_auth_context jose "s3cret" 50 [] "u9" "https://app" (some "local") without_ann).1
local_ignores_accounts_example =
    local_ignores_accounts jose "s3cret" 50 [] "u9" "https://app" "local" world
      without_ann.store.accounts local_claims refl refl
