-- ===== src/Identity/Context/LocalTokens.antt =====
-- What the answer to a local token depends on.
use dgraphai.Identity.Context.{
  World, commit, get_auth_context, is_local, local_token, on_local_claims, on_local_tenant,
}
use dgraphai.Identity.Keys.{Claims, Jose, OidcConfig, claim_or}
use dgraphai.Prelude.{
  Bool, List, Option, String, false, find, none, refl, some, str_eq, true, ℕ, ◌≡◌,
}
use dgraphai.Auth.Model.{Db as Accounts}
use dgraphai.Tenancy.Model.{Tenant}

module _ (j : Jose) (secret : String) (now : ℕ) (w : World) (accounts : Accounts) where
  abbrev other_accounts : World
  other_accounts = record w { store = record w.store { accounts = accounts } }

  on_local_tenant-same :
      (claims : Claims) (o : Option Tenant)
      → (commit w (on_local_tenant j secret now claims w o)).1
        ≡ (commit other_accounts (on_local_tenant j secret now claims other_accounts o)).1
  on_local_tenant-same claims none = refl
  on_local_tenant-same claims (some t) = refl

  on_local_claims-same :
      (o : Option Claims)
      → (commit w (on_local_claims j secret now w o)).1
        ≡ (commit other_accounts (on_local_claims j secret now other_accounts o)).1
  on_local_claims-same none = refl
  on_local_claims-same (some claims) =
      on_local_tenant-same claims
        (find (λ t. str_eq t.id (claim_or "tenant_id" "" claims)) w.store.tenants)

  local_token-same :
      (token : String) (b : Bool)
      → str_eq secret "" ≡ b
      → (commit w (local_token j secret now token w)).1
        ≡ (commit other_accounts (local_token j secret now token other_accounts)).1
  local_token-same token true e = rw e refl
  local_token-same token false e = rw e (on_local_claims-same (j.decode_secret token secret))

-- A local token is answered alike whatever the accounts are: neither the deactivation of its user nor
-- the revocation of all sessions changes who is admitted, with which permissions.
pub local_ignores_accounts :
    (j : Jose) (secret : String) (now : ℕ) (configs : List OidcConfig)
    (fresh app_url token : String) (w : World) (accounts : Accounts) (claims : Claims)
    → j.unverified token ≡ some claims
    → is_local app_url claims ≡ true
    → (get_auth_context j secret now configs fresh app_url (some token) w).1
      ≡ (get_auth_context j secret now configs fresh app_url
          (some token)
          (record w { store = record w.store { accounts = accounts } })).1
unfolding get_auth_context
local_ignores_accounts j secret now configs fresh app_url token w accounts claims e l =
    rw (e, l) (local_token-same j secret now w accounts token (str_eq secret "") refl)
