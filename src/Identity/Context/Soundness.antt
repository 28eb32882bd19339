-- ===== src/Identity/Context/Soundness.antt =====
-- Who is admitted.
use dgraphai.Prelude.Members.{IsIn}
use dgraphai.Prelude.{subst}
use dgraphai.Identity.Context.Lookups.{IsKeyList, get_jwks-IsKeyList}
use dgraphai.Identity.Context.Lookups.{
  get_jwks-IsKeyList, IsKeyList, IsServing, find-IsServing, try_keys-decoded,
}
use dgraphai.Identity.Context.{
  Admission, World, admitted, commit, context_of, denied, enter_as, get_auth_context, is_local,
  local_token, oidc_token, on_claims, on_config, on_keys, on_local_claims, on_local_tenant,
  on_unverified, serves,
}
use dgraphai.Identity.Keys.{
  Cache, Claims, Jose, OidcConfig, claim_or, claims_of, extract_claim, try_keys,
}
use dgraphai.Prelude.{
  subst, Bool, List, Option, String, false, find, if◌then◌else◌, inl, inr, none, refl, some, str_eq,
  true, ℕ, ◌≡◌, ◌⊎◌,
}
use dgraphai.Rbac.Permissions.{load_user_permissions}
use dgraphai.Rbac.Assign.{Rows, one_row, no_row, many_rows}
use dgraphai.Tenancy.Model.{AuthContext, Tenant}

module _ (j : Jose) (secret : String) (now : ℕ) (configs : List OidcConfig) (fresh token : String)
    (w : World) where
  -- The token's claims are verified by the server's secret, and name a tenant that exists.
  abbrev pub LocalGrant : AuthContext → Type 0
  LocalGrant ctx =
      (claims : Claims) × (t : Tenant) × (str_eq secret "" ≡ false)
      × (j.decode_secret token secret ≡ some claims)
      × (find (λ t. str_eq t.id (claim_or "tenant_id" "" claims)) w.store.tenants ≡ some t)
      × (ctx ≡ context_of now (claim_or "sub" "" claims) t.id (claim_or "email" "" claims) w.store)

  -- The claims are verified by one of the issuer's keys, for the client of an active configuration of
  -- the issuer, whose tenant is active; the context is of that tenant, with the permissions of its user
  -- there.
  abbrev pub OidcGrant : String → AuthContext → Type 0
  OidcGrant issuer ctx =
      (x : OidcConfig) × (keys : List String) × (k : String) × (claims : Claims) × IsServing
        w.store.tenants issuer x
      × IsKeyList j now w.cache issuer keys
      × IsIn k keys
      × (j.decode_key token k x.client_id ≡ claims_of claims)
      × (ctx.tenant_id ≡ x.tenant_id)
      × (ctx.email ≡ extract_claim claims x.claim_mapping "email" "")
      × (ctx.permissions ≡ (load_user_permissions now ctx.user_id x.tenant_id w.store.rbac).1)

  -- The issuer is the one that the token names.
  abbrev pub OidcEntry : AuthContext → Type 0
  OidcEntry ctx =
      (named : Claims) × (j.unverified token ≡ some named) × OidcGrant (claim_or "iss" "" named) ctx

  abbrev pub Sound : World × Admission → Type 0
  Sound (after, denied code detail) = Unit
  Sound (after, admitted ctx) = LocalGrant ctx ⊎ OidcEntry ctx

  commit-Sound : (r : World × Admission) → Sound r → Sound (commit w r)
  commit-Sound (after, denied code detail) h = _
  commit-Sound (after, admitted ctx) h = h

  on_local_tenant-Sound :
      (claims : Claims) (o : Option Tenant)
      → str_eq secret "" ≡ false
      → j.decode_secret token secret ≡ some claims
      → find (λ t. str_eq t.id (claim_or "tenant_id" "" claims)) w.store.tenants ≡ o
      → Sound (on_local_tenant j secret now claims w o)
  on_local_tenant-Sound claims none s d f = _
  on_local_tenant-Sound claims (some t) s d f = inl (claims, t, s, d, f, refl)

  on_local_claims-Sound :
      (o : Option Claims)
      → str_eq secret "" ≡ false
      → j.decode_secret token secret ≡ o
      → Sound (on_local_claims j secret now w o)
  on_local_claims-Sound none s d = _
  on_local_claims-Sound (some claims) s d = on_local_tenant-Sound claims _ s d refl

  local-Sound :
      (b : Bool)
      → str_eq secret "" ≡ b
      → Sound (
          if b
          then (w, denied 401 "JWT not configured")
          else on_local_claims j secret now w (j.decode_secret token secret))
  local-Sound true e = _
  local-Sound false e = on_local_claims-Sound (j.decode_secret token secret) e refl

  module _ (named : Claims) (names : j.unverified token ≡ some named) where
    abbrev issuer : String
    issuer = claim_or "iss" "" named

    module _ (x : OidcConfig) (found : IsServing w.store.tenants issuer x) (keys : List String)
        (of_issuer : IsKeyList j now w.cache issuer keys) (cache : Cache) where
      abbrev cached : World
      cached = record w { cache = cache }

      enter_as-Sound :
          (k : String) (claims : Claims) (name external_id : String) (o : Rows _)
          → IsIn k keys
          → j.decode_key token k x.client_id ≡ claims_of claims
          → Sound (
              enter_as j secret now configs fresh x
                (extract_claim claims x.claim_mapping "email" "")
                name
                external_id
                cached
                o)
      enter_as-Sound k claims name external_id no_row m d =
          inr (named, names, (x, keys, k, claims, found, of_issuer, m, d, refl, refl, refl))
      enter_as-Sound k claims name external_id (one_row u) m d =
          inr (named, names, (x, keys, k, claims, found, of_issuer, m, d, refl, refl, refl))
      enter_as-Sound k claims name external_id many_rows m d = _

      on_email-Sound :
          (k : String) (claims : Claims) (name external_id : String) (o : Rows _) (b : Bool)
          → IsIn k keys
          → j.decode_key token k x.client_id ≡ claims_of claims
          → Sound (
              if b
              then (cached, denied 401 "Email claim missing")
              else enter_as j secret now configs fresh x
                  (extract_claim claims x.claim_mapping "email" "")
                  name
                  external_id
                  cached
                  o)
      on_email-Sound k claims name external_id o true m d = _
      on_email-Sound k claims name external_id o false m d =
          enter_as-Sound k claims name external_id o m d

      on_claims-Sound :
          (o : Option (Option Claims))
          → try_keys j token x.client_id keys ≡ o
          → Sound (on_claims j secret now configs fresh x cached o)
      on_claims-Sound none e = _
      on_claims-Sound (some none) e = _
      on_claims-Sound (some (some claims)) e =
          let (k, m, d) = try_keys-decoded j token x.client_id keys claims e in
          on_email-Sound k claims _ _ _
            (str_eq (extract_claim claims x.claim_mapping "email" "") "") m d

    on_keys-Sound :
        (x : OidcConfig) (r : Cache × Option (List String))
        → IsServing w.store.tenants issuer x
        → ((keys : List String) → r.1 ≡ some keys → IsKeyList j now w.cache issuer keys)
        → Sound (on_keys j secret now configs fresh token x w r)
    on_keys-Sound x (cache, none) f of_issuer = _
    on_keys-Sound x (cache, some keys) f of_issuer =
        on_claims-Sound x f keys (of_issuer keys refl) cache _ refl

    on_config-Sound :
        (o : Option OidcConfig)
        → find (serves issuer w.store.tenants) configs ≡ o
        → Sound (on_config j secret now configs fresh token w o)
    on_config-Sound none f = _
    on_config-Sound (some x) f =
        let serving = find-IsServing w.store.tenants issuer configs x f in
        on_keys-Sound x _ serving (λ keys e.
          subst (λ i. IsKeyList j now w.cache i keys) serving.0
            (get_jwks-IsKeyList j now x.issuer_url w.cache keys e))

    oidc-Sound :
        (b : Bool)
        → Sound (
            if b
            then (w, denied 401 "Missing issuer claim")
            else on_config j secret now configs fresh token w
                (find (serves issuer w.store.tenants) configs))
    oidc-Sound true = _
    oidc-Sound false = on_config-Sound _ refl

    on_kind-Sound :
        (b : Bool)
        → Sound (
            if b
            then local_token j secret now token w
            else oidc_token j secret now configs fresh token issuer w)
    on_kind-Sound true = local-Sound (str_eq secret "") refl
    on_kind-Sound false = oidc-Sound (str_eq issuer "")

  on_unverified-Sound :
      (app_url : String) (o : Option Claims)
      → j.unverified token ≡ o
      → Sound (on_unverified j secret now configs fresh app_url token w o)
  on_unverified-Sound app_url none e = _
  on_unverified-Sound app_url (some claims) e = on_kind-Sound claims e (is_local app_url claims)

-- A token is admitted only when its claims are verified: by the server's secret, which is not empty,
-- and then they name a tenant that exists; or by a key of the issuer that the token names, which the
-- issuer's address answers now or answered less than an hour ago, for the client of an active
-- configuration of that issuer whose tenant is active. The context is of that tenant, and its
-- permissions are those that its user has there.
pub get_auth_context-Sound :
    (j : Jose) (secret : String) (now : ℕ) (configs : List OidcConfig)
    (fresh app_url token : String) (w : World)
    → Sound j secret now configs fresh token w
        (get_auth_context j secret now configs fresh app_url (some token) w)
unfolding get_auth_context
get_auth_context-Sound j secret now configs fresh app_url token w =
    commit-Sound j secret now configs fresh token w _
      (on_unverified-Sound j secret now configs fresh token w app_url (j.unverified token) refl)
