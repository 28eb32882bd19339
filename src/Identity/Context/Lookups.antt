-- ===== src/Identity/Context/Lookups.antt =====
-- What the two lookups of an OIDC token find: a key, and a configuration.
use dgraphai.Prelude.Members.{IsIn}
use dgraphai.Prelude.Dict.{lookup}
use dgraphai.Identity.Keys.{Cache, CachedKeys, get_jwks, on_cached, on_fetched}
use dgraphai.Prelude.{if◌then◌else◌, none, refl, ltb, ltb→lt, ℕ, ◌<◌, ◌-◌}
use dgraphai.Identity.Context.{get_jwks, Cache, ℕ, serves}
use dgraphai.Identity.Keys.{
  on_fetched, CachedKeys, Claims, Decoded, Jose, OidcConfig, claims_of, jwt_error, on_decoded,
  other_error, try_keys,
}
use dgraphai.Prelude.{
  Bool-cases, List, Option, String, [], any, arith, eq_iff, find, inl, inr, some, str_eq, subst,
  sym, true, ◌&&◌, ◌∷◌, ◌≡◌, ◌⊎◌,
}
use dgraphai.Tenancy.Model.{Tenant}

on_decoded-decoded :
    (claims : Claims) (d : Decoded) (rest : Option (Option Claims))
    → on_decoded d rest ≡ some (some claims)
    → (d ≡ claims_of claims) ⊎ (rest ≡ some (some claims))
on_decoded-decoded claims (claims_of c) rest e = inl (ground (arith, e))
on_decoded-decoded claims jwt_error rest e = inr e
on_decoded-decoded claims other_error rest e = absurd cc

pub try_keys-decoded :
    (j : Jose) (token client_id : String) (ks : List String) (claims : Claims)
    → try_keys j token client_id ks ≡ some (some claims)
    → (k : String) × IsIn k ks × (j.decode_key token k client_id ≡ claims_of claims)
try_keys-decoded j token client_id [] claims e = absurd cc
try_keys-decoded j token client_id (k ∷ ks) claims e =
    elim (on_decoded-decoded claims (j.decode_key token k client_id) _ e) [
      | inl d ↦ (k, inl refl, d)
      | inr f ↦
          let (found, m, d) = try_keys-decoded j token client_id ks claims f in (found, inr m, d)
    ]

-- The keys are the issuer's: those that its address answers now, or those that the cache has for it
-- from a request less than an hour ago.
abbrev pub IsKeyList : Jose → ℕ → Cache → String → List String → Type 0
IsKeyList j now cache issuer keys =
    (j.fetch issuer ≡ some keys)
    ⊎ ((x : CachedKeys) × (lookup issuer cache ≡ some x)
        × (now - x.fetched_at < 3600)
        × (x.keys ≡ keys))

module _ (j : Jose) (now : ℕ) (issuer : String) (cache : Cache) (keys : List String) where
  on_fetched-some :
      (o : Option (List String)) → (on_fetched j now issuer cache o).1 ≡ some keys → o ≡ some keys
  on_fetched-some none e = absurd cc
  on_fetched-some (some ks) e = e

  on_cached-IsKeyList :
      (o : Option CachedKeys)
      → lookup issuer cache ≡ o
      → (on_cached j now issuer cache o).1 ≡ some keys
      → IsKeyList j now cache issuer keys
  on_cached-IsKeyList none found e = inl (on_fetched-some (j.fetch issuer) e)
  on_cached-IsKeyList (some x) found e = elim (Bool-cases (ltb (now - x.fetched_at) 3600)) [
    | inl young ↦ inr (x, found, ltb→lt (now - x.fetched_at) 3600 young, ground (arith, e, young))
    | inr old ↦ inl (
        on_fetched-some (j.fetch issuer) (
          subst
            (λ b.
              (if b then (cache, some x.keys) else on_fetched j now issuer cache (j.fetch issuer)).1
              ≡ some keys)
            old e))
  ]

  pub get_jwks-IsKeyList :
      (get_jwks j now issuer cache).1 ≡ some keys → IsKeyList j now cache issuer keys
  unfolding get_jwks
  get_jwks-IsKeyList e = on_cached-IsKeyList (lookup issuer cache) refl e

module _ (tenants : List Tenant) where
  -- An active configuration of the issuer, whose tenant is active.
  abbrev pub IsServing : String → OidcConfig → Type 0
  IsServing issuer x =
      (x.issuer_url ≡ issuer)
      × (x.is_active ≡ true)
      × (any (λ (t : Tenant). str_eq t.id x.tenant_id && t.is_active) tenants ≡ true)

  serves-IsServing :
      (issuer : String) (x : OidcConfig) → serves issuer tenants x ≡ true → IsServing issuer x
  serves-IsServing issuer x e =
      (ground (arith, eq_iff x.issuer_url issuer), ground arith, ground arith)

  pub find-IsServing :
      (issuer : String) (xs : List OidcConfig) (x : OidcConfig)
      → find (serves issuer tenants) xs ≡ some x
      → IsServing issuer x
  find-IsServing issuer [] x e = absurd cc
  find-IsServing issuer (y ∷ ys) x e = elim (Bool-cases (serves issuer tenants y)) [
    | inl hit ↦
        let same : x ≡ y = ground arith in
        subst (IsServing issuer) (sym same) (serves-IsServing issuer y hit)
    | inr other ↦ find-IsServing issuer ys x (ground arith)
  ]
