-- ===== src/Identity/Keys.antt =====
-- The keys of an issuer, cached, and the check of a token against them.
use dgraphai.Prelude.{Bool, List, Option, String, [], if◌then◌else◌, ltb, none, some, ℕ, ◌-◌, ◌∷◌}
use dgraphai.Prelude.Dict.{insert, lookup}

-- The claims of a token. Their values are texts, as `str` makes them.
abbrev pub Claims : Type 0
Claims = List (String × String)

-- The outcome of one key: the claims, a `JWTError`, or another exception.
pub data Decoded : Type 0 where
  claims_of : Claims → Decoded
  jwt_error : Decoded
  other_error : Decoded

-- python-jose: claims that are not verified, those that a secret or a key of an audience verifies;
-- and the request for the keys of an issuer, which may fail.
pub record Jose : Type 0 where
  pub unverified : String → Option Claims
  pub decode_secret : String → String → Option Claims
  pub decode_key : String → String → String → Decoded
  pub fetch : String → Option (List String)

pub record CachedKeys : Type 0 where
  pub keys : List String
  pub fetched_at : ℕ

abbrev pub jwks_ttl : ℕ
jwks_ttl = 3600

abbrev pub Cache : Type 0
Cache = List (String × CachedKeys)

pub record OidcConfig : Type 0 where
  pub tenant_id : String
  pub provider_name : String
  pub issuer_url : String
  pub client_id : String
  pub claim_mapping : List (String × String)
  pub is_active : Bool

module _ (j : Jose) (now : ℕ) where
  abbrev pub on_fetched : String → Cache → Option (List String) → Cache × Option (List String)
  on_fetched issuer cache none = (cache, none)
  on_fetched issuer cache (some keys) =
      (insert issuer (record { keys = keys; fetched_at = now }) cache, some keys)

  -- `cached and time.time() - cached["fetched_at"] < _JWKS_TTL`
  abbrev pub on_cached : String → Cache → Option CachedKeys → Cache × Option (List String)
  on_cached issuer cache none = on_fetched issuer cache (j.fetch issuer)
  on_cached issuer cache (some x) =
      if ltb (now - x.fetched_at) jwks_ttl
      then (cache, some x.keys)
      else on_fetched issuer cache (j.fetch issuer)

  unfoldable pub get_jwks : String → Cache → Cache × Option (List String)
  get_jwks issuer cache = on_cached issuer cache (lookup issuer cache)

-- The outcome of the loop over the keys: `none` for an exception that it does not catch, and
-- `some none` when no key verifies the token.
abbrev pub on_decoded : Decoded → Option (Option Claims) → Option (Option Claims)
on_decoded (claims_of c) rest = some (some c)
on_decoded jwt_error rest = rest
on_decoded other_error rest = none

abbrev pub try_keys : Jose → String → String → List String → Option (Option Claims)
try_keys j token client_id [] = some none
try_keys j token client_id (k ∷ ks) =
    on_decoded (j.decode_key token k client_id) (try_keys j token client_id ks)

-- `claims.get(k, default)`
abbrev pub claim_or : String → String → Claims → String
claim_or k default claims = elim (lookup k claims) [ none ↦ default | some v ↦ v ]

unfoldable pub extract_claim : Claims → List (String × String) → String → String → String
extract_claim claims mapping field default =
    claim_or (elim (lookup field mapping) [ none ↦ field | some k ↦ k ]) default claims
