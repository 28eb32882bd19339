-- ===== src/Tenancy/Scim/Tokens.antt =====
-- The rotation of the token.
use dgraphai.Prelude.{ap, ◌∙◌}
use dgraphai.Prelude.{
  List, String, [], arith, eq_iff, eq_refl, false, find, if◌then◌else◌, keep, none, some, str_eq,
  true, update_where, ℕ, ◌++◌, ◌∷◌, ◌≡◌, ◌≢◌,
}
use dgraphai.Tenancy.Model.{AuthContext, ScimConfig, Store, Tenant}
use dgraphai.Tenancy.Scim.{bearer_hash, create_scim_token, get_scim_tenant, is_config, touch}
use dgraphai.Auth.Model.{http_exception, Library, Reply, get_db}
use dgraphai.Prelude.Dict.{contains}

abbrev switched_off : String → List ScimConfig → List ScimConfig
switched_off tenant_id xs =
    update_where (λ x. str_eq x.tenant_id tenant_id) (λ x. record x { is_active = false }) xs

abbrev issued : String → String → String → ScimConfig
issued tenant_id h user_id = record {
  tenant_id = tenant_id;
  token_hash = h;
  is_active = true;
  last_used_at = none;
  created_by = user_id;
}

configs_new :
    (tenant_id h k user_id : String) (xs : List ScimConfig)
    → keep (is_config tenant_id k) (switched_off tenant_id xs ++ issued tenant_id h user_id ∷ [])
      ≡ (if str_eq h k then issued tenant_id h user_id ∷ [] else [])
configs_new tenant_id h k user_id [] = ground (arith, eq_refl tenant_id)
configs_new tenant_id h k user_id (x ∷ xs) =
    ground (arith, eq_refl tenant_id, configs_new tenant_id h k user_id xs)

configs_other :
    (tenant_id other h k user_id : String) (xs : List ScimConfig)
    → other ≢ tenant_id
    → keep (is_config other k) (switched_off tenant_id xs ++ issued tenant_id h user_id ∷ [])
      ≡ keep (is_config other k) xs
configs_other tenant_id other h k user_id [] d = ground (arith, eq_iff tenant_id other)
configs_other tenant_id other h k user_id (x ∷ xs) d = ground (
  arith,
  eq_iff x.tenant_id other,
  eq_iff x.tenant_id tenant_id,
  configs_other tenant_id other h k user_id xs d,
)

-- The dependency, for a token that one row matches.
reached :
    (c : Library) (now : ℕ) (tenant_id header h : String) (rest : Tenant → Store → Store × Reply)
    (s : Store) (x : ScimConfig) (tenant : Tenant)
    → bearer_hash c header ≡ some h
    → keep (is_config tenant_id h) s.scim_configs ≡ x ∷ []
    → find (λ t. str_eq t.id tenant_id) s.tenants ≡ some tenant
    → tenant.is_active ≡ true
    → get_scim_tenant c now tenant_id header rest s
      ≡ get_db s (rest tenant (touch c now tenant_id h s))
unfolding get_scim_tenant
reached c now tenant_id header h rest s x tenant e k f on =
    rw (e, k, f)
      (ap
        (λ b. get_db s (
          if b
          then rest tenant (touch c now tenant_id h s)
          else (s, http_exception 404 "Tenant not found")))
        on)

-- After an administrator made a new token: a bearer token with another hash is refused for the tenant,
-- whatever the handler and the time, and nothing changes; one with the hash of the new token reaches
-- the handler, when the tenant is active; and for another tenant the rows that match a hash are as
-- before.
pub create_scim_token_lem :
    (c : Library) (now : ℕ) (raw_token : String) (auth : AuthContext) (s : Store)
    → contains "admin:*" auth.permissions ≡ true
    → let after = (create_scim_token c now raw_token auth s).0 in
      ((later : ℕ) (header h : String) (rest : Tenant → Store → Store × Reply)
        → bearer_hash c header ≡ some h
        → h ≢ c.hash_token raw_token
        → get_scim_tenant c later auth.tenant_id header rest after
          ≡ (after, http_exception 401 "Invalid SCIM token"))
      × ((later : ℕ) (header : String) (rest : Tenant → Store → Store × Reply) (tenant : Tenant)
          → bearer_hash c header ≡ some (c.hash_token raw_token)
          → find (λ t. str_eq t.id auth.tenant_id) s.tenants ≡ some tenant
          → tenant.is_active ≡ true
          → get_scim_tenant c later auth.tenant_id header rest after
            ≡ get_db after
                (rest tenant (touch c later auth.tenant_id (c.hash_token raw_token) after)))
      × ((other h : String)
          → other ≢ auth.tenant_id
          → keep (is_config other h) after.scim_configs ≡ keep (is_config other h) s.scim_configs)
unfolding create_scim_token get_scim_tenant
create_scim_token_lem c now raw_token auth s admin =
    let h = c.hash_token raw_token in
    let others = switched_off auth.tenant_id s.scim_configs in
    let after : Store = record s {
      scim_configs = others ++ issued auth.tenant_id h auth.user_id ∷ [];
    } in
    rw admin (
      λ later header k rest e d.
          rw (e, configs_new auth.tenant_id h k auth.user_id s.scim_configs)
            (ground (arith, eq_iff h k)),
      λ later header rest tenant e f on.
          reached c later auth.tenant_id header h rest after (issued auth.tenant_id h auth.user_id)
            tenant e
            (configs_new auth.tenant_id h h auth.user_id s.scim_configs
              ∙ ap (λ b. if b then issued auth.tenant_id h auth.user_id ∷ [] else []) (eq_refl h))
            f on,
      λ other k d. configs_other auth.tenant_id other h k auth.user_id s.scim_configs d,
    )
