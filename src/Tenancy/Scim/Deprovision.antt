-- ===== src/Tenancy/Scim/Deprovision.antt =====
-- What a deprovisioned user keeps.
use dgraphai.Prelude.{◌>>=◌, Bool-cases, if◌then◌else◌, starts_with, ◌||◌}
use dgraphai.Tenancy.Model.{Tenant}
use dgraphai.Tenancy.Scim.Patch.{on_found, on_patched, patch_scim_user}
use dgraphai.Prelude.{inl, inr, subst}
use dgraphai.Prelude.{
  Bool, List, Option, String, [], any, arith, false, keep, none, not, refl, some, str_eq, true, ℕ,
  ◌&&◌, ◌∷◌, ◌≡◌, ◌⊎◌,
}
use dgraphai.Tenancy.Model.{Store}
use dgraphai.Tenancy.Scim.Patch.{
  OpValue, UserOp, active_value, apply_op, apply_ops, revoke_all, revoke_keys, set_active,
  sets_active,
}
use dgraphai.Tenancy.Scim.Users.{update_user}
use dgraphai.Auth.Model.{ApiKey, User}
use dgraphai.Auth.Account.{list_sessions, list_api_keys, unset}
use dgraphai.Auth.Account.Revocation.{update-unrevoked}
use dgraphai.Auth.Login.Access.{IsOk}

update-unrevoked_key :
    (now : ℕ) (id : String) (ks : List ApiKey)
    → keep (λ k. str_eq k.user_id id && unset k.revoked_at) (revoke_keys now id ks) ≡ []
update-unrevoked_key now id [] = refl
update-unrevoked_key now id (k ∷ ks) = ground (arith, update-unrevoked_key now id ks)

-- No session of the user is listed, at any time, and no API key.
abbrev pub IsSignedOut : String → Store → Type 0
IsSignedOut id s =
    ((later : ℕ) → list_sessions later id s.accounts ≡ []) × (list_api_keys id s.accounts ≡ [])

revoke_all-IsSignedOut : (now : ℕ) (id : String) (s : Store) → IsSignedOut id (revoke_all now id s)
unfolding list_sessions list_api_keys
revoke_all-IsSignedOut now id s = (
  λ later. update-unrevoked now later id s.accounts.sessions,
  update-unrevoked_key now id s.accounts.api_keys,
)

update_user-IsSignedOut :
    (id tenant_id : String) (f : User → User) (s : Store)
    → IsSignedOut id s
    → IsSignedOut id (update_user id tenant_id f s)
unfolding list_sessions list_api_keys
update_user-IsSignedOut id tenant_id f s h = h

pub same_store : {a b : Store} → some a ≡ some b → a ≡ b
same_store e = cc

abbrev pub switches_off : Option Bool → Bool
switches_off none = false
switches_off (some b) = not b

-- An operation that sets "active" to false.
abbrev pub deactivates : UserOp → Bool
deactivates op = sets_active op && switches_off (active_value op.value)

module _ (str : OpValue → String) (now : ℕ) (id tenant_id : String) where
  set_active-IsSignedOut :
      (a : Option Bool) (s after : Store)
      → set_active str now id tenant_id s a ≡ some after
      → (IsSignedOut id s) ⊎ (a ≡ some false)
      → IsSignedOut id after
  set_active-IsSignedOut none s after e h = absurd cc
  set_active-IsSignedOut (some true) s after e (inl h) =
      subst (IsSignedOut id) (same_store e)
        (update_user-IsSignedOut id tenant_id (λ u. record u { is_active = true }) s h)
  set_active-IsSignedOut (some true) s after e (inr h) = absurd cc
  set_active-IsSignedOut (some false) s after e h = subst (IsSignedOut id) (same_store e) (
      revoke_all-IsSignedOut now id
        (update_user id tenant_id (λ u. record u { is_active = false }) s))

  on_op-IsSignedOut :
      (op : UserOp) (active email name : Bool) (s after : Store)
      → (if active
          then set_active str now id tenant_id s (active_value op.value)
          else if email
          then some (update_user id tenant_id (λ u. record u { email = str op.value }) s)
          else if name
          then some
              (update_user id tenant_id (λ u. record u { display_name = some (str op.value) }) s)
          else some s)
        ≡ some after
      → (IsSignedOut id s) ⊎ ((active && switches_off (active_value op.value)) ≡ true)
      → IsSignedOut id after
  on_op-IsSignedOut op true email name s after e (inl h) =
      set_active-IsSignedOut (active_value op.value) s after e (inl h)
  on_op-IsSignedOut op true email name s after e (inr h) =
      set_active-IsSignedOut (active_value op.value) s after e (inr (ground arith))
  on_op-IsSignedOut op false email name s after e (inr h) = absurd cc
  on_op-IsSignedOut op false true name s after e (inl h) =
      subst (IsSignedOut id) (same_store e)
        (update_user-IsSignedOut id tenant_id (λ u. record u { email = str op.value }) s h)
  on_op-IsSignedOut op false false true s after e (inl h) = subst (IsSignedOut id) (same_store e) (
      update_user-IsSignedOut id tenant_id (λ u. record u { display_name = some (str op.value) }) s
        h)
  on_op-IsSignedOut op false false false s after e (inl h) = subst (IsSignedOut id) (same_store e) h

  apply_op-IsSignedOut :
      (op : UserOp) (s after : Store)
      → apply_op str now id tenant_id op s ≡ some after
      → (IsSignedOut id s) ⊎ (deactivates op ≡ true)
      → IsSignedOut id after
  apply_op-IsSignedOut op s after e h =
      on_op-IsSignedOut op (sets_active op)
        (str_eq op.path "userName" || str_eq op.path "emails[type eq \"work\"].value")
        (starts_with op.path "name") s after e h

  -- With the store after the first operation; what is asked of the rest is an argument.
  next-IsSignedOut :
      (op : UserOp) (ops : List UserOp) (s after : Store) (o : Option Store)
      → apply_op str now id tenant_id op s ≡ o
      → (o >>= apply_ops str now id tenant_id ops) ≡ some after
      → ((next : Store)
          → apply_ops str now id tenant_id ops next ≡ some after
          → (IsSignedOut id next) ⊎ (any deactivates ops ≡ true)
          → IsSignedOut id after)
      → (IsSignedOut id s) ⊎ ((deactivates op || any deactivates ops) ≡ true)
      → IsSignedOut id after
  next-IsSignedOut op ops s after none f e rest h = absurd cc
  next-IsSignedOut op ops s after (some next) f e rest (inl h) =
      rest next e (inl (apply_op-IsSignedOut op s next f (inl h)))
  next-IsSignedOut op ops s after (some next) f e rest (inr h) =
      elim (Bool-cases (deactivates op)) [
        | inl off ↦ rest next e (inl (apply_op-IsSignedOut op s next f (inr off)))
        | inr on ↦ rest next e (inr (ground arith))
      ]

  apply_ops-IsSignedOut :
      (ops : List UserOp) (s after : Store)
      → apply_ops str now id tenant_id ops s ≡ some after
      → (IsSignedOut id s) ⊎ (any deactivates ops ≡ true)
      → IsSignedOut id after
  apply_ops-IsSignedOut [] s after e (inl h) = subst (IsSignedOut id) (same_store e) h
  apply_ops-IsSignedOut [] s after e (inr h) = absurd cc
  apply_ops-IsSignedOut (op ∷ ops) s after e h =
      next-IsSignedOut op ops s after (apply_op str now id tenant_id op s) refl e
        (λ next. apply_ops-IsSignedOut ops next after) h

  on_patched-IsSignedOut :
      (ops : List UserOp) (s : Store) (o : Option Store)
      → apply_ops str now id tenant_id ops s ≡ o
      → any deactivates ops ≡ true
      → IsOk (on_patched str now id tenant_id s o).1
      → IsSignedOut id (on_patched str now id tenant_id s o).0
  on_patched-IsSignedOut ops s none e h k = elim k [ ]
  on_patched-IsSignedOut ops s (some after) e h k = apply_ops-IsSignedOut ops s after e (inr h)

on_found-IsSignedOut :
    (str : OpValue → String) (now : ℕ) (id : String) (ops : List UserOp) (tenant : Tenant)
    (s : Store) (o : Option User)
    → any deactivates ops ≡ true
    → IsOk (on_found str now id ops tenant s o).1
    → IsSignedOut id (on_found str now id ops tenant s o).0
on_found-IsSignedOut str now id ops tenant s none h k = elim k [ ]
on_found-IsSignedOut str now id ops tenant s (some u) h k =
    on_patched-IsSignedOut str now id tenant.id ops s _ refl h k

-- When a patch that is answered, not refused, has an operation that sets "active" to false, at
-- whatever place among the others: no session of the user is listed, at any time, and no API key.
pub deprovisioned :
    (str : OpValue → String) (now : ℕ) (user_id : String) (ops : List UserOp) (tenant : Tenant)
    (s : Store)
    → any deactivates ops ≡ true
    → IsOk (patch_scim_user str now user_id ops tenant s).1
    → IsSignedOut user_id (patch_scim_user str now user_id ops tenant s).0
unfolding patch_scim_user
deprovisioned str now user_id ops tenant s h k =
    on_found-IsSignedOut str now user_id ops tenant s _ h k
