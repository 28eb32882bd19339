-- ===== src/Tenancy/Scim/Patch.antt =====
-- The handler of partial updates, its loop over the operations of a request.
use dgraphai.Prelude.{
  Bool, List, Option, String, [], false, find, if◌then◌else◌, none, some, starts_with, str_eq, true,
  update_where, ℕ, ◌&&◌, ◌||◌, ◌∷◌,
}
use dgraphai.Tenancy.Model.{Store, Tenant}
use dgraphai.Tenancy.Scim.{scim_user}
use dgraphai.Tenancy.Scim.Users.{is_true_or_absent, update_user}
use dgraphai.Prelude.{◌>>=◌}
use dgraphai.Auth.Model.{http_exception, ApiKey, Reply, User, ok}
use dgraphai.Auth.Account.{revoke_sessions, unset}

-- The value of an operation: a truth value, a text, an object with its "active", or none.
pub data OpValue : Type 0 where
  boolean : Bool → OpValue
  string : String → OpValue
  object : Option Bool → OpValue
  null : OpValue

pub record UserOp : Type 0 where
  pub path : String
  pub value : OpValue

abbrev has_active : OpValue → Bool
has_active (boolean b) = false
has_active (string t) = false
has_active (object none) = false
has_active (object (some b)) = true
has_active null = false

-- `path == "active" or (not path and isinstance(value, dict) and "active" in value)`
abbrev pub sets_active : UserOp → Bool
sets_active op = str_eq op.path "active" || (str_eq op.path "" && has_active op.value)

-- `value if isinstance(value, bool) else (value or {}).get("active", True)`; a text that is not empty
-- has no `get`
abbrev pub active_value : OpValue → Option Bool
active_value (boolean b) = some b
active_value (string t) = if str_eq t "" then some true else none
active_value (object a) = some (is_true_or_absent a)
active_value null = some true

-- `APIKey.user_id == id` and `revoked_at == None`
abbrev pub unrevoked_key : String → ApiKey → Bool
unrevoked_key id k = str_eq k.user_id id && unset k.revoked_at

abbrev pub revoke_keys : ℕ → String → List ApiKey → List ApiKey
revoke_keys now id ks = update_where (unrevoked_key id) (λ k. record k { revoked_at = some now }) ks

abbrev pub revoke_all : ℕ → String → Store → Store
revoke_all now id s = record s {
  accounts = record s.accounts {
    sessions = revoke_sessions now id s.accounts.sessions;
    api_keys = revoke_keys now id s.accounts.api_keys;
  };
}

module _ (str : OpValue → String) (now : ℕ) (user_id tenant_id : String) where
  abbrev pub set_active : Store → Option Bool → Option Store
  set_active s none = none
  set_active s (some true) =
      some (update_user user_id tenant_id (λ u. record u { is_active = true }) s)
  set_active s (some false) = some (
      revoke_all now user_id
        (update_user user_id tenant_id (λ u. record u { is_active = false }) s))

  -- one round of the loop; `none` is an `AttributeError`
  abbrev pub apply_op : UserOp → Store → Option Store
  apply_op op s =
      if sets_active op
      then set_active s (active_value op.value)
      else if str_eq op.path "userName" || str_eq op.path "emails[type eq \"work\"].value"
      then some (update_user user_id tenant_id (λ u. record u { email = str op.value }) s)
      else if starts_with op.path "name"
      then some
          (update_user user_id tenant_id (λ u. record u { display_name = some (str op.value) }) s)
      else some s

  abbrev pub apply_ops : List UserOp → Store → Option Store
  apply_ops [] s = some s
  apply_ops (op ∷ ops) s = do next ← apply_op op s; apply_ops ops next

  abbrev pub on_patched : Store → Option Store → Store × Reply
  on_patched s none = (s, http_exception 500 "'str' object has no attribute 'get'")
  on_patched s (some after) = (after, ok user_id)

abbrev pub on_found :
    (OpValue → String) → ℕ → String → List UserOp → Tenant → Store → Option User → Store × Reply
on_found str now user_id ops tenant s none = (s, http_exception 404 "User not found")
on_found str now user_id ops tenant s (some u) =
    on_patched str now user_id tenant.id s (apply_ops str now user_id tenant.id ops s)

-- `str(value)` is an argument
unfoldable pub patch_scim_user :
    (OpValue → String) → ℕ → String → List UserOp → Tenant → Store → Store × Reply
patch_scim_user str now user_id ops tenant s =
    on_found str now user_id ops tenant s (find (scim_user user_id tenant.id) s.accounts.users)
