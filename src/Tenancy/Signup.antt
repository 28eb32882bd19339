-- ===== src/Tenancy/Signup.antt =====
-- `signup` with `_slugify` and `_unique_slug`. What is generated, identifiers and tokens, is an
-- argument. Mails are left out: a mail that fails is passed over.
pub mod FirstLogin
use dgraphai.Auth.Model.{hash, User, ok}
use dgraphai.Auth.Passwords.{validate_password}
use dgraphai.Rbac.Assign.{Rows, assign_builtin_role, many_rows, no_row, one_or_none, one_row}
use dgraphai.Prelude.{
  Bool, List, Option, String, [], any, false, if◌then◌else◌, keep, leb, map, none, some, str_eq,
  suc, take, true, zero, ℕ, ◌&&◌, ◌*◌, ◌++◌, ◌+◌, ◌==◌, ◌||◌, ◌∷◌,
}
use dgraphai.Prelude.Chars.{chars}
use dgraphai.Tenancy.Model.{
  Store, Tenant, add_member, multiple_rows, new_credential, new_user, with_roles,
}
use Prim.Native.Char.{Char, code}
use Prim.Native.String.{◌++◌ as append}
use text.Mathlib.TextBridge.{of_list}
use dgraphai.Auth.Model.{get_db, http_exception, Token, Reply, Library, Db as Accounts}

-- `company` is "" for a request without one, which the handler treats alike.
pub record SignupRequest : Type 0 where
  pub email : String
  pub password : String
  pub name : String
  pub company : String
  pub plan : String

-- `[a-z0-9-]`
abbrev is_slug_char : Char → Bool
is_slug_char x =
    let n = code x in (leb b'a' n && leb n b'z') || (leb b'0' n && leb n b'9') || n == b'-'

abbrev is_dash : Char → Bool
is_dash x = code x == b'-'

abbrev strip_front : List Char → List Char
strip_front [] = []
strip_front (x ∷ xs) = let rest = strip_front xs in if is_dash x then rest else x ∷ xs

abbrev reversed : List Char → List Char → List Char
reversed acc [] = acc
reversed acc (x ∷ xs) = reversed (x ∷ acc) xs

-- `strip('-')`
abbrev strip_dashes : List Char → List Char
strip_dashes xs = reversed [] (strip_front (reversed [] (strip_front xs)))

abbrev pub lower_all : Library → List Char → List Char
lower_all c [] = []
lower_all c (x ∷ xs) = c.lower x ++ lower_all c xs

-- the dash that replaces a character
abbrev dash : Char
dash = "-"

unfoldable pub slugify : Library → String → String
slugify c s =
    of_list (
      strip_dashes
        (take 32 (map (λ x. if is_slug_char x then x else dash) (lower_all c (chars s)))))

abbrev pub is_taken : String → List Tenant → Bool
is_taken slug tenants = any (λ t. str_eq t.slug slug) tenants

-- the number `i` after a base
abbrev pub numbered : (ℕ → String) → String → ℕ → String
numbered str base i = append base (append "-" (str i))

-- the loop with the rounds that are left, the number of the round, and the slug to try
abbrev pub try_slugs : (ℕ → String) → String → String → List Tenant → ℕ → ℕ → String → String
try_slugs str base random tenants zero i slug = append base (append "-" random)
try_slugs str base random tenants (suc rounds) i slug =
    let next = try_slugs str base random tenants rounds (suc i) (numbered str base i) in
    if is_taken slug tenants then next else slug

-- `range(1, 100)`
unfoldable pub unique_slug : (ℕ → String) → String → String → List Tenant → String
unique_slug str slug random tenants = try_slugs str slug random tenants 99 1 slug

-- the text before the first "@"
abbrev before_at : List Char → List Char
before_at [] = []
before_at (x ∷ xs) = let rest = before_at xs in if code x == b'@' then [] else x ∷ rest

-- `a or b`
abbrev pub or_else : String → String → String
or_else a b = if str_eq a "" then b else a

-- What a sign-up generates.
pub record Generated : Type 0 where
  pub tenant_id : String
  pub user_id : String
  pub role_id : String
  pub token : String
  pub random : String

module _ (c : Library) (str : ℕ → String) (g : Generated) (now : ℕ) where
  abbrev pub new_tenant : SignupRequest → List Tenant → Tenant
  new_tenant req tenants = record {
    id = g.tenant_id;
    slug =
        unique_slug str (slugify c (or_else req.company (of_list (before_at (chars req.email)))))
          g.random tenants;
    name = or_else req.company req.name;
    plan = req.plan;
    is_active = true;
  }

  abbrev pub verification : Token
  verification = record {
    user_id = g.user_id;
    token_hash = c.hash_token g.token;
    expires_at = now + 48 * 3600;
    used_at = none;
  }

  -- the accounts with the new user, credential and token
  abbrev pub signed_up : SignupRequest → Accounts → Accounts
  signed_up req d =
      record (add_member (new_user g.user_id g.tenant_id req.email (some req.name) false)
        (new_credential g.user_id (hash c req.password)) d) {
          verifications = d.verifications ++ verification ∷ [];
        }

  abbrev pub enter : SignupRequest → Store → Store × Reply
  enter req s =
      with_roles
        (record s {
          accounts = signed_up req s.accounts;
          tenants = s.tenants ++ new_tenant req s.tenants ∷ [];
        })
        (assign_builtin_role g.role_id g.user_id g.tenant_id "admin" s.rbac) (ok g.user_id)

  abbrev pub on_existing : SignupRequest → Store → Rows User → Store × Reply
  on_existing req s no_row = enter req s
  on_existing req s (one_row u) =
      (s, http_exception 409 "An account with this email already exists")
  on_existing req s many_rows = multiple_rows s

  abbrev pub on_password : SignupRequest → Store → Option String → Store × Reply
  on_password req s (some detail) = (s, http_exception 422 detail)
  on_password req s none =
      on_existing req s (one_or_none (keep (λ u. str_eq u.email req.email) s.accounts.users))

  unfoldable pub signup : SignupRequest → Store → Store × Reply
  signup req s = get_db s (on_password req s (validate_password c req.password))
