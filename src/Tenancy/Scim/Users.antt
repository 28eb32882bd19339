-- ===== src/Tenancy/Scim/Users.antt =====
-- The handlers of users.
use dgraphai.Prelude.{
  Bool, List, Option, String, [], false, find, if◌then◌else◌, keep, length, none, not, some, str_eq,
  suc, take, true, update_where, zero, ℕ, ◌&&◌, ◌++◌, ◌-◌, ◌==◌, ◌||◌, ◌∷◌,
}
use dgraphai.Tenancy.Model.{Store, Tenant, multiple_rows, with_roles}
use dgraphai.Tenancy.Scim.{ScimBody, extract_email, extract_name, extract_role, scim_user, text_or}
use dgraphai.Tenancy.Signup.{lower_all, or_else}
use dgraphai.Auth.Model.{http_exception, Library, Reply, User, ok}
use dgraphai.Rbac.Assign.{Rows, one_row, no_row, many_rows, one_or_none, assign_builtin_role}
use dgraphai.Prelude.Chars.{chars}
use Prim.Native.Char.{Char, code}
use text.Mathlib.TextBridge.{of_list}

-- whether a text starts with another, and whether it has it as a part
abbrev pub is_prefix : List Char → List Char → Bool
is_prefix [] ys = true
is_prefix (x ∷ xs) [] = false
is_prefix (x ∷ xs) (y ∷ ys) = code x == code y && is_prefix xs ys

abbrev pub has_part : List Char → List Char → Bool
has_part part [] = is_prefix part []
has_part part (x ∷ xs) = is_prefix part (x ∷ xs) || has_part part xs

-- `text.split('"')[1]`, with the segments that are still before it
abbrev pub until_quote : List Char → List Char
until_quote [] = []
until_quote (x ∷ xs) = let rest = until_quote xs in if code x == b'"' then [] else x ∷ rest

abbrev pub after_quote : List Char → Option (List Char)
after_quote [] = none
after_quote (x ∷ xs) = let rest = after_quote xs in if code x == b'"' then some xs else rest

-- The part of a filter that is looked for, and the users that a filter leaves: all of them, those
-- with one email, or an `IndexError`.
abbrev pub user_name_eq : List Char
user_name_eq = chars "userName eq"

abbrev pub by_email : Option (List Char) → List User → Option (List User)
by_email none users = none
by_email (some rest) users = some (keep (λ u. str_eq u.email (of_list (until_quote rest))) users)

unfoldable pub filter_users : Library → String → List User → Option (List User)
filter_users c filter users =
    if not (str_eq filter "") && has_part user_name_eq (lower_all c (chars filter))
    then by_email (after_quote (chars filter)) users
    else some users

abbrev pub from_index {ℓ} : {A : Type ℓ} → ℕ → List A → List A
from_index zero xs = xs
from_index (suc n) [] = []
from_index (suc n) (x ∷ xs) = from_index n xs

-- The users of the page and the number of all, from `startIndex`, which is at least 1.
unfoldable pub list_scim_users :
    Library → String → ℕ → ℕ → String → List User → Option (ℕ × List User)
list_scim_users c tenant_id start_index count filter users =
    elim (filter_users c filter (keep (λ u. str_eq u.tenant_id tenant_id && u.is_active) users)) [
      | none ↦ none
      | some found ↦ some (length found, take count (from_index (start_index - 1) found))
    ]

unfoldable pub get_scim_user : String → String → List User → Option User
get_scim_user user_id tenant_id users = find (scim_user user_id tenant_id) users

abbrev pub is_true_or_absent : Option Bool → Bool
is_true_or_absent none = true
is_true_or_absent (some b) = b

abbrev pub provisioned : Library → (String → String) → String → String → ScimBody → User
provisioned c strip id tenant_id body = record {
  id = id;
  tenant_id = tenant_id;
  email = extract_email body;
  is_active = is_true_or_absent body.active;
  email_verified = true;
  display_name = some (extract_name strip body);
  external_id = some (text_or body.external_id "");
  idp_provider = some "scim";
  role = extract_role c body;
}

abbrev pub add_user : User → Store → Store
add_user u s = record s { accounts = record s.accounts { users = s.accounts.users ++ u ∷ [] } }

abbrev pub on_provisioned : String → User → Store → Rows User → Store × Reply
on_provisioned role_id u s (one_row other) = (s, http_exception 409 "User already exists")
on_provisioned role_id u s many_rows = multiple_rows s
on_provisioned role_id u s no_row =
    with_roles (add_user u s) (assign_builtin_role role_id u.id u.tenant_id u.role s.rbac) (ok u.id)

-- the identifiers of the user and of a new role are generated
unfoldable pub create_scim_user :
    Library → (String → String) → String → String → ScimBody → Tenant → Store → Store × Reply
create_scim_user c strip user_id role_id body tenant s =
    if str_eq (extract_email body) ""
    then (s, http_exception 400 "userName (email) required")
    else on_provisioned role_id (provisioned c strip user_id tenant.id body) s (
        one_or_none (
          keep (λ u. str_eq u.email (extract_email body) && str_eq u.tenant_id tenant.id)
            s.accounts.users))

abbrev pub update_user : String → String → (User → User) → Store → Store
update_user user_id tenant_id f s = record s {
  accounts = record s.accounts {
    users = update_where (scim_user user_id tenant_id) f s.accounts.users;
  };
}

abbrev pub text_or_old : Option String → Option String → Option String
text_or_old none old = old
text_or_old (some t) old = some t

abbrev pub replaced : (String → String) → ScimBody → User → User
replaced strip body u = record u {
  email = or_else (extract_email body) u.email;
  display_name =
      if str_eq (extract_name strip body) ""
      then u.display_name
      else some (extract_name strip body);
  is_active = is_true_or_absent body.active;
  external_id = text_or_old body.external_id u.external_id;
}

unfoldable pub replace_scim_user :
    (String → String) → String → ScimBody → Tenant → Store → Store × Reply
replace_scim_user strip user_id body tenant s =
    elim (find (scim_user user_id tenant.id) s.accounts.users) [
      | none ↦ (s, http_exception 404 "User not found")
      | some u ↦ (update_user user_id tenant.id (replaced strip body) s, ok user_id)
    ]

unfoldable pub delete_scim_user : String → Tenant → Store → Store × Reply
delete_scim_user user_id tenant s =
    (update_user user_id tenant.id (λ u. record u { is_active = false }) s, ok "")
