-- ===== src/Tenancy/Scim/Filter.antt =====
-- The filter of the list of users.
use dgraphai.Prelude.{
  All, All-append, List, String, [], any, arith, false, refl, true, ℕ, ◌==◌, ◌∷◌, ◌≡◌, ◌≢◌,
}
use dgraphai.Tenancy.Scim.Users.{filter_users, has_part, is_prefix, list_scim_users, user_name_eq}
use dgraphai.Tenancy.Signup.{lower_all}
use dgraphai.Auth.Model.{Library, User}
use dgraphai.Prelude.Chars.{chars}
use Prim.Native.Char.{Char, code}

abbrev pub NotN : Char → Type 0
NotN x = code x ≢ b'N'

no_prefix :
    (part xs : List Char)
    → any (λ x. code x == b'N') part ≡ true
    → All NotN xs
    → is_prefix part xs ≡ false
no_prefix [] xs e h = ground arith
no_prefix (p ∷ ps) [] e h = refl
no_prefix (p ∷ ps) (x ∷ xs) e h = ground (arith, no_prefix ps xs, h.0, h.1)

no_part : (xs : List Char) → All NotN xs → has_part user_name_eq xs ≡ false
no_part [] h = refl
no_part (x ∷ xs) h = rw (no_prefix user_name_eq (x ∷ xs) refl h, no_part xs h.1) refl

lower_all-NotN :
    (c : Library)
    → ((x : Char) → All NotN (c.lower x))
    → (xs : List Char) → All NotN (lower_all c xs)
lower_all-NotN c law [] = _
lower_all-NotN c law (x ∷ xs) =
    All-append NotN (c.lower x) (lower_all c xs) (law x) (lower_all-NotN c law xs)

-- When no character has "N" in its lower case, a filter changes nothing in the list of users: the page
-- and the total are those without a filter, for each filter.
pub filter_ignored :
    (c : Library)
    → ((x : Char) → All NotN (c.lower x))
    → (tenant_id : String) (start_index count : ℕ) (filter : String) (users : List User)
    → list_scim_users c tenant_id start_index count filter users
      ≡ list_scim_users c tenant_id start_index count "" users
unfolding list_scim_users filter_users
filter_ignored c law tenant_id start_index count filter users =
    let gone = no_part (lower_all c (chars filter)) (lower_all-NotN c law (chars filter)) in
    ground (arith, gone)
