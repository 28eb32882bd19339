-- ===== src/Auth/Mails/Resets.antt =====
-- From a forgotten password to a new one, and what the deletion of expired rows cannot change.
use dgraphai.Auth.Account.{reset_password, unused}
use dgraphai.Auth.Account.Revocation.{IsReset, reset_state-IsReset}
use dgraphai.Auth.Mails.{forgot_password, new_token}
use dgraphai.Auth.Model.{Db, Library, Token, User, ok}
use dgraphai.Auth.Passwords.{validate_password}
use dgraphai.Prelude.{
  All, List, String, [], arith, eq_iff, false, find, keep, ltb, none, refl, some, str_eq, ℕ, ◌++◌,
  ◌+◌, ◌∷◌, ◌≡◌, ◌≢◌, ◌≤◌,
}

find_token :
    (h : String) (t : Token) (ts : List Token)
    → t.token_hash ≡ h
    → t.used_at ≡ none
    → All (λ x. x.token_hash ≢ h) ts
    → find (unused h) (ts ++ t ∷ []) ≡ some t
find_token h t [] e u new = ground (arith, eq_iff t.token_hash h)
find_token h t (x ∷ xs) e u new = ground (arith, eq_iff x.token_hash h, find_token h t xs e u new.1)

late_not : (now t : ℕ) → now ≤ t → ltb t now ≡ false
late_not now t h = ground arith

-- The one user with an email asks for a reset, and within an hour the token that was mailed, which no
-- older token has the hash of, is used with a valid password: the reset is answered, and it is of that
-- user: the token is spent, no session is listed, and the credential has the hash of the password.
pub forgot_password-reset_password :
    (c : Library) (token : String) (now : ℕ) (email : String) (d : Db) (u : User) (later : ℕ)
    (password : String)
    → keep (λ x. str_eq x.email email) d.users ≡ u ∷ []
    → All (λ t. t.token_hash ≢ c.hash_token token) d.resets
    → later ≤ now + 3600
    → validate_password c password ≡ none
    → let after = reset_password c later token password (forgot_password c token now email d).0 in
      (after.1 ≡ ok "Password reset successfully. Please log in again.")
      × IsReset c token password u.id after.0
unfolding forgot_password reset_password
forgot_password-reset_password c token now email d u later password one new time valid =
    let t = new_token c token (now + 3600) u.id in
    let d1 : Db = record d { resets = d.resets ++ t ∷ [] } in
    rw
      (
        one,
        find_token (c.hash_token token) t d.resets refl refl new,
        late_not later (now + 3600) time,
        valid,
      )
      (refl, reset_state-IsReset c later token password d1 t refl)
