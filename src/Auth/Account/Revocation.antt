-- ===== src/Auth/Account/Revocation.antt =====
-- What a password reset ends.
use dgraphai.Auth.Account.{finish_reset, reset_state}
use dgraphai.Auth.Passwords.{validate_password}
use dgraphai.Auth.Account.{
  list_sessions, on_reset, renew, reset_password, revoke_all_sessions, revoke_sessions, unrevoked,
  unused, use_token,
}
use dgraphai.Auth.Login.{is_locked, of_user}
use dgraphai.Auth.Login.Access.{IsOk}
use dgraphai.Auth.Model.{
  hash, Db, Library, LocalCredential, Token, UserSession, get_db, http_exception,
}
use dgraphai.Prelude.{
  List, Option, String, [], arith, eq_iff, false, find, keep, ltb, none, refl, some, ℕ, ◌&&◌, ◌∷◌,
  ◌≡◌,
}

-- no session of the user is shown
pub update-unrevoked :
    (now later : ℕ) (id : String) (ss : List UserSession)
    → keep (λ s. unrevoked id s && ltb later s.expires_at) (revoke_sessions now id ss) ≡ []
update-unrevoked now later id [] = refl
update-unrevoked now later id (s ∷ ss) = ground (arith, update-unrevoked now later id ss)

-- After a user signs out of all devices, no session of the user is listed, at whatever time.
pub list_sessions-revoke_all_sessions :
    (now later : ℕ) (id : String) (d : Db)
    → list_sessions later id (revoke_all_sessions now id d).0 ≡ []
unfolding list_sessions revoke_all_sessions
list_sessions-revoke_all_sessions now later id d = update-unrevoked now later id d.sessions

use_token-find :
    (now : ℕ) (t : Token) (h : String) (ts : List Token)
    → t.token_hash ≡ h
    → find (unused h) (use_token now t ts) ≡ none
use_token-find now t h [] e = refl
use_token-find now t h (x ∷ xs) e =
    ground
      (arith, eq_iff x.token_hash t.token_hash, eq_iff x.token_hash h, use_token-find now t h xs e)

find-hash :
    (h : String) (ts : List Token) (t : Token) → find (unused h) ts ≡ some t → t.token_hash ≡ h
find-hash h [] t e = ground arith
find-hash h (x ∷ xs) t e = ground (arith, eq_iff x.token_hash h, find-hash h xs t)

renew-find :
    (c : Library) (now : ℕ) (id password : String) (creds : List LocalCredential)
    (cred : LocalCredential)
    → find (of_user id) (renew c now id password creds) ≡ some cred
    → (cred.password_hash ≡ hash c password) × (is_locked now cred ≡ false)
renew-find c now id password [] cred e = ground arith
renew-find c now id password (x ∷ xs) cred e = ground (arith, renew-find c now id password xs cred)

-- What holds after a reset of the user's password with the token.
pub record IsReset (c : Library) (token password id : String) (d : Db) : Type 0 where
  pub spent :
      (now : ℕ) (other : String)
      → reset_password c now token other d
        ≡ (d, http_exception 400 "Invalid or expired reset token")
  pub signed_out : (now : ℕ) → list_sessions now id d ≡ []
  pub renewed :
      (cred : LocalCredential)
      → find (of_user id) d.credentials ≡ some cred
      → cred.password_hash ≡ hash c password

module _ (c : Library) (now : ℕ) (token password : String) (d : Db) where
  pub reset_state-IsReset :
      (t : Token)
      → t.token_hash ≡ c.hash_token token
      → IsReset c token password t.user_id (reset_state c now password d t)
  unfolding reset_password list_sessions
  reset_state-IsReset t e = record {
    spent = λ later other. rw (use_token-find now t (c.hash_token token) d.resets e) refl;
    signed_out = λ later. update-unrevoked now later t.user_id d.sessions;
    renewed = λ cred f. (renew-find c now t.user_id password d.credentials cred f).0;
  }

  finish_reset-IsReset :
      (t : Token) (detail : Option String)
      → t.token_hash ≡ c.hash_token token
      → IsOk (get_db d (finish_reset c now password d t detail)).1
      → IsReset c token password t.user_id (get_db d (finish_reset c now password d t detail)).0
  finish_reset-IsReset t (some detail) e h = elim h [ ]
  finish_reset-IsReset t none e h = reset_state-IsReset t e

  on_reset-IsReset :
      (t : Option Token)
      → ((x : Token) → t ≡ some x → x.token_hash ≡ c.hash_token token)
      → IsOk (get_db d (on_reset c now password d t)).1
      → (x : Token) × (t ≡ some x)
        × IsReset c token password x.user_id (get_db d (on_reset c now password d t)).0
  on_reset-IsReset none e h = elim h [ ]
  on_reset-IsReset (some t) e h =
      (t, refl, ground (arith, finish_reset-IsReset t (validate_password c password) (e t refl)))

-- A password reset that is answered, not refused, is of the user in the unused row of the token: the
-- token is spent, so a second reset with it is refused at whatever time and changes nothing; no
-- session of that user is listed any more; and that user's credential, where there is one, has the
-- hash of the new password.
pub reset_password_lem :
    (c : Library) (now : ℕ) (token password : String) (d : Db)
    → IsOk (reset_password c now token password d).1
    → (t : Token) × (find (unused (c.hash_token token)) d.resets ≡ some t)
      × IsReset c token password t.user_id (reset_password c now token password d).0
unfolding reset_password
reset_password_lem c now token password d h =
    on_reset-IsReset c now token password d (find (unused (c.hash_token token)) d.resets)
      (λ t e. find-hash (c.hash_token token) d.resets t e) h
