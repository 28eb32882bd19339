-- ===== src/Auth/Login/Lockout.antt =====
-- What logins with wrong passwords leave behind.
use dgraphai.Auth.Login.{LoginRequest, check_password, login, login_session, of_user, on_users}
use dgraphai.Auth.Model.{verify, Db, Library, LocalCredential, User, get_db}
use dgraphai.Prelude.{
  All, Bool, List, Option, String, [], arith, false, find, keep, none, refl, some, str_eq, ℕ, ◌&&◌,
  ◌∷◌, ◌≡◌,
}

-- One login, with the time at which it comes and the identifier that its session would get.
pub record Attempt : Type 0 where
  pub req : LoginRequest
  pub now : ℕ
  pub fresh : String

-- the logins one after the other
abbrev pub logins : Library → List Attempt → Db → Db
logins c [] d = d
logins c (a ∷ rest) d = logins c rest (login c a.fresh a.now a.req d).0

-- the password fits no stored credential
abbrev pub IsWrong : Library → Db → Attempt → Type 0
IsWrong c d a = All (λ cred. verify c a.req.password cred.password_hash ≡ false) d.credentials

find-verify :
    (c : Library) (password : String) (p : LocalCredential → Bool) (xs : List LocalCredential)
    (x : LocalCredential)
    → All (λ cred. verify c password cred.password_hash ≡ false) xs
    → find p xs ≡ some x
    → verify c password x.password_hash ≡ false
find-verify c password p [] x h e = ground arith
find-verify c password p (y ∷ ys) x h e = ground (arith, find-verify c password p ys x h.1)

module _ (c : Library) (fresh : String) (now : ℕ) where
  check_password-refused :
      (req : LoginRequest) (user : User) (d : Db) (cred : Option LocalCredential)
      → ((x : LocalCredential) → cred ≡ some x → verify c req.password x.password_hash ≡ false)
      → (get_db d (check_password c fresh now req user d cred)).0 ≡ d
  check_password-refused req user d none h = refl
  check_password-refused req user d (some cred) h = ground (arith, h cred refl)

  on_users-refused :
      (req : LoginRequest) (d : Db) (users : List User)
      → All (λ cred. verify c req.password cred.password_hash ≡ false) d.credentials
      → (get_db d (on_users c fresh now req d users)).0 ≡ d
  on_users-refused req d [] h = refl
  on_users-refused req d (user ∷ []) h =
      check_password-refused req user d (find (of_user user.id) d.credentials)
        (λ x e. find-verify c req.password (of_user user.id) d.credentials x h e)
  on_users-refused req d (user ∷ other ∷ rest) h = refl

login-refused :
    (c : Library) (a : Attempt) (d : Db) → IsWrong c d a → (login c a.fresh a.now a.req d).0 ≡ d
unfolding login login_session
login-refused c a d h =
    on_users-refused c a.fresh a.now a.req d
      (keep (λ u. str_eq u.email a.req.email && u.is_active) d.users) h

-- However many logins come, at whatever times and for whatever accounts: when none of their passwords
-- fits a stored credential, the database is what it was, so no failed attempt is counted and no
-- account is locked. The exception that refuses the login makes the session roll the count back.
pub wrong_passwords_not_counted :
    (c : Library) (attempts : List Attempt) (d : Db)
    → All (IsWrong c d) attempts
    → logins c attempts d ≡ d
wrong_passwords_not_counted c [] d h = refl
wrong_passwords_not_counted c (a ∷ rest) d h =
    rw (login-refused c a d h.0) (wrong_passwords_not_counted c rest d h.1)
