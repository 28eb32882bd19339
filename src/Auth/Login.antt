-- ===== src/Auth/Login.antt =====
-- `login`, in one session and as the request commits it.
pub mod Lockout
pub mod Access
use dgraphai.Auth.Model.{
  verify, Db, Library, LocalCredential, MfaConfig, Reply, User, get_db, http_exception, ok,
}
use dgraphai.Auth.Passwords.{
  jwt_expiry_seconds, lockout_seconds, max_failed_attempts, use_backup_code,
}
use dgraphai.Prelude.{
  Bool, List, Option, String, [], false, find, if◌then◌else◌, keep, leb, ltb, none, some, str_eq,
  suc, update_where, ℕ, ◌&&◌, ◌++◌, ◌+◌, ◌∷◌,
}

pub record LoginRequest : Type 0 where
  pub email : String
  pub password : String
  pub mfa_code : Option String

abbrev pub of_user : String → LocalCredential → Bool
of_user id cred = str_eq cred.user_id id

abbrev pub mfa_of : String → MfaConfig → Bool
mfa_of id m = str_eq m.user_id id

-- `LocalCredential.user_id == user.id`
abbrev pub store_credential : LocalCredential → Db → Db
store_credential cred d = record d {
  credentials = update_where (of_user cred.user_id) (λ c. cred) d.credentials;
}

abbrev pub store_mfa : MfaConfig → Db → Db
store_mfa m d = record d { mfa = update_where (mfa_of m.user_id) (λ x. m) d.mfa }

abbrev pub invalid : Reply
invalid = http_exception 401 "Invalid email or password"

-- `cred.locked_until and cred.locked_until > now`
abbrev pub is_locked : ℕ → LocalCredential → Bool
is_locked now cred = elim cred.locked_until [ none ↦ false | some t ↦ ltb now t ]

abbrev pub attempts_of : LocalCredential → ℕ
attempts_of cred = elim cred.failed_attempts [ none ↦ 0 | some n ↦ n ]

abbrev pub fail_once : ℕ → LocalCredential → LocalCredential
fail_once now cred =
    let n = suc (attempts_of cred) in
    record cred {
      failed_attempts = some n;
      last_failed_at = some now;
      locked_until =
          if leb max_failed_attempts n then some (now + lockout_seconds) else cred.locked_until;
    }

abbrev pub succeed : ℕ → LocalCredential → LocalCredential
succeed now cred = record cred {
  failed_attempts = some 0;
  locked_until = none;
  last_login_at = some now;
}

-- `not req.mfa_code`
abbrev pub given : Option String → Option String
given none = none
given (some code) = if str_eq code "" then none else some code

module _ (c : Library) (fresh : String) (now : ℕ) where
  -- The session row is added; its identifier stands for the JWT that is issued for it.
  abbrev pub open_session : User → Db → Db × Reply
  open_session user d = (
    record d {
      sessions =
          d.sessions
          ++ record {
            id = fresh;
            user_id = user.id;
            tenant_id = user.tenant_id;
            expires_at = now + jwt_expiry_seconds;
            revoked_at = none;
          }
            ∷ [];
    },
    ok fresh,
  )

  abbrev pub with_code : User → Db → MfaConfig → Option String → Db × Reply
  with_code user d m none = (d, http_exception 401 "MFA required")
  with_code user d m (some code) =
      if c.verify_totp m.secret code
      then open_session user d
      else (elim (use_backup_code c m code) [
        | none ↦ (d, http_exception 401 "Invalid MFA code")
        | some m1 ↦ open_session user (store_mfa m1 d)
      ])

  abbrev pub check_mfa : LoginRequest → User → Db → Option MfaConfig → Db × Reply
  check_mfa req user d none = open_session user d
  check_mfa req user d (some m) = with_code user d m (given req.mfa_code)

  abbrev pub check_password : LoginRequest → User → Db → Option LocalCredential → Db × Reply
  check_password req user d none = (d, invalid)
  check_password req user d (some cred) =
      if is_locked now cred
      then (d, http_exception 429 "Account temporarily locked.")
      else if verify c req.password cred.password_hash
      then check_mfa req user (store_credential (succeed now cred) d)
          (find (λ m. mfa_of user.id m && m.is_active) d.mfa)
      else (store_credential (fail_once now cred) d, invalid)

  -- the active users with the email: `scalar_one_or_none` raises if there are several
  abbrev pub on_users : LoginRequest → Db → List User → Db × Reply
  on_users req d [] = (d, invalid)
  on_users req d (user ∷ []) = check_password req user d (find (of_user user.id) d.credentials)
  on_users req d (user ∷ other ∷ rest) = (d, http_exception 500 "Multiple rows were found")

  -- the handler in its session, before it is committed or rolled back
  unfoldable pub login_session : LoginRequest → Db → Db × Reply
  login_session req d = on_users req d (keep (λ u. str_eq u.email req.email && u.is_active) d.users)

  unfoldable pub login : LoginRequest → Db → Db × Reply
  unfolding login_session
  login req d = get_db d (login_session req d)
