-- ===== src/Auth/Login/Access.antt =====
-- Who gets a session.
use dgraphai.Auth.Login.{
  LoginRequest, check_mfa, check_password, given, is_locked, login, login_session, mfa_of, of_user,
  on_users, store_credential, succeed, with_code,
}
use dgraphai.Auth.Model.{
  verify, Db, Library, LocalCredential, MfaConfig, Reply, User, get_db, http_exception, ok,
}
use dgraphai.Auth.Passwords.{normal_code, remove, use_backup_code}
use dgraphai.Prelude.{
  List, Option, String, [], arith, eq_iff, false, find, keep, none, refl, some, str_eq, true, ℕ,
  ◌&&◌, ◌∷◌, ◌≡◌, ◌⊎◌,
}
use dgraphai.Prelude.Dict.{contains}

abbrev pub IsOk : Reply → Type 0
IsOk (ok s) = Unit
IsOk (http_exception code detail) = ⊥

-- No second factor is configured, or a code was given that is valid now or is a backup code.
abbrev pub SecondFactor : Library → LoginRequest → Option MfaConfig → Type 0
SecondFactor c req none = Unit
SecondFactor c req (some m) =
    (code : String) × (given req.mfa_code ≡ some code)
    × ((c.verify_totp m.secret code ≡ true) ⊎ (contains (normal_code c code) m.backup_codes ≡ true))

-- What a login needs: exactly one active user with the email, whose credential is not locked and
-- fits the password, and the second factor.
pub record Authentic (c : Library) (now : ℕ) (req : LoginRequest) (d : Db) : Type 0 where
  pub user : User
  pub cred : LocalCredential
  pub only : keep (λ u. str_eq u.email req.email && u.is_active) d.users ≡ user ∷ []
  pub theirs : find (of_user user.id) d.credentials ≡ some cred
  pub unlocked : is_locked now cred ≡ false
  pub fits : verify c req.password cred.password_hash ≡ true
  pub second : SecondFactor c req (find (λ m. mfa_of user.id m && m.is_active) d.mfa)

get_db-IsOk : (d e : Db) (r : Reply) → IsOk (get_db d (e, r)).1 → IsOk r
get_db-IsOk d e (ok s) h = tt
get_db-IsOk d e (http_exception code detail) h = elim h [ ]

module _ (c : Library) (fresh : String) (now : ℕ) where
  with_code_sound :
      (user : User) (d : Db) (m : MfaConfig) (req : LoginRequest) (code : Option String)
      → given req.mfa_code ≡ code
      → IsOk (with_code c fresh now user d m code).1
      → SecondFactor c req (some m)
  unfolding use_backup_code
  with_code_sound user d m req none e h = elim h [ ]
  with_code_sound user d m req (some code) e h = (code, e, ground arith)

  check_mfa_sound :
      (req : LoginRequest) (user : User) (d : Db) (m : Option MfaConfig)
      → IsOk (check_mfa c fresh now req user d m).1
      → SecondFactor c req m
  check_mfa_sound req user d none h = tt
  check_mfa_sound req user d (some m) h = with_code_sound user d m req (given req.mfa_code) refl h

  check_password_sound :
      (req : LoginRequest) (user : User) (d : Db) (cred : Option LocalCredential)
      → keep (λ u. str_eq u.email req.email && u.is_active) d.users ≡ user ∷ []
      → find (of_user user.id) d.credentials ≡ cred
      → IsOk (check_password c fresh now req user d cred).1
      → Authentic c now req d
  check_password_sound req user d none e f h = elim h [ ]
  check_password_sound req user d (some cred) e f h =
      let m = find (λ m. mfa_of user.id m && m.is_active) d.mfa in
      let d1 = store_credential (succeed now cred) d in
      record {
        user = user;
        cred = cred;
        only = e;
        theirs = f;
        unlocked = ground arith;
        fits = ground arith;
        second = check_mfa_sound req user d1 m (ground arith);
      }

  on_users_sound :
      (req : LoginRequest) (d : Db) (users : List User)
      → keep (λ u. str_eq u.email req.email && u.is_active) d.users ≡ users
      → IsOk (on_users c fresh now req d users).1
      → Authentic c now req d
  on_users_sound req d [] e h = elim h [ ]
  on_users_sound req d (user ∷ []) e h =
      check_password_sound req user d (find (of_user user.id) d.credentials) e refl h
  on_users_sound req d (user ∷ other ∷ rest) e h = elim h [ ]

-- A login that is answered, not refused, is of the one active user with the email: the password fits
-- the user's credential, which is not locked, and where the user has an active second factor, the
-- code that was given is a valid one or one of the backup codes.
pub login_sound :
    (c : Library) (fresh : String) (now : ℕ) (req : LoginRequest) (d : Db)
    → IsOk (login c fresh now req d).1
    → Authentic c now req d
unfolding login login_session
login_sound c fresh now req d h =
    let us = keep (λ u. str_eq u.email req.email && u.is_active) d.users in
    let r = on_users c fresh now req d us in
    on_users_sound c fresh now req d us refl (get_db-IsOk d r.0 r.1 h)

-- no code stands twice
abbrev pub Distinct : List String → Type 0
Distinct [] = Unit
Distinct (x ∷ xs) = (contains x xs ≡ false) × Distinct xs

remove-Distinct :
    (code : String) (xs : List String) → Distinct xs → contains code (remove code xs) ≡ false
remove-Distinct code [] h = refl
remove-Distinct code (x ∷ xs) h = ground (arith, eq_iff code x, remove-Distinct code xs h.1)

-- A backup code is good for one use: when the stored codes are distinct and a code is accepted, it is
-- not accepted again with the configuration that the first use leaves.
pub backup_code_once :
    (c : Library) (m m1 : MfaConfig) (code : String)
    → Distinct m.backup_codes
    → use_backup_code c m code ≡ some m1
    → use_backup_code c m1 code ≡ none
unfolding use_backup_code
backup_code_once c m m1 code h e =
    ground (arith, remove-Distinct (normal_code c code) m.backup_codes h)
