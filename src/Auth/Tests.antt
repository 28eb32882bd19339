-- ===== src/Auth/Tests.antt =====
-- Runs of the account handlers at concrete inputs.
use dgraphai.Auth.Account.{unused, enroll_mfa, list_sessions, reset_password, revoke_all_sessions}
use dgraphai.Auth.Account.Enrollment.{enroll_mfa-inactive}
use dgraphai.Auth.Account.Revocation.{
  IsReset, list_sessions-revoke_all_sessions, reset_password_lem,
}
use dgraphai.Auth.Login.{LoginRequest, login, login_session, mfa_of}
use dgraphai.Auth.Login.Access.{Authentic, IsOk, backup_code_once, login_sound}
use dgraphai.Auth.Login.Lockout.{Attempt, logins, wrong_passwords_not_counted}
use dgraphai.Auth.Model.{
  verify, Token, Db, Library, LocalCredential, MfaConfig, User, http_exception, ok,
}
use dgraphai.Auth.Passwords.{normal_code, use_backup_code, validate_password}
use dgraphai.Prelude.{
  Option, String, [], find, none, refl, some, str_eq, subst, suc, sym, true, zero, ℕ, ◌&&◌, ◌∷◌,
  ◌≡◌,
}
use text.Mathlib.TextBridge.{of_list}
use dgraphai.Prelude.Chars.{chars}

-- A library with a hash that is the identity.
abbrev library : Library
library = record {
  encode = chars;
  checkpw = λ bytes h. some (str_eq (of_list bytes) h);
  hashpw = λ bytes. of_list bytes;
  hash_token = λ t. t;
  verify_totp = λ s code. str_eq code "123456";
  is_upper = λ x. str_eq (of_list (x ∷ [])) "A";
  is_digit = λ x. str_eq (of_list (x ∷ [])) "1";
  upper = λ x. x ∷ [];
  lower = λ x. x ∷ [];
}

abbrev ann : User
ann = record {
  id = "ann";
  tenant_id = "acme";
  email = "ann@acme.com";
  is_active = true;
  email_verified = true;
  display_name = none;
  external_id = none;
  idp_provider = none;
  role = "member";
}

abbrev credential : LocalCredential
credential = record {
  user_id = "ann";
  password_hash = "Apple111";
  failed_attempts = none;
  locked_until = none;
  last_failed_at = none;
  last_login_at = none;
}

abbrev factor : MfaConfig
factor = record {
  user_id = "ann";
  secret = "s";
  backup_codes = "C0DE" ∷ "C1DE" ∷ [];
  is_active = true;
  enrolled_at = some 1;
  disabled_at = none;
}

abbrev acme : Db
acme = record {
  users = ann ∷ [];
  credentials = credential ∷ [];
  verifications = [];
  resets = record { user_id = "ann"; token_hash = "tok"; expires_at = 100; used_at = none } ∷ [];
  mfa = factor ∷ [];
  sessions = [];
  api_keys = [];
}

abbrev request : String → Option String → LoginRequest
request password code = record { email = "ann@acme.com"; password = password; mfa_code = code }

abbrev guess : ℕ → Attempt
guess now = record { req = request "guess" none; now = now; fresh = "none" }

-- five wrong passwords, each in a session that were committed, lock the account
abbrev committed : ℕ → Db → Db
committed zero d = d
committed (suc n) d = (login_session library "none" 10 (request "guess" none) (committed n d)).0

locked_if_committed :
    (login library "new" 11 (request "Apple111" (some "123456")) (committed 5 acme)).1
    ≡ http_exception 429 "Account temporarily locked."
unfolding login login_session verify
locked_if_committed = refl

wrong_passwords_not_counted_example :
    logins library (guess 10 ∷ guess 11 ∷ guess 12 ∷ guess 13 ∷ guess 14 ∷ guess 15 ∷ []) acme
    ≡ acme
unfolding verify
wrong_passwords_not_counted_example =
    wrong_passwords_not_counted library
      (guess 10 ∷ guess 11 ∷ guess 12 ∷ guess 13 ∷ guess 14 ∷ guess 15 ∷ []) acme
      ((refl, tt), ((refl, tt), ((refl, tt), ((refl, tt), ((refl, tt), ((refl, tt), tt))))))

accepted : (login library "new" 11 (request "Apple111" (some "C0-DE")) acme).1 ≡ ok "new"
unfolding login login_session use_backup_code normal_code verify
accepted = refl

login_sound_example : Authentic library 11 (request "Apple111" (some "C0-DE")) acme
login_sound_example =
    login_sound library "new" 11 (request "Apple111" (some "C0-DE")) acme
      (subst IsOk (sym accepted) tt)

spends :
    use_backup_code library factor "C0-DE" ≡ some (record factor { backup_codes = "C1DE" ∷ [] })
unfolding use_backup_code normal_code
spends = refl

backup_code_once_run :
    use_backup_code library (record factor { backup_codes = "C1DE" ∷ [] }) "C0-DE" ≡ none
backup_code_once_run =
    backup_code_once library factor (record factor { backup_codes = "C1DE" ∷ [] }) "C0-DE"
      (refl, (refl, tt)) spends

abbrev signed_in : Db
signed_in = record acme {
  sessions =
      record {
        id = "s1";
        user_id = "ann";
        tenant_id = "acme";
        expires_at = 86400;
        revoked_at = none;
      }
      ∷ [];
}

list_sessions-revoke_all_sessions_run :
    list_sessions 20 "ann" (revoke_all_sessions 15 "ann" signed_in).0 ≡ []
list_sessions-revoke_all_sessions_run = list_sessions-revoke_all_sessions 15 20 "ann" signed_in

reset-IsOk : IsOk (reset_password library 50 "tok" "Avocado1" acme).1
unfolding reset_password validate_password
reset-IsOk = tt

reset_password_lem_example :
    (t : Token) × (find (unused (library.hash_token "tok")) acme.resets ≡ some t)
    × IsReset library "tok" "Avocado1" t.user_id (reset_password library 50 "tok" "Avocado1" acme).0
reset_password_lem_example = reset_password_lem library 50 "tok" "Avocado1" acme reset-IsOk

enroll-IsOk : IsOk (enroll_mfa library 60 "ann" "t" ("A" ∷ []) acme).1
unfolding enroll_mfa
enroll-IsOk = tt

enroll_mfa-inactive_run :
    find
      (λ m. mfa_of "ann" m && m.is_active)
      (enroll_mfa library 60 "ann" "t" ("A" ∷ []) acme).0.mfa
    ≡ none
enroll_mfa-inactive_run = enroll_mfa-inactive library 60 "ann" "t" ("A" ∷ []) acme enroll-IsOk
