-- ===== src/Auth/Mails/Tests.antt =====
-- Runs of the handlers that mail a token at concrete inputs.
use dgraphai.Auth.Account.{reset_password}
use dgraphai.Auth.Account.Revocation.{IsReset}
use dgraphai.Auth.Mails.{some, forgot_password}
use dgraphai.Auth.Mails.Resets.{forgot_password-reset_password}
use dgraphai.Auth.Model.{Db, Library, User, ok}
use dgraphai.Auth.Passwords.{validate_password}
use dgraphai.Prelude.{String, [], arith, eq_iff, false, none, refl, str_eq, true, ◌∷◌, ◌≡◌, ◌≢◌}
use text.Mathlib.TextBridge.{of_list}
use dgraphai.Prelude.Chars.{chars}

abbrev library : Library
library = record {
  encode = chars;
  checkpw = λ bytes h. some (str_eq (of_list bytes) h);
  hashpw = λ bytes. of_list bytes;
  hash_token = λ t. t;
  verify_totp = λ s code. false;
  is_upper = λ x. str_eq (of_list (x ∷ [])) "A";
  is_digit = λ x. str_eq (of_list (x ∷ [])) "1";
  upper = λ x. x ∷ [];
  lower = λ x. x ∷ [];
}

abbrev ann : User
ann = record {
  id = "ann";
  tenant_id = "acme";
  email = "ann@acme.com";
  is_active = true;
  email_verified = true;
  display_name = none;
  external_id = none;
  idp_provider = none;
  role = "member";
}

abbrev acme : Db
acme = record {
  users = ann ∷ [];
  credentials = [];
  verifications = [];
  resets = record { user_id = "ann"; token_hash = "old"; expires_at = 30; used_at = none } ∷ [];
  mfa = [];
  sessions = [];
  api_keys = [];
}

valid : validate_password library "Avocado1" ≡ none
unfolding validate_password
valid = refl

abbrev mailed : String
mailed = "tok"

abbrev old : String
old = "old"

old-mailed : old ≢ mailed
old-mailed = ground (arith, eq_iff "old" "tok")

forgot_password-reset_password_example :
    let after =
      reset_password library 500 "tok" "Avocado1"
        (forgot_password library "tok" 40 "ann@acme.com" acme).0 in
    (after.1 ≡ ok "Password reset successfully. Please log in again.")
    × IsReset library "tok" "Avocado1" "ann" after.0
forgot_password-reset_password_example =
    forgot_password-reset_password library "tok" 40 "ann@acme.com" acme ann 500 "Avocado1" refl
      (old-mailed, tt) (omega arith) valid
