-- ===== src/Auth/Passwords.antt =====
-- `_validate_password`, `_use_backup_code` and the constants of the lockout.
use dgraphai.Prelude.Chars.{chars}
use dgraphai.Auth.Model.{Library, MfaConfig}
use dgraphai.Prelude.{
  Bool, List, Option, String, [], any, if◌then◌else◌, keep, length, ltb, none, not, some, str_eq, ℕ,
  ◌++◌, ◌||◌, ◌∷◌,
}
use dgraphai.Prelude.Dict.{contains}
use Prim.Native.Char.{Char}
use text.Mathlib.TextBridge.{of_list}

abbrev pub max_failed_attempts : ℕ
max_failed_attempts = 5

-- 15 minutes
abbrev pub lockout_seconds : ℕ
lockout_seconds = 900

-- 24 hours, the default
abbrev pub jwt_expiry_seconds : ℕ
jwt_expiry_seconds = 86400

-- `codes.remove(code)`, which takes out the first
abbrev pub remove : String → List String → List String
remove code [] = []
remove code (x ∷ xs) = if str_eq code x then xs else x ∷ remove code xs

module _ (c : Library) where
  -- the detail of the exception with code 422, if there is one
  unfoldable pub validate_password : String → Option String
  validate_password password =
      if ltb (length (chars password)) 8
      then some "Password must be at least 8 characters"
      else if not (any c.is_upper (chars password))
      then some "Password must contain an uppercase letter"
      else if not (any c.is_digit (chars password))
      then some "Password must contain a number"
      else none

  abbrev is_separator : Char → Bool
  is_separator x = str_eq (of_list (x ∷ [])) "-" || str_eq (of_list (x ∷ [])) " "

  abbrev upper_all : List Char → List Char
  upper_all [] = []
  upper_all (x ∷ xs) = c.upper x ++ upper_all xs

  -- `code.upper().replace("-", "").replace(" ", "")`
  unfoldable pub normal_code : String → String
  normal_code code = of_list (keep (λ x. not (is_separator x)) (upper_all (chars code)))

  -- the configuration without the code, if it is one of them
  unfoldable pub use_backup_code : MfaConfig → String → Option MfaConfig
  unfolding normal_code
  use_backup_code mfa code =
      if contains (normal_code code) mfa.backup_codes
      then some (record mfa { backup_codes = remove (normal_code code) mfa.backup_codes })
      else none
