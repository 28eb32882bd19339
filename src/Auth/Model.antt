-- ===== src/Auth/Model.antt =====
-- The rows of a local account, in the columns that the handlers read. Times are seconds since an
-- epoch. A credential and an MFA configuration are unique for a user, a token for its hash.
use dgraphai.Prelude.{Bool, List, Option, String, false, none, some, take, ℕ}
use Prim.Native.Char.{Char}

pub record User : Type 0 where
  pub id : String
  pub tenant_id : String
  pub email : String
  pub is_active : Bool
  pub email_verified : Bool
  pub display_name : Option String
  pub external_id : Option String
  pub idp_provider : Option String
  pub role : String

pub record LocalCredential : Type 0 where
  pub user_id : String
  pub password_hash : String
  pub failed_attempts : Option ℕ
  pub locked_until : Option ℕ
  pub last_failed_at : Option ℕ
  pub last_login_at : Option ℕ

-- a row of the tokens that verify an email, and of those that reset a password
pub record Token : Type 0 where
  pub user_id : String
  pub token_hash : String
  pub expires_at : ℕ
  pub used_at : Option ℕ

pub record MfaConfig : Type 0 where
  pub user_id : String
  pub secret : String
  pub backup_codes : List String
  pub is_active : Bool
  pub enrolled_at : Option ℕ
  pub disabled_at : Option ℕ

pub record UserSession : Type 0 where
  pub id : String
  pub user_id : String
  pub tenant_id : String
  pub expires_at : ℕ
  pub revoked_at : Option ℕ

pub record ApiKey : Type 0 where
  pub id : String
  pub user_id : String
  pub tenant_id : String
  pub name : String
  pub key_hash : String
  pub key_prefix : String
  pub expires_at : Option ℕ
  pub revoked_at : Option ℕ

pub record Db : Type 0 where
  pub users : List User
  pub credentials : List LocalCredential
  pub verifications : List Token
  pub resets : List Token
  pub mfa : List MfaConfig
  pub sessions : List UserSession
  pub api_keys : List ApiKey

-- What a handler answers, or the exception that it raises, with its status code.
pub data Reply : Type 0 where
  ok : String → Reply
  http_exception : ℕ → String → Reply

-- `get_db`: the session is committed after an answer, and rolled back on an exception.
abbrev pub get_db : {S : Type 0} → S → S × Reply → S × Reply
get_db before (after, ok s) = (after, ok s)
get_db before (after, http_exception code detail) = (before, http_exception code detail)

-- bcrypt's `checkpw`, which may raise, and its `hashpw` with the salt of the call, UTF-8, SHA-256, `pyotp`,
-- and Unicode's tables. Bytes are a list of characters, one for each byte.
pub record Library : Type 0 where
  pub encode : String → List Char
  pub checkpw : List Char → String → Option Bool
  pub hashpw : List Char → String
  pub hash_token : String → String
  pub verify_totp : String → String → Bool
  pub is_upper : Char → Bool
  pub is_digit : Char → Bool
  pub upper : Char → List Char
  pub lower : Char → List Char

-- `_PwdCtx`, of which bcrypt gets the first 72 bytes of a password
unfoldable pub hash : Library → String → String
hash c password = c.hashpw (take 72 (c.encode password))

unfoldable pub verify : Library → String → String → Bool
verify c password hashed = elim (c.checkpw (take 72 (c.encode password)) hashed) [
  | none ↦ false
  | some b ↦ b
]
