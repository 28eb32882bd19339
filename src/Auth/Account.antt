-- ===== src/Auth/Account.antt =====
-- The other handlers of an account. `db.flush()` and mails are left out, and so are the texts of
-- answers. An authenticated handler gets the identifier of its user.
pub mod Revocation
pub mod Enrollment
use dgraphai.Prelude.Chars.{chars}
use dgraphai.Auth.Login.{mfa_of, of_user, store_mfa}
use dgraphai.Auth.Model.{
  hash, verify, ApiKey, Db, Library, LocalCredential, MfaConfig, Reply, Token, UserSession, get_db,
  http_exception, ok,
}
use dgraphai.Auth.Passwords.{use_backup_code, validate_password}
use dgraphai.Prelude.{
  Bool, List, Option, String, [], false, find, if◌then◌else◌, keep, ltb, none, some, str_eq, suc,
  take, true, update_where, zero, ℕ, ◌&&◌, ◌*◌, ◌++◌, ◌+◌, ◌∷◌,
}
use Prim.Native.Char.{Char}
use text.Mathlib.TextBridge.{of_list}

abbrev pub unset : Option ℕ → Bool
unset none = true
unset (some t) = false

-- `token_hash == h` and `used_at == None`
abbrev pub unused : String → Token → Bool
unused h t = str_eq t.token_hash h && unset t.used_at

abbrev pub use_token : ℕ → Token → List Token → List Token
use_token now t ts =
    update_where (λ x. str_eq x.token_hash t.token_hash) (λ x. record x { used_at = some now }) ts

-- `UserSession.user_id == id` and `revoked_at == None`
abbrev pub unrevoked : String → UserSession → Bool
unrevoked id s = str_eq s.user_id id && unset s.revoked_at

abbrev pub revoke : ℕ → UserSession → UserSession
revoke now s = record s { revoked_at = some now }

abbrev pub revoke_sessions : ℕ → String → List UserSession → List UserSession
revoke_sessions now id ss = update_where (unrevoked id) (revoke now) ss

module _ (c : Library) (now : ℕ) where
  abbrev on_verification : Db → Option Token → Db × Reply
  on_verification d none = (d, http_exception 400 "Invalid or expired verification token")
  on_verification d (some t) =
      if ltb t.expires_at now
      then (d, http_exception 400 "Invalid or expired verification token")
      else (
        record d {
          verifications = use_token now t d.verifications;
          users =
              update_where (λ u. str_eq u.id t.user_id) (λ u. record u { email_verified = true })
                d.users;
        },
        ok "verified",
      )

  unfoldable pub verify_email : String → Db → Db × Reply
  verify_email token d =
      get_db d (on_verification d (find (unused (c.hash_token token)) d.verifications))

  -- the new hash and a clean record of attempts, for the user's credential if there is one
  abbrev pub renew : String → String → List LocalCredential → List LocalCredential
  renew id new_password creds =
      update_where (of_user id)
        (λ cred. record cred {
          password_hash = hash c new_password;
          failed_attempts = some 0;
          locked_until = none;
        })
        creds

  abbrev pub reset_state : String → Db → Token → Db
  reset_state new_password d t = record d {
    resets = use_token now t d.resets;
    credentials = renew t.user_id new_password d.credentials;
    sessions = revoke_sessions now t.user_id d.sessions;
  }

  -- with what is wrong with the new password
  abbrev pub finish_reset : String → Db → Token → Option String → Db × Reply
  finish_reset new_password d t (some detail) = (d, http_exception 422 detail)
  finish_reset new_password d t none =
      (reset_state new_password d t, ok "Password reset successfully. Please log in again.")

  abbrev pub on_reset : String → Db → Option Token → Db × Reply
  on_reset new_password d none = (d, http_exception 400 "Invalid or expired reset token")
  on_reset new_password d (some t) =
      if ltb t.expires_at now
      then (d, http_exception 400 "Invalid or expired reset token")
      else finish_reset new_password d t (validate_password c new_password)

  unfoldable pub reset_password : String → String → Db → Db × Reply
  reset_password token new_password d =
      get_db d (on_reset new_password d (find (unused (c.hash_token token)) d.resets))

  abbrev on_change : String → String → String → Db → Option LocalCredential → Db × Reply
  on_change id current new_password d none = (d, http_exception 401 "Current password is incorrect")
  on_change id current new_password d (some cred) =
      if verify c current cred.password_hash
      then (elim (validate_password c new_password) [
        | some detail ↦ (d, http_exception 422 detail)
        | none ↦ (
          record d {
            credentials =
                update_where (of_user id) (λ x. record x { password_hash = hash c new_password })
                  d.credentials;
            sessions = revoke_sessions now id d.sessions;
          },
          ok "Password changed. Please log in again on other devices.",
        )
      ])
      else (d, http_exception 401 "Current password is incorrect")

  unfoldable pub change_password : String → String → String → Db → Db × Reply
  change_password id current new_password d =
      get_db d (on_change id current new_password d (find (of_user id) d.credentials))

  abbrev new_enrollment : String → String → List String → MfaConfig
  new_enrollment id secret codes = record {
    user_id = id;
    secret = secret;
    backup_codes = codes;
    is_active = false;
    enrolled_at = none;
    disabled_at = none;
  }

  abbrev pub enroll :
      String → String → List String → List MfaConfig → Option MfaConfig → List MfaConfig
  enroll id secret codes ms none = ms ++ new_enrollment id secret codes ∷ []
  enroll id secret codes ms (some m) =
      update_where (mfa_of id)
        (λ x. record x { secret = secret; backup_codes = codes; is_active = false }) ms

  -- the secret and the codes are generated; the user is looked up with `scalar_one`
  unfoldable pub enroll_mfa : String → String → List String → Db → Db × Reply
  enroll_mfa id secret codes d = get_db d (elim (find (λ u. str_eq u.id id) d.users) [
    | none ↦ (d, http_exception 500 "No row was found")
    | some u ↦ (record d { mfa = enroll id secret codes d.mfa (find (mfa_of id) d.mfa) }, ok secret)
  ])

  abbrev on_enrollment : String → String → Db → Option MfaConfig → Db × Reply
  on_enrollment id code d none = (d, http_exception 404 "No pending MFA enrollment")
  on_enrollment id code d (some m) =
      if c.verify_totp m.secret code
      then (
        record d {
          mfa =
              update_where (mfa_of id) (λ x. record x { is_active = true; enrolled_at = some now })
                d.mfa;
        },
        ok "enrolled",
      )
      else (d, http_exception 400 "Invalid TOTP code")

  unfoldable pub verify_mfa_enrollment : String → String → Db → Db × Reply
  verify_mfa_enrollment id code d = get_db d (on_enrollment id code d (find (mfa_of id) d.mfa))

  -- a backup code that is accepted is spent, and the configuration is kept, not active
  abbrev on_disable : String → String → Db → Option MfaConfig → Db × Reply
  on_disable id code d none = (d, http_exception 404 "MFA not enabled")
  on_disable id code d (some m) =
      if c.verify_totp m.secret code
      then (store_mfa (record m { is_active = false; disabled_at = some now }) d, ok "disabled")
      else (elim (use_backup_code c m code) [
        | none ↦ (d, http_exception 400 "Invalid TOTP code")
        | some m1 ↦
            (store_mfa (record m1 { is_active = false; disabled_at = some now }) d, ok "disabled")
      ])

  unfoldable pub disable_mfa : String → String → Db → Db × Reply
  disable_mfa id code d =
      get_db d (on_disable id code d (find (λ m. mfa_of id m && m.is_active) d.mfa))

-- the sessions that are shown, in the order of the table
unfoldable pub list_sessions : ℕ → String → Db → List UserSession
list_sessions now id d = keep (λ s. unrevoked id s && ltb now s.expires_at) d.sessions

unfoldable pub revoke_session : ℕ → String → String → Db → Db × Reply
revoke_session now session_id id d =
    get_db d (elim (find (λ s. str_eq s.id session_id && str_eq s.user_id id) d.sessions) [
      | none ↦ (d, http_exception 404 "Session not found")
      | some s ↦ (
        record d { sessions = update_where (λ x. str_eq x.id session_id) (revoke now) d.sessions },
        ok "revoked",
      )
    ])

unfoldable pub revoke_all_sessions : ℕ → String → Db → Db × Reply
revoke_all_sessions now id d =
    get_db d (record d { sessions = revoke_sessions now id d.sessions }, ok "All sessions revoked")

-- a key that never expires is one created without days, or with none
abbrev key_expiry : ℕ → Option ℕ → Option ℕ
key_expiry now none = none
key_expiry now (some zero) = none
key_expiry now (some (suc n)) = some (now + suc n * 86400)

-- `raw_key` is generated; the answer is the key, which is not stored
unfoldable pub create_api_key :
    Library → ℕ → String → String → String → String → String → Option ℕ → Db → Db × Reply
create_api_key c now fresh raw_key id tenant_id name expires_days d = get_db d (
  record d {
    api_keys =
        d.api_keys
        ++ record {
          id = fresh;
          user_id = id;
          tenant_id = tenant_id;
          name = name;
          key_hash = c.hash_token raw_key;
          key_prefix = of_list (take 12 (chars raw_key));
          expires_at = key_expiry now expires_days;
          revoked_at = none;
        }
          ∷ [];
  },
  ok raw_key,
)

unfoldable pub list_api_keys : String → Db → List ApiKey
list_api_keys id d = keep (λ k. str_eq k.user_id id && unset k.revoked_at) d.api_keys

unfoldable pub revoke_api_key : ℕ → String → String → Db → Db × Reply
revoke_api_key now key_id id d =
    get_db d (elim (find (λ k. str_eq k.id key_id && str_eq k.user_id id) d.api_keys) [
      | none ↦ (d, http_exception 404 "API key not found")
      | some k ↦ (
        record d {
          api_keys =
              update_where (λ x. str_eq x.id key_id) (λ x. record x { revoked_at = some now })
                d.api_keys;
        },
        ok "revoked",
      )
    ])
