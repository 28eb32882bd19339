-- ===== src/Auth/Mails.antt =====
-- The handlers that mail a token. Tokens and mails
-- are as in the other handlers: a token is generated and its mail is left out. The answer of a mail
-- that fails when a verification is sent again, an error that rolls back, is left out too.
pub mod Resets
mod Tests
use dgraphai.Auth.Model.{Db, Library, Reply, Token, User, get_db, http_exception, ok}
use dgraphai.Prelude.{
  Option, String, [], find, if◌then◌else◌, keep, none, some, str_eq, ℕ, ◌*◌, ◌++◌, ◌+◌, ◌∷◌,
}
use dgraphai.Rbac.Assign.{Rows, one_row, no_row, many_rows, one_or_none}

abbrev pub new_token : Library → String → ℕ → String → Token
new_token c token expires_at user_id = record {
  user_id = user_id;
  token_hash = c.hash_token token;
  expires_at = expires_at;
  used_at = none;
}

abbrev pub reset_sent : String
reset_sent = "If an account exists for that email, a reset link was sent"

abbrev pub on_forgotten : Library → String → ℕ → Db → Rows User → Db × Reply
on_forgotten c token now d no_row = (d, ok reset_sent)
on_forgotten c token now d (one_row u) =
    (record d { resets = d.resets ++ new_token c token (now + 3600) u.id ∷ [] }, ok reset_sent)
on_forgotten c token now d many_rows = (d, http_exception 500 "Multiple rows were found")

unfoldable pub forgot_password : Library → String → ℕ → String → Db → Db × Reply
forgot_password c token now email d =
    get_db d (on_forgotten c token now d (one_or_none (keep (λ u. str_eq u.email email) d.users)))

abbrev pub on_unverified : Library → String → ℕ → Db → Option User → Db × Reply
on_unverified c token now d none = (d, ok "ok")
on_unverified c token now d (some u) = if u.email_verified then (d, ok "ok") else (
  record d { verifications = d.verifications ++ new_token c token (now + 48 * 3600) u.id ∷ [] },
  ok "sent",
)

unfoldable pub resend_verification : Library → String → ℕ → String → Db → Db × Reply
resend_verification c token now user_id d =
    get_db d (on_unverified c token now d (find (λ u. str_eq u.id user_id) d.users))
