-- ===== src/Tenancy/Invites/SharedEmail.antt =====
-- An accepted invitation whose email another user has.
use dgraphai.Prelude.{
  Bool, List, Option, String, [], any, ap, arith, eq_refl, find, keep, length, refl, some, str_eq,
  suc, true, ℕ, ◌&&◌, ◌++◌, ◌∷◌, ◌≡◌, ◌≤◌,
}
use dgraphai.Tenancy.Invites.{AcceptInviteRequest, accept_invite, joined, pending}
use dgraphai.Tenancy.Invites.Entry.{accept_invite-Accepted, same_invite}
use dgraphai.Tenancy.Model.{Store, UserInvite, new_user}
use dgraphai.Auth.Login.{login, login_session, on_users, LoginRequest}
use dgraphai.Auth.Login.Access.{IsOk}
use dgraphai.Auth.Model.{Db as Accounts}
use dgraphai.Auth.Model.{http_exception, Library, User}

abbrev pub bearing : String → User → Bool
bearing email u = str_eq u.email email && u.is_active

count_new :
    (p : User → Bool) (u : User) (users : List User)
    → p u ≡ true
    → length (keep p (users ++ u ∷ [])) ≡ suc (length (keep p users))
count_new p u [] h = ground (arith)
count_new p u (x ∷ xs) h = ground (arith, count_new p u xs h)

count_any : (p : User → Bool) (users : List User) → any p users ≡ true → 1 ≤ length (keep p users)
count_any p [] h = ground arith
count_any p (x ∷ xs) h = ground (arith, count_any p xs)

on_many :
    (c : Library) (fresh : String) (now : ℕ) (req : LoginRequest) (d : Accounts) (us : List User)
    → 2 ≤ length us
    → on_users c fresh now req d us ≡ (d, http_exception 500 "Multiple rows were found")
on_many c fresh now req d [] h = ground arith
on_many c fresh now req d (u ∷ []) h = ground arith
on_many c fresh now req d (u ∷ v ∷ us) h = refl

login_many :
    (c : Library) (fresh : String) (now : ℕ) (req : LoginRequest) (d : Accounts)
    → 2 ≤ length (keep (bearing req.email) d.users)
    → login c fresh now req d ≡ (d, http_exception 500 "Multiple rows were found")
unfolding login login_session
login_many c fresh now req d h =
    rw (on_many c fresh now req d (keep (bearing req.email) d.users) h) refl

joined_many :
    (c : Library) (user_id role_id : String) (now : ℕ) (req : AcceptInviteRequest) (s : Store)
    (i : UserInvite)
    → any (bearing i.email) s.accounts.users ≡ true
    → 2 ≤ length (keep (bearing i.email) (joined c user_id role_id now req s i).accounts.users)
joined_many c user_id role_id now req s i a =
    let new = new_user user_id i.tenant_id i.email (some req.name) true in
    omega (
      arith,
      count_new (bearing i.email) new s.accounts.users (ground (arith, eq_refl i.email)),
      count_any (bearing i.email) s.accounts.users a,
    )

-- When an invitation is accepted whose email an active user of any tenant already has, then from
-- then on every login with that email fails with status 500, whatever the password and the time, for
-- the new user and for the old one.
pub invite_locks_out :
    (c : Library) (user_id role_id : String) (now : ℕ) (req : AcceptInviteRequest) (s : Store)
    (i : UserInvite)
    → find (pending (c.hash_token req.token)) s.invites ≡ some i
    → any (bearing i.email) s.accounts.users ≡ true
    → IsOk (accept_invite c user_id role_id now req s).1
    → (session password : String) (later : ℕ) (code : Option String)
    → (login c session later
        (record { email = i.email; password = password; mfa_code = code })
        (accept_invite c user_id role_id now req s).0.accounts).1
      ≡ http_exception 500 "Multiple rows were found"
invite_locks_out c user_id role_id now req s i e a h session password later code =
    let r = accept_invite-Accepted c user_id role_id now req s h in
    let same : r.0 ≡ i = same_invite r.0 i _ r.1 e in
    ap (λ x. x.1)
      (login_many c session later (record { email = i.email; password = password; mfa_code = code })
        (accept_invite c user_id role_id now req s).0.accounts
        (rw (r.2.0, same) (joined_many c user_id role_id now req s i a)))
