-- ===== src/Tenancy/Signup/FirstLogin.antt =====
-- A sign-up opens the door: what the new user can do.
use dgraphai.Prelude.{subst, sym, ◌∙◌}
use dgraphai.Rbac.Assign.Effect.{assign_builtin_role-allowed}
use dgraphai.Rbac.Permissions.{builtin}
use dgraphai.Rbac.Permissions.{Db as Roles}
use dgraphai.Auth.Login.{login, login_session, mfa_of, of_user}
use dgraphai.Auth.Login.Access.{IsOk}
use dgraphai.Auth.Model.{hash, verify, Library, LocalCredential, MfaConfig, Reply, User, get_db, ok}
use dgraphai.Auth.Passwords.{validate_password}
use dgraphai.Prelude.{
  All, List, Option, String, [], arith, eq_iff, eq_refl, false, find, keep, none, refl, some,
  str_eq, true, ℕ, ◌&&◌, ◌++◌, ◌∷◌, ◌≡◌, ◌≢◌,
}
use dgraphai.Rbac.Assign.{assign_builtin_role, named, one_or_none}
use dgraphai.Rbac.Permissions.{is_allowed, load_user_permissions}
use dgraphai.Tenancy.Model.{Store, new_credential, new_user, with_roles}
use dgraphai.Tenancy.Signup.{
  Generated, SignupRequest, new_tenant, on_existing, on_password, signed_up, signup,
}

-- The identifiers that a sign-up generates are new.
pub record IsFresh (g : Generated) (s : Store) : Type 0 where
  pub credentials : All (λ x. x.user_id ≢ g.user_id) s.accounts.credentials
  pub mfa : All (λ x. x.user_id ≢ g.user_id) s.accounts.mfa
  pub tenant : named g.tenant_id "admin" s.rbac.roles ≡ []
  pub role : All (λ r. r.id ≢ g.role_id) s.rbac.roles
  pub assignments : All (λ a. a.user_id ≢ g.user_id) s.rbac.assignments

find_new :
    (id hash : String) (creds : List LocalCredential)
    → All (λ x. x.user_id ≢ id) creds
    → find (of_user id) (creds ++ new_credential id hash ∷ []) ≡ some (new_credential id hash)
find_new id hash [] h = ground (arith, eq_refl id)
find_new id hash (x ∷ xs) h = ground (arith, eq_iff x.user_id id, find_new id hash xs h.1)

no_factor :
    (id : String) (ms : List MfaConfig)
    → All (λ x. x.user_id ≢ id) ms
    → find (λ m. mfa_of id m && m.is_active) ms ≡ none
no_factor id [] h = refl
no_factor id (m ∷ ms) h = ground (arith, eq_iff m.user_id id, no_factor id ms h.1)

-- The active users with the email, when none had it before.
only_new :
    (u : User) (email : String) (users : List User)
    → u.email ≡ email
    → u.is_active ≡ true
    → keep (λ x. str_eq x.email email) users ≡ []
    → keep (λ x. str_eq x.email email && x.is_active) (users ++ u ∷ []) ≡ u ∷ []
only_new u email [] e a h = ground (arith, eq_iff u.email email)
only_new u email (x ∷ xs) e a h = ground (arith, only_new u email xs e a)

module _ (c : Library) (str : ℕ → String) (g : Generated) (now : ℕ) (req : SignupRequest)
    (s : Store) where
  abbrev pub roles_after : Option Roles
  roles_after = assign_builtin_role g.role_id g.user_id g.tenant_id "admin" s.rbac

  abbrev Entered : Store × Reply → Type 0
  Entered r =
      (keep (λ u. str_eq u.email req.email) s.accounts.users ≡ [])
      × (r.0.accounts ≡ signed_up c str g now req s.accounts)
      × (roles_after ≡ some r.0.rbac)

  enter-Entered :
      (m : Option Roles)
      → roles_after ≡ m
      → keep (λ u. str_eq u.email req.email) s.accounts.users ≡ []
      → IsOk
          (get_db s (
            with_roles
              (record s {
                accounts = signed_up c str g now req s.accounts;
                tenants = s.tenants ++ new_tenant c str g now req s.tenants ∷ [];
              })
              m
              (ok g.user_id))).1
      → Entered (
          get_db s (
            with_roles
              (record s {
                accounts = signed_up c str g now req s.accounts;
                tenants = s.tenants ++ new_tenant c str g now req s.tenants ∷ [];
              })
              m
              (ok g.user_id)))
  enter-Entered none e k h = elim h [ ]
  enter-Entered (some roles) e k h = (k, refl, e)

  on_existing-Entered :
      (us : List User)
      → keep (λ u. str_eq u.email req.email) s.accounts.users ≡ us
      → IsOk (get_db s (on_existing c str g now req s (one_or_none us))).1
      → Entered (get_db s (on_existing c str g now req s (one_or_none us)))
  on_existing-Entered [] e h = enter-Entered roles_after refl e h
  on_existing-Entered (u ∷ []) e h = elim h [ ]
  on_existing-Entered (u ∷ v ∷ us) e h = elim h [ ]

  on_password-Entered :
      (detail : Option String)
      → IsOk (get_db s (on_password c str g now req s detail)).1
      → Entered (get_db s (on_password c str g now req s detail))
  on_password-Entered (some d) h = elim h [ ]
  on_password-Entered none h =
      on_existing-Entered (keep (λ u. str_eq u.email req.email) s.accounts.users) refl h

-- A login with the password of the sign-up, in the accounts that it leaves.
signed_up-login :
    (c : Library) (str : ℕ → String) (g : Generated) (now : ℕ) (req : SignupRequest) (s : Store)
    (session : String) (later : ℕ) (code : Option String)
    → verify c req.password (hash c req.password) ≡ true
    → IsFresh g s
    → keep (λ u. str_eq u.email req.email) s.accounts.users ≡ []
    → (login c session later
        (record { email = req.email; password = req.password; mfa_code = code })
        (signed_up c str g now req s.accounts)).1
      ≡ ok session
unfolding login login_session
signed_up-login c str g now req s session later code law new k =
    rw
      (
        only_new (new_user g.user_id g.tenant_id req.email (some req.name) false) req.email
            s.accounts.users refl refl k,
        find_new g.user_id (hash c req.password) s.accounts.credentials new.credentials,
        law,
        no_factor g.user_id s.accounts.mfa new.mfa,
      )
      refl

admin_allowed : (p : String) → is_allowed (builtin "admin") p ≡ true
unfolding is_allowed builtin
admin_allowed p = ground arith

some_same : (a b : Roles) (o : Option Roles) → o ≡ some a → o ≡ some b → a ≡ b
some_same a b o e f = cc

all_allowed :
    (c : Library) (str : ℕ → String) (g : Generated) (s : Store) (roles : Roles)
    → IsFresh g s
    → assign_builtin_role g.role_id g.user_id g.tenant_id "admin" s.rbac ≡ some roles
    → (later : ℕ) (p : String)
    → is_allowed (load_user_permissions later g.user_id g.tenant_id roles).1 p ≡ true
all_allowed c str g s roles new e later p =
    let r =
      assign_builtin_role-allowed g.role_id g.user_id g.tenant_id "admin" s.rbac new.tenant new.role
        new.assignments in
    let same = some_same r.0 roles _ r.1 e in
    subst (λ x. is_allowed (load_user_permissions later g.user_id g.tenant_id x).1 p ≡ true) same
      (r.2 later p ∙ admin_allowed p)

-- When a sign-up is answered, not refused, and what it generated is new: from then on, at any time,
-- the user is logged in with the email and the password, and is allowed every permission in the new
-- tenant. bcrypt is assumed to verify a password with its own hash.
pub signup_opens :
    (c : Library) (str : ℕ → String) (g : Generated) (now : ℕ) (req : SignupRequest) (s : Store)
    → verify c req.password (hash c req.password) ≡ true
    → IsFresh g s
    → IsOk (signup c str g now req s).1
    → ((session : String) (later : ℕ) (code : Option String)
        → (login c session later
            (record { email = req.email; password = req.password; mfa_code = code })
            (signup c str g now req s).0.accounts).1
          ≡ ok session)
      × ((later : ℕ) (p : String)
          → is_allowed
              (load_user_permissions later g.user_id g.tenant_id
                (signup c str g now req s).0.rbac).1
              p
            ≡ true)
unfolding signup
signup_opens c str g now req s law new h =
    let after = on_password-Entered c str g now req s (validate_password c req.password) h in
    (
      λ session later code.
          subst
            (λ d.
              (login c session later
                (record { email = req.email; password = req.password; mfa_code = code }) d).1
              ≡ ok session)
            (sym after.1) (signed_up-login c str g now req s session later code law new after.0),
      all_allowed c str g s _ new after.2,
    )
