-- ===== src/Tenancy/Invites/Entry.antt =====
-- What an accepted invitation gives.
use dgraphai.Auth.Account.{unused}
use dgraphai.Prelude.{◌+◌}
use dgraphai.Tenancy.Invites.{
  InviteRequest, invite_user, may_invite, member, new_invite, seven_days,
}
use dgraphai.Tenancy.Model.{AuthContext}
use dgraphai.Prelude.{Option, false, if◌then◌else◌, ltb, ◌≤◌}
use dgraphai.Tenancy.Invites.{AcceptInviteRequest, accept_invite, join_tenant, joined, on_invite}
use dgraphai.Tenancy.Model.{Store, with_roles}
use dgraphai.Prelude.{
  All, Bool, List, String, [], arith, eq_iff, find, keep, none, refl, some, true, ℕ, ◌++◌, ◌∷◌, ◌≡◌,
  ◌≢◌,
}
use dgraphai.Tenancy.Invites.{pending, use_invite}
use dgraphai.Tenancy.Model.{UserInvite}
use dgraphai.Auth.Login.Access.{IsOk}
use dgraphai.Auth.Model.{http_exception, Library, Reply, get_db, ok}
use dgraphai.Auth.Passwords.{validate_password}
use dgraphai.Rbac.Assign.{assign_builtin_role, named}
use dgraphai.Rbac.Assign.Effect.{assign_builtin_role-allowed}
use dgraphai.Rbac.Permissions.{builtin, is_allowed, load_user_permissions}
use dgraphai.Rbac.Permissions.{Db as Roles}

use_invite-pending :
    (now : ℕ) (h : String) (xs : List UserInvite) → find (pending h) (use_invite now h xs) ≡ none
use_invite-pending now h [] = refl
use_invite-pending now h (x ∷ xs) = ground (arith, use_invite-pending now h xs)

pending-hash :
    (h : String) (xs : List UserInvite) (i : UserInvite)
    → find (pending h) xs ≡ some i
    → i.token_hash ≡ h
pending-hash h [] i e = ground arith
pending-hash h (x ∷ xs) i e = ground (arith, eq_iff x.token_hash h, pending-hash h xs i)

-- The invitation that a token finds, when it was not sent before.
find_invite :
    (h : String) (i : UserInvite) (xs : List UserInvite)
    → i.token_hash ≡ h
    → i.used_at ≡ none
    → All (λ x. x.token_hash ≢ h) xs
    → find (pending h) (xs ++ i ∷ []) ≡ some i
find_invite h i [] e u new = ground (arith, eq_iff i.token_hash h)
find_invite h i (x ∷ xs) e u new =
    ground (arith, eq_iff x.token_hash h, find_invite h i xs e u new.1)

module _ (c : Library) (user_id role_id : String) (now : ℕ) (req : AcceptInviteRequest)
    (s : Store) where
  -- What an accepted invitation leaves.
  abbrev pub Accepted : UserInvite → Store × Reply → Type 0
  Accepted i r =
      (r.0.accounts ≡ (joined c user_id role_id now req s i).accounts)
      × (r.0.invites ≡ use_invite now i.token_hash s.invites)
      × (assign_builtin_role role_id user_id i.tenant_id i.role s.rbac ≡ some r.0.rbac)
      × (ltb i.expires_at now ≡ false)

  with_roles-Accepted :
      (i : UserInvite) (m : Option Roles)
      → assign_builtin_role role_id user_id i.tenant_id i.role s.rbac ≡ m
      → ltb i.expires_at now ≡ false
      → IsOk (get_db s (with_roles (joined c user_id role_id now req s i) m (ok user_id))).1
      → Accepted i (get_db s (with_roles (joined c user_id role_id now req s i) m (ok user_id)))
  with_roles-Accepted i none e l h = elim h [ ]
  with_roles-Accepted i (some roles) e l h = (refl, refl, e, l)

  join_tenant-Accepted :
      (i : UserInvite) (detail : Option String)
      → ltb i.expires_at now ≡ false
      → IsOk (get_db s (join_tenant c user_id role_id now req s i detail)).1
      → Accepted i (get_db s (join_tenant c user_id role_id now req s i detail))
  join_tenant-Accepted i (some d) l h = elim h [ ]
  join_tenant-Accepted i none l h =
      with_roles-Accepted i (assign_builtin_role role_id user_id i.tenant_id i.role s.rbac) refl l h

  on_time :
      (i : UserInvite) (late : Bool)
      → ltb i.expires_at now ≡ late
      → IsOk
          (get_db s (
            if late
            then (s, http_exception 400 "Invalid or expired invitation")
            else join_tenant c user_id role_id now req s i (validate_password c req.password))).1
      → Accepted i (
          get_db s (
            if late
            then (s, http_exception 400 "Invalid or expired invitation")
            else join_tenant c user_id role_id now req s i (validate_password c req.password)))
  on_time i true l h = elim h [ ]
  on_time i false l h = join_tenant-Accepted i (validate_password c req.password) l h

  on_invite-Accepted :
      (o : Option UserInvite)
      → find (pending (c.hash_token req.token)) s.invites ≡ o
      → IsOk (get_db s (on_invite c user_id role_id now req s o)).1
      → (i : UserInvite) × (find (pending (c.hash_token req.token)) s.invites ≡ some i)
        × Accepted i (get_db s (on_invite c user_id role_id now req s o))
  on_invite-Accepted none e h = elim h [ ]
  on_invite-Accepted (some i) e h = (i, e, on_time i (ltb i.expires_at now) refl h)

  pub accept_invite-Accepted :
      IsOk (accept_invite c user_id role_id now req s).1
      → (i : UserInvite) × (find (pending (c.hash_token req.token)) s.invites ≡ some i)
        × Accepted i (accept_invite c user_id role_id now req s)
  unfolding accept_invite
  accept_invite-Accepted h =
      on_invite-Accepted (find (pending (c.hash_token req.token)) s.invites) refl h

late_not : (now t : ℕ) → now ≤ t → ltb t now ≡ false
late_not now t h = ground arith

pub same_invite : (a b : UserInvite) (o : Option UserInvite) → o ≡ some a → o ≡ some b → a ≡ b
same_invite a b o e f = cc

not_pending :
    (c : Library) (user_id role_id : String) (now : ℕ) (req : AcceptInviteRequest) (s : Store)
    → find (pending (c.hash_token req.token)) s.invites ≡ none
    → accept_invite c user_id role_id now req s
      ≡ (s, http_exception 400 "Invalid or expired invitation")
unfolding accept_invite
not_pending c user_id role_id now req s e = rw e refl

spent :
    (now : ℕ) (h : String) (i : UserInvite) (xs ys : List UserInvite)
    → find (pending h) xs ≡ some i
    → ys ≡ use_invite now i.token_hash xs
    → find (pending h) ys ≡ none
spent now h i xs ys e f = rw (f, pending-hash h xs i e) (use_invite-pending now h xs)

-- An invitation is accepted at most once: after an answer that is not a refusal, the same token is
-- refused, whatever password and name come with it, at any time, and nothing changes.
pub accepted_once :
    (c : Library) (user_id role_id : String) (now : ℕ) (req : AcceptInviteRequest) (s : Store)
    → IsOk (accept_invite c user_id role_id now req s).1
    → (user_id' role_id' : String) (later : ℕ) (again : AcceptInviteRequest)
    → again.token ≡ req.token
    → accept_invite c user_id' role_id' later again (accept_invite c user_id role_id now req s).0
      ≡ (
        (accept_invite c user_id role_id now req s).0,
        http_exception 400 "Invalid or expired invitation",
      )
accepted_once c user_id role_id now req s h user_id' role_id' later again e =
    let r = accept_invite-Accepted c user_id role_id now req s h in
    let gone = spent now (c.hash_token req.token) r.0 s.invites _ r.1 r.2.1 in
    not_pending c user_id' role_id' later again (accept_invite c user_id role_id now req s).0
      (rw e gone)

-- The holder of "users:write" or of "admin:*" invites someone who is no member yet, with a role that
-- the tenant does not have yet and a token that was not sent before; within seven days the invitation
-- is accepted with that token and a valid password, under new identifiers. Then it is answered, and
-- the new user is allowed, in the inviter's tenant and at any time, exactly what the built-in
-- permissions of the role allow, whatever the inviter is allowed.
pub invited_allowed :
    (c : Library) (token : String) (now : ℕ) (req : InviteRequest) (auth : AuthContext) (s : Store)
    (user_id role_id : String) (later : ℕ) (password name : String)
    → may_invite auth ≡ true
    → keep (member req.email auth.tenant_id) s.accounts.users ≡ []
    → All (λ i. i.token_hash ≢ c.hash_token token) s.invites
    → later ≤ now + seven_days
    → validate_password c password ≡ none
    → named auth.tenant_id req.role s.rbac.roles ≡ []
    → All (λ r. r.id ≢ role_id) s.rbac.roles
    → All (λ a. a.user_id ≢ user_id) s.rbac.assignments
    → let (entered, reply) =
        accept_invite c user_id role_id later
          (record { token = token; password = password; name = name })
          (invite_user c token now req auth s).0 in
      (reply ≡ ok user_id)
      × ((at : ℕ) (p : String)
          → is_allowed (load_user_permissions at user_id auth.tenant_id entered.rbac).1 p
            ≡ is_allowed (builtin req.role) p)
unfolding invite_user accept_invite
invited_allowed c token now req auth s user_id role_id later password name may new unsent time valid
      free unused unassigned =
    let r =
      assign_builtin_role-allowed role_id user_id auth.tenant_id req.role s.rbac free unused
        unassigned in
    rw
      (
        may,
        new,
        find_invite (c.hash_token token) (new_invite c token now req auth) s.invites refl refl
            unsent,
        late_not later (now + seven_days) time,
        valid,
        r.1,
      )
      (refl, r.2)
