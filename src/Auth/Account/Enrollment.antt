-- ===== src/Auth/Account/Enrollment.antt =====
-- What starting an enrollment does to a second factor that is active.
use dgraphai.Auth.Account.{enroll, enroll_mfa}
use dgraphai.Auth.Login.{mfa_of}
use dgraphai.Auth.Login.Access.{IsOk}
use dgraphai.Auth.Model.{Db, Library, MfaConfig}
use dgraphai.Prelude.{
  List, Option, Option-cases, String, [], arith, false, find, inl, inr, none, refl, some, str_eq,
  update_where, ℕ, ◌&&◌, ◌∷◌, ◌≡◌,
}

inactive_find :
    (id secret : String) (codes : List String) (ms : List MfaConfig)
    → find
        (λ m. mfa_of id m && m.is_active)
        (update_where
          (mfa_of id)
          (λ x. record x { secret = secret; backup_codes = codes; is_active = false })
          ms)
      ≡ none
inactive_find id secret codes [] = refl
inactive_find id secret codes (m ∷ ms) = ground (arith, inactive_find id secret codes ms)

none_active :
    (c : Library) (now : ℕ) (id secret : String) (codes : List String) (ms : List MfaConfig)
    → find (mfa_of id) ms ≡ none
    → find (λ m. mfa_of id m && m.is_active) (enroll c now id secret codes ms none) ≡ none
none_active c now id secret codes [] e = ground arith
none_active c now id secret codes (m ∷ ms) e = ground (arith, none_active c now id secret codes ms)

enroll-inactive :
    (c : Library) (now : ℕ) (id secret : String) (codes : List String) (ms : List MfaConfig)
    (m : Option MfaConfig)
    → find (mfa_of id) ms ≡ m
    → find (λ x. mfa_of id x && x.is_active) (enroll c now id secret codes ms m) ≡ none
enroll-inactive c now id secret codes ms none e = none_active c now id secret codes ms e
enroll-inactive c now id secret codes ms (some m) e = inactive_find id secret codes ms

-- When a user starts an enrollment, which takes no code, the user has no active second factor
-- afterwards, also when one was active before.
pub enroll_mfa-inactive :
    (c : Library) (now : ℕ) (id secret : String) (codes : List String) (d : Db)
    → IsOk (enroll_mfa c now id secret codes d).1
    → find (λ m. mfa_of id m && m.is_active) (enroll_mfa c now id secret codes d).0.mfa ≡ none
unfolding enroll_mfa
enroll_mfa-inactive c now id secret codes d h =
    elim (Option-cases (find (λ u. str_eq u.id id) d.users)) [
      | inl e ↦ ground arith
      | inr (u, e) ↦
          ground (arith, enroll-inactive c now id secret codes d.mfa (find (mfa_of id) d.mfa) refl)
    ]
