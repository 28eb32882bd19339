-- ===== src/Licensing/License/Validity.antt =====
-- When a licence is valid.
use dgraphai.Licensing.License.{License, day, is_expired, is_in_grace_period, is_valid}
use dgraphai.Prelude.{Bool, arith, leb, none, not, some, true, ℕ, ◌*◌, ◌+◌, ◌||◌, ◌≡◌, ◌≤◌}

-- A licence is valid exactly until its grace period ends: for ever if it has no expiry, and
-- otherwise up to and including the grace days after it. That is when it is not expired or is in
-- its grace period.
pub is_valid_lem :
    (now : ℕ) (l : License)
    → (is_valid now l ≡ elim l.expires_at as (λ _. Bool) [
      | none ↦ true
      | some expires ↦ leb now (expires + l.grace_period_days * day)
    ])
      × (is_valid now l ≡ (not (is_expired now l) || is_in_grace_period now l))
unfolding is_valid is_expired is_in_grace_period
is_valid_lem now l = ground arith

-- A licence that is valid at some time was valid at every earlier time.
pub is_valid-antitone :
    (now later : ℕ) (l : License) → now ≤ later → is_valid later l ≡ true → is_valid now l ≡ true
unfolding is_valid
is_valid-antitone now later l h v = ground arith
