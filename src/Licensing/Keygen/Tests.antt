-- ===== src/Licensing/Keygen/Tests.antt =====
-- Issued licences at concrete inputs.
use dgraphai.Licensing.Keygen.{expiry, issue_air_gapped, issue_trial}
use dgraphai.Licensing.Keygen.Issued.{issue_air_gapped-verifies, issue_trial-verifies}
use dgraphai.Licensing.License.{day}
use dgraphai.Licensing.License.Tests.{Blob, key_seven, pem, plain, plain_laws}
use dgraphai.Licensing.License.Verify.{err, expired, other_machine, verify_license}
use dgraphai.Prelude.{[], none, refl, some, true, ◌*◌, ◌+◌, ◌∷◌, ◌≡◌}

perpetual_by_zero : expiry 5 (some 0) ≡ none
unfolding expiry
perpetual_by_zero = refl

issue_trial-verifies_run :
    (f : Blob) × (issue_trial plain "id" 100 (pem 7) "a@b.c" "Acme" ≡ some f)
    × (verify_license plain (pem 7 ∷ []) "beef" (101 + 17 * day) f ≡ err expired)
issue_trial-verifies_run =
    issue_trial-verifies plain plain_laws [] [] (pem 7) (pem 7) key_seven "id" 100 "a@b.c" "Acme"
      "beef" (101 + 17 * day)

issue_air_gapped-verifies_run :
    (f : Blob) × (issue_air_gapped plain "id" 100 (pem 7) "a@b.c" "Acme" true "f00d" ≡ some f)
    × (verify_license plain (pem 7 ∷ []) "beef" 5000 f ≡ err other_machine)
issue_air_gapped-verifies_run =
    issue_air_gapped-verifies plain plain_laws [] [] (pem 7) (pem 7) key_seven "id" 100 "a@b.c"
      "Acme" "f00d" "beef" true 5000 (λ e. cc)
