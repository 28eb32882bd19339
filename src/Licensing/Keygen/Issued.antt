-- ===== src/Licensing/Keygen/Issued.antt =====
-- How long, and where, issued licences verify.
use dgraphai.Licensing.Keygen.{
  Request, air_gapped_request, issue_air_gapped, issue_license, issue_trial, issued_license,
  trial_request,
}
use dgraphai.Licensing.License.{License, LicenseType, air_gapped, day, is_valid, trial}
use dgraphai.Licensing.License.Payload.{license_type_of}
use dgraphai.Licensing.License.Trust.{answer, verify_license-sign_license}
use dgraphai.Licensing.License.Verify.{
  Crypto, CryptoLaws, Matches, Result, bound_elsewhere, err, expired, ok, other_machine,
  verify_license,
}
use dgraphai.Prelude.{
  Bool, List, String, arith, eq_iff, if◌then◌else◌, leb, not, refl, some, str_eq, ℕ, ◌*◌, ◌++◌, ◌+◌,
  ◌||◌, ◌∙◌, ◌∷◌, ◌≡◌, ◌≢◌,
}

module _ (c : Crypto) (laws : CryptoLaws c) (older newer : List c.Text)
    (public_pem private_pem : c.Text) (m : Matches c public_pem private_pem) (license_id : String)
    (now : ℕ) where
  issued :
      (r : Request) (t : LicenseType)
      → license_type_of r.license_type ≡ some t
      → (current_fp : String) (later : ℕ) (expected : Result License)
      → answer c current_fp later (issued_license license_id now r t) ≡ expected
      → (file : c.Text) × (issue_license c license_id now private_pem r ≡ some file)
        × (verify_license c (older ++ public_pem ∷ newer) current_fp later file ≡ expected)
  unfolding issue_license
  issued r t e current_fp later expected h =
      let l = issued_license license_id now r t in
      let (file, signed, verified) =
        verify_license-sign_license c laws older newer public_pem private_pem m current_fp later
          l in
      (file, ground arith, verified ∙ h)

  trial_answer :
      (email company current_fp : String) (later : ℕ)
      → answer c current_fp later
          (issued_license license_id now (trial_request email company) trial)
        ≡ (if leb later (now + 17 * day)
            then ok (issued_license license_id now (trial_request email company) trial)
            else err expired)
  unfolding is_valid bound_elsewhere issued_license
  trial_answer email company current_fp later = ground arith

  -- A trial licence verifies on every machine for exactly 17 days from its issue, 14 of the trial
  -- and 3 of grace; from then on it is refused as expired. What is returned is the licence that was
  -- issued.
  pub issue_trial-verifies :
      (email company current_fp : String) (later : ℕ)
      → (file : c.Text) × (issue_trial c license_id now private_pem email company ≡ some file)
        × (verify_license c (older ++ public_pem ∷ newer) current_fp later file ≡ (
            if leb later (now + 17 * day)
            then ok (issued_license license_id now (trial_request email company) trial)
            else err expired))
  unfolding issue_trial
  issue_trial-verifies email company current_fp later =
      issued (trial_request email company) trial (unfold license_type_of in refl) current_fp later _
        (trial_answer email company current_fp later)

  air_gapped_answer :
      (email company fp current_fp : String) (bind : Bool) (later : ℕ)
      → fp ≢ ""
      → answer c current_fp later
          (issued_license license_id now (air_gapped_request email company bind fp) air_gapped)
        ≡ (if not bind || str_eq current_fp fp
            then ok (
                issued_license license_id now (air_gapped_request email company bind fp) air_gapped)
            else err other_machine)
  unfolding is_valid bound_elsewhere issued_license
  air_gapped_answer email company fp current_fp bind later h = ground (arith, eq_iff fp "")

  -- An air-gapped licence never expires. Bound to the issuing machine, whose fingerprint is not
  -- empty, it verifies on that machine at every time and on no other; not bound, it verifies
  -- everywhere. What is returned is the licence that was issued.
  pub issue_air_gapped-verifies :
      (email company fp current_fp : String) (bind : Bool) (later : ℕ)
      → fp ≢ ""
      → (file : c.Text) × (issue_air_gapped c license_id now private_pem email company bind fp
          ≡ some file)
        × (verify_license c (older ++ public_pem ∷ newer) current_fp later file ≡ (
            if not bind || str_eq current_fp fp
            then ok (
                issued_license license_id now (air_gapped_request email company bind fp) air_gapped)
            else err other_machine))
  unfolding issue_air_gapped
  issue_air_gapped-verifies email company fp current_fp bind later h =
      issued (air_gapped_request email company bind fp) air_gapped (unfold license_type_of in refl)
        current_fp later _ (air_gapped_answer email company fp current_fp bind later h)
