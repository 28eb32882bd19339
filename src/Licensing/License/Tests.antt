-- ===== src/Licensing/License/Tests.antt =====
-- A model of the cryptography in which the functions are concrete, and runs at concrete inputs.
use dgraphai.Licensing.License.{
  License, check_feature, day, days_until_expiry, developer_license, is_expired, is_in_grace_period,
  is_valid, self_hosted,
}
use dgraphai.Licensing.License.Payload.{
  Iso, Payload, license_to_payload, license_type_of, payload_to_license, value,
}
use dgraphai.Licensing.License.Payload.Roundtrip.{payload_to_license-license_to_payload}
use dgraphai.Licensing.License.Trust.{
  Accepted, answer, verify_license-sign_license, verify_license_sound,
}
use dgraphai.Licensing.License.Validity.{is_valid-antitone, is_valid_lem}
use dgraphai.Licensing.License.Verify.{
  Crypto, CryptoLaws, Matches, bound_elsewhere, key_accepts, ok, open_file, read_license,
  sign_license, signed_file, verify_license,
}
use dgraphai.Prelude.{
  Bool, Option, [], arith, false, leb, none, not, refl, some, true, ℕ, ◌*◌, ◌+◌, ◌==◌, ◌||◌, ◌∷◌,
  ◌≡◌,
}

pub data Blob : Type 0 where
  payload : Payload ℕ → Blob
  file : Blob → Blob → Blob
  signature : ℕ → Blob → Blob
  pem : ℕ → Blob

abbrev pub plain_iso : Iso
plain_iso = record { D = ℕ; isoformat = λ t. t; fromisoformat = some; non_empty = λ t. true }

abbrev read_payload : Blob → Option (Payload ℕ)
read_payload (payload p) = some p
read_payload _ = none

abbrev read_file : Blob → Option (Blob × Blob)
read_file (file p s) = some (p, s)
read_file _ = none

abbrev read_key : Blob → Option ℕ
read_key (pem k) = some k
read_key _ = none

-- a signature is the key and the signed text; only the key is compared
abbrev signed_by : ℕ → Blob → Blob → Bool
signed_by k (signature j b) message = k == j
signed_by k _ message = false

abbrev pub plain : Crypto
plain = record {
  iso = plain_iso;
  Text = Blob;
  Bytes = Blob;
  PrivateKey = ℕ;
  PublicKey = ℕ;
  b64encode = λ b. b;
  b64decode = some;
  dump_payload = payload;
  load_payload = read_payload;
  dump_file = file;
  load_file = read_file;
  load_private_key = read_key;
  load_public_key = read_key;
  sign = signature;
  verify = signed_by;
}

pub plain_laws : CryptoLaws plain
plain_laws = record {
  iso_laws = record { from-iso = λ t. refl; iso-non_empty = λ t. refl };
  decode-encode = λ b. refl;
  load-dump_payload = λ p. refl;
  load-dump_file = λ s t. refl;
}

pub key_seven : Matches plain (pem 7) (pem 7)
key_seven = record {
  private_key = 7;
  public_key = 7;
  loads_private = refl;
  loads_public = refl;
  accepts = λ b. refl;
}

abbrev acme : License
acme = record (developer_license 1000) {
  issued_to = "Acme";
  license_type = self_hosted;
  expires_at = some (2000 * day);
  grace_period_days = 14;
  hardware_fingerprint = some "f00d";
}

last_day_of_grace : (is_valid (2014 * day) acme ≡ true) × (is_valid (2014 * day + 1) acme ≡ false)
unfolding is_valid
last_day_of_grace = (refl, refl)

ten_days_left : days_until_expiry (1990 * day) acme ≡ some 10
unfolding days_until_expiry
ten_days_left = refl

has_no_sso : (check_feature acme "sso_oidc" ≡ false) × (check_feature acme "scanner_agents" ≡ true)
unfolding check_feature
has_no_sso = (refl, refl)

accepted :
    verify_license plain (pem 3 ∷ pem 7 ∷ []) "f00d" (2010 * day) (signed_file plain acme 7)
    ≡ ok acme
unfolding verify_license open_file key_accepts read_license bound_elsewhere signed_file
    license_to_payload payload_to_license license_type_of value is_valid
accepted = refl

is_valid_lem_run :
    (is_valid 5 acme ≡ leb 5 (2000 * day + 14 * day))
    × (is_valid 5 acme ≡ (not (is_expired 5 acme) || is_in_grace_period 5 acme))
is_valid_lem_run = is_valid_lem 5 acme

is_valid-antitone_run : is_valid 5 acme ≡ true
unfolding is_valid
is_valid-antitone_run = is_valid-antitone 5 (2014 * day) acme (omega arith) refl

payload_to_license-license_to_payload_run :
    payload_to_license plain_iso (license_to_payload plain_iso acme) ≡ some acme
payload_to_license-license_to_payload_run =
    payload_to_license-license_to_payload plain_iso
      (record { from-iso = λ t. refl; iso-non_empty = λ t. refl }) acme

verify_license_sound_example :
    (p s : Blob) × (open_file plain (signed_file plain acme 7) ≡ some (p, s))
    × Accepted plain (pem 3 ∷ pem 7 ∷ []) s p
    × (read_license plain p ≡ some acme)
    × (bound_elsewhere plain "f00d" acme ≡ false)
    × (is_valid (2010 * day) acme ≡ true)
verify_license_sound_example =
    verify_license_sound plain (pem 3 ∷ pem 7 ∷ []) "f00d" (2010 * day) (signed_file plain acme 7)
      acme accepted

verify_license-sign_license_example :
    (f : Blob) × (sign_license plain acme (pem 7) ≡ some f)
    × (verify_license plain (pem 3 ∷ pem 7 ∷ []) "beef" 5 f ≡ answer plain "beef" 5 acme)
verify_license-sign_license_example =
    verify_license-sign_license plain plain_laws (pem 3 ∷ []) [] (pem 7) (pem 7) key_seven "beef" 5
      acme
