-- ===== src/Licensing/License/Payload.antt =====
-- The payload of a licence file: the dict of `_license_to_payload`, which `_payload_to_license`
-- reads. A key that the reader looks up by `get` may be missing. `D` is the type of ISO 8601 texts.
pub mod Roundtrip
use dgraphai.Licensing.License.{
  License, LicenseFeatures, LicenseLimits, LicenseType, Scalar, air_gapped, default_features,
  default_limits, developer, saas, self_hosted, trial,
}
use dgraphai.Prelude.{◌>>=◌}
use dgraphai.Prelude.{
  Bool, List, Option, String, [], if◌then◌else◌, none, some, str_eq, true, ℕ, ◌≡◌,
}

-- The date functions of Python's `datetime`, and the truth value of a text.
pub record Iso : Type 1 where
  pub D : Type 0
  pub isoformat : ℕ → D
  pub fromisoformat : D → Option ℕ
  pub non_empty : D → Bool

-- `datetime.fromisoformat` reads what `isoformat` writes, which is no empty text.
pub record IsoLaws (iso : Iso) : Type 0 where
  pub from-iso : (t : ℕ) → iso.fromisoformat (iso.isoformat t) ≡ some t
  pub iso-non_empty : (t : ℕ) → iso.non_empty (iso.isoformat t) ≡ true

pub record Payload (D : Type 0) : Type 0 where
  pub license_id : String
  pub issued_to : String
  pub issued_to_email : String
  pub license_type : String
  pub issued_at : D
  pub expires_at : Option D
  pub grace_period_days : Option ℕ
  pub hardware_fingerprint : Option String
  pub features : Option LicenseFeatures
  pub limits : Option LicenseLimits
  pub metadata : Option (List (String × Scalar))

-- the values of the enum
unfoldable pub value : LicenseType → String
value saas = "saas"
value self_hosted = "self-hosted"
value air_gapped = "air-gapped"
value trial = "trial"
value developer = "developer"

-- `LicenseType(s)`, which raises `ValueError` for any other text
unfoldable pub license_type_of : String → Option LicenseType
license_type_of s =
    if str_eq s "saas"
    then some saas
    else if str_eq s "self-hosted"
    then some self_hosted
    else if str_eq s "air-gapped"
    then some air_gapped
    else if str_eq s "trial"
    then some trial
    else if str_eq s "developer"
    then some developer
    else none

abbrev get_or {ℓ} : {A : Type ℓ} → Option A → A → A
get_or none d = d
get_or (some a) d = a

module _ (iso : Iso) where
  unfoldable pub license_to_payload : License → Payload iso.D
  license_to_payload l = record {
    license_id = l.license_id;
    issued_to = l.issued_to;
    issued_to_email = l.issued_to_email;
    license_type = value l.license_type;
    issued_at = iso.isoformat l.issued_at;
    expires_at = elim l.expires_at [ none ↦ none | some t ↦ some (iso.isoformat t) ];
    grace_period_days = some l.grace_period_days;
    hardware_fingerprint = l.hardware_fingerprint;
    features = some l.features;
    limits = some l.limits;
    metadata = some l.metadata;
  }

  -- `datetime.fromisoformat(payload["expires_at"]) if payload.get("expires_at") else None`
  unfoldable pub read_expiry : Option iso.D → Option (Option ℕ)
  read_expiry none = some none
  read_expiry (some d) =
      if iso.non_empty d
      then (elim (iso.fromisoformat d) [ none ↦ none | some t ↦ some (some t) ])
      else some none

  -- `none` is an exception: an unknown licence type or a text that is no date.
  unfoldable pub payload_to_license : Payload iso.D → Option License
  unfolding read_expiry
  payload_to_license p = do
    license_type ← license_type_of p.license_type
    issued_at ← iso.fromisoformat p.issued_at
    expires_at ← read_expiry p.expires_at
    some (record {
      license_id = p.license_id;
      issued_to = p.issued_to;
      issued_to_email = p.issued_to_email;
      license_type = license_type;
      issued_at = issued_at;
      expires_at = expires_at;
      grace_period_days = get_or p.grace_period_days 14;
      hardware_fingerprint = p.hardware_fingerprint;
      features = get_or p.features default_features;
      limits = get_or p.limits default_limits;
      metadata = get_or p.metadata [];
    })
