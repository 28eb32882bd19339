-- ===== src/Licensing/License/Payload/Roundtrip.antt =====
-- Reading back what was written.
use dgraphai.Licensing.License.{
  License, LicenseType, air_gapped, developer, saas, self_hosted, trial,
}
use dgraphai.Licensing.License.Payload.{
  Iso, IsoLaws, license_to_payload, license_type_of, payload_to_license, value,
}
use dgraphai.Prelude.{Option-cases, arith, inl, inr, refl, some, ◌≡◌}

license_type_of-value : (t : LicenseType) → license_type_of (value t) ≡ some t
unfolding license_type_of value
license_type_of-value saas = refl
license_type_of-value self_hosted = refl
license_type_of-value air_gapped = refl
license_type_of-value trial = refl
license_type_of-value developer = refl

-- Every licence is read back from its payload as it was: all eleven fields, every licence type,
-- with an expiry and without.
pub payload_to_license-license_to_payload :
    (iso : Iso) (laws : IsoLaws iso) (l : License)
    → payload_to_license iso (license_to_payload iso l) ≡ some l
unfolding payload_to_license license_to_payload
payload_to_license-license_to_payload iso laws l = elim (Option-cases l.expires_at) [
  | inl perpetual ↦ ground (arith, license_type_of-value l.license_type, laws.from-iso l.issued_at)
  | inr (t, e) ↦ ground (
    arith,
    license_type_of-value l.license_type,
    laws.from-iso l.issued_at,
    laws.from-iso t,
    laws.iso-non_empty t,
  )
]
