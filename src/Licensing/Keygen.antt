-- ===== src/Licensing/Keygen.antt =====
-- src/dgraphai/licensing/keygen.py: the licences that are issued. The new licence's identifier, the
-- time and the text of the private key file are arguments.
pub mod Issued
mod Tests
use dgraphai.Licensing.License.{LicenseType}
use dgraphai.Licensing.License.{License, LicenseFeatures, day, default_features, default_limits}
use dgraphai.Licensing.License.Payload.{license_type_of}
use dgraphai.Licensing.License.Verify.{Crypto, sign_license}
use dgraphai.Prelude.{
  Bool, List, Option, String, [], false, if◌then◌else◌, none, some, suc, true, zero, ℕ, ◌*◌, ◌+◌,
  ◌∷◌,
}
use dgraphai.Prelude.Int.{pos, ℤ}

-- an item of the dict `features`, which `setattr` writes; a name that is no feature is not signed
pub data Setting : Type 0 where
  graph_visualization saved_queries approval_workflows ai_training_export : Bool → Setting
  sso_oidc custom_roles audit_log_stream api_access compliance_reports : Bool → Setting
  scanner_agents : ℤ → Setting
  other : String → Setting

unfoldable pub set_feature : LicenseFeatures → Setting → LicenseFeatures
set_feature f (graph_visualization b) = record f { graph_visualization = b }
set_feature f (saved_queries b) = record f { saved_queries = b }
set_feature f (approval_workflows b) = record f { approval_workflows = b }
set_feature f (ai_training_export b) = record f { ai_training_export = b }
set_feature f (sso_oidc b) = record f { sso_oidc = b }
set_feature f (custom_roles b) = record f { custom_roles = b }
set_feature f (audit_log_stream b) = record f { audit_log_stream = b }
set_feature f (api_access b) = record f { api_access = b }
set_feature f (compliance_reports b) = record f { compliance_reports = b }
set_feature f (scanner_agents n) = record f { scanner_agents = n }
set_feature f (other name) = f

abbrev pub set_features : LicenseFeatures → List Setting → LicenseFeatures
set_features f [] = f
set_features f (s ∷ rest) = set_features (set_feature f s) rest

-- the arguments of `issue_license`
pub record Request : Type 0 where
  pub issued_to : String
  pub issued_to_email : String
  pub license_type : String
  pub expires_days : Option ℕ
  pub max_tenants : ℤ
  pub max_users : ℤ
  pub max_connectors : ℤ
  pub max_nodes : ℤ
  pub features : List Setting
  pub hardware_fingerprint : Option String
  pub grace_period_days : ℕ

-- `now + timedelta(days=expires_days) if expires_days else None`, for which 0 is false
unfoldable pub expiry : ℕ → Option ℕ → Option ℕ
expiry now none = none
expiry now (some zero) = none
expiry now (some (suc days)) = some (now + suc days * day)

-- the licence that `issue_license` signs
unfoldable pub issued_license : String → ℕ → Request → LicenseType → License
unfolding expiry set_feature
issued_license license_id now r license_type = record {
  license_id = license_id;
  issued_to = r.issued_to;
  issued_to_email = r.issued_to_email;
  license_type = license_type;
  issued_at = now;
  expires_at = expiry now r.expires_days;
  grace_period_days = r.grace_period_days;
  hardware_fingerprint = r.hardware_fingerprint;
  features = set_features default_features r.features;
  limits = record {
    max_tenants = r.max_tenants;
    max_users = r.max_users;
    max_connectors = r.max_connectors;
    max_nodes = r.max_nodes;
    max_exports = default_limits.max_exports;
  };
  metadata = [];
}

abbrev pub trial_request : String → String → Request
trial_request email company = record {
  issued_to = company;
  issued_to_email = email;
  license_type = "trial";
  expires_days = some 14;
  max_tenants = pos 1;
  max_users = pos 5;
  max_connectors = pos 2;
  max_nodes = pos 100000;
  grace_period_days = 3;
  hardware_fingerprint = none;
  features =
      graph_visualization true
      ∷ saved_queries true
      ∷ approval_workflows true
      ∷ scanner_agents (pos 1)
      ∷ ai_training_export true
      ∷ sso_oidc false
      ∷ custom_roles false
      ∷ audit_log_stream false
      ∷ api_access true
      ∷ compliance_reports false
      ∷ [];
}

-- `fp` is `get_hardware_fingerprint()` of the issuing machine.
abbrev pub air_gapped_request : String → String → Bool → String → Request
air_gapped_request email company bind_to_hardware fp = record {
  issued_to = company;
  issued_to_email = email;
  license_type = "air-gapped";
  expires_days = none;
  max_tenants = pos 1;
  max_users = pos 100;
  max_connectors = pos 20;
  max_nodes = pos 50000000;
  hardware_fingerprint = if bind_to_hardware then some fp else none;
  grace_period_days = 0;
  features =
      graph_visualization true
      ∷ saved_queries true
      ∷ approval_workflows true
      ∷ scanner_agents (pos 10)
      ∷ ai_training_export true
      ∷ sso_oidc true
      ∷ custom_roles true
      ∷ audit_log_stream true
      ∷ api_access true
      ∷ compliance_reports true
      ∷ [];
}

module _ (c : Crypto) (license_id : String) (now : ℕ) (private_key_pem : c.Text) where
  -- `none` is an exception: an unknown licence type, or a key that does not load.
  unfoldable pub issue_license : Request → Option c.Text
  issue_license r = elim (license_type_of r.license_type) [
    | none ↦ none
    | some t ↦ sign_license c (issued_license license_id now r t) private_key_pem
  ]

  unfoldable pub issue_trial : String → String → Option c.Text
  issue_trial email company = issue_license (trial_request email company)

  unfoldable pub issue_air_gapped : String → String → Bool → String → Option c.Text
  issue_air_gapped email company bind_to_hardware fp =
      issue_license (air_gapped_request email company bind_to_hardware fp)
