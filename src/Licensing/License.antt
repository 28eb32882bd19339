-- ===== src/Licensing/License.antt =====
-- src/dgraphai/licensing/license.py: the licence, its validity in time, and its payload.
-- Times are microseconds since the epoch, in UTC.
pub mod Validity
pub mod Payload
pub mod Verify
pub mod Trust
pub mod Tests
use dgraphai.Prelude.{
  Bool, List, Option, String, [], false, if◌then◌else◌, leb, ltb, none, not, some, str_eq, suc,
  true, zero, ℕ, ◌&&◌, ◌*◌, ◌+◌, ◌-◌, ◌/◌, ◌∷◌,
}
use dgraphai.Prelude.Int.{negsuc, pos, ℤ}

pub data LicenseType : Type 0 where
  saas self_hosted air_gapped trial developer : LicenseType

pub record LicenseFeatures : Type 0 where
  pub graph_visualization : Bool
  pub saved_queries : Bool
  pub approval_workflows : Bool
  pub scanner_agents : ℤ
  pub ai_training_export : Bool
  pub sso_oidc : Bool
  pub custom_roles : Bool
  pub audit_log_stream : Bool
  pub api_access : Bool
  pub compliance_reports : Bool

abbrev pub default_features : LicenseFeatures
default_features = record {
  graph_visualization = true;
  saved_queries = true;
  approval_workflows = true;
  scanner_agents = pos 1;
  ai_training_export = false;
  sso_oidc = false;
  custom_roles = false;
  audit_log_stream = false;
  api_access = true;
  compliance_reports = false;
}

pub record LicenseLimits : Type 0 where
  pub max_tenants : ℤ
  pub max_users : ℤ
  pub max_connectors : ℤ
  pub max_nodes : ℤ
  pub max_exports : ℤ

abbrev pub default_limits : LicenseLimits
default_limits = record {
  max_tenants = pos 1;
  max_users = pos 10;
  max_connectors = pos 3;
  max_nodes = pos 500000;
  max_exports = pos 10;
}

-- the values of the dict `metadata`
pub data Scalar : Type 0 where
  text : String → Scalar
  number : ℤ → Scalar
  flag : Bool → Scalar

pub record License : Type 0 where
  pub license_id : String
  pub issued_to : String
  pub issued_to_email : String
  pub license_type : LicenseType
  pub issued_at : ℕ
  pub expires_at : Option ℕ
  pub grace_period_days : ℕ
  pub hardware_fingerprint : Option String
  pub features : LicenseFeatures
  pub limits : LicenseLimits
  pub metadata : List (String × Scalar)

-- `timedelta(days=1)`
abbrev pub day : ℕ
day = 86400000000

unfoldable pub is_expired : ℕ → License → Bool
is_expired now l = elim l.expires_at [ none ↦ false | some expires ↦ ltb expires now ]

unfoldable pub is_in_grace_period : ℕ → License → Bool
is_in_grace_period now l = elim l.expires_at [
  | none ↦ false
  | some expires ↦ ltb expires now && leb now (expires + l.grace_period_days * day)
]

unfoldable pub is_valid : ℕ → License → Bool
unfolding is_expired is_in_grace_period
is_valid now l = elim l.expires_at [
  | none ↦ true
  | some expires ↦ if is_in_grace_period now l then true else not (is_expired now l)
]

-- `max(0, (expires - now).days)`: `timedelta.days` rounds down, and is negative after the expiry.
unfoldable pub days_until_expiry : ℕ → License → Option ℕ
days_until_expiry now l = elim l.expires_at [
  | none ↦ none
  | some expires ↦ some (if ltb expires now then 0 else (expires - now) / day)
]

-- `bool(n)`
abbrev truthy : ℤ → Bool
truthy (pos zero) = false
truthy (pos (suc n)) = true
truthy (negsuc n) = true

-- `bool(getattr(self.features, feature, False))`, for the names of the features
unfoldable pub check_feature : License → String → Bool
check_feature l feature =
    if str_eq feature "graph_visualization"
    then l.features.graph_visualization
    else if str_eq feature "saved_queries"
    then l.features.saved_queries
    else if str_eq feature "approval_workflows"
    then l.features.approval_workflows
    else if str_eq feature "scanner_agents"
    then truthy l.features.scanner_agents
    else if str_eq feature "ai_training_export"
    then l.features.ai_training_export
    else if str_eq feature "sso_oidc"
    then l.features.sso_oidc
    else if str_eq feature "custom_roles"
    then l.features.custom_roles
    else if str_eq feature "audit_log_stream"
    then l.features.audit_log_stream
    else if str_eq feature "api_access"
    then l.features.api_access
    else if str_eq feature "compliance_reports"
    then l.features.compliance_reports
    else false

abbrev pub developer_license : ℕ → License
developer_license now = record {
  license_id = "dev-local-00000000-0000-0000-0000-000000000000";
  issued_to = "Developer (local)";
  issued_to_email = "dev@localhost";
  license_type = developer;
  issued_at = now;
  expires_at = none;
  grace_period_days = 0;
  hardware_fingerprint = none;
  features = record {
    graph_visualization = true;
    saved_queries = true;
    approval_workflows = true;
    scanner_agents = pos 1;
    ai_training_export = true;
    sso_oidc = false;
    custom_roles = true;
    audit_log_stream = false;
    api_access = true;
    compliance_reports = false;
  };
  limits = record {
    max_tenants = pos 1;
    max_users = pos 5;
    max_connectors = pos 2;
    max_nodes = pos 100000;
    max_exports = pos 10;
  };
  metadata = ("dev_mode", flag true) ∷ [];
}
