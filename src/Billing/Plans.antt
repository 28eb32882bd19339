-- ===== src/Billing/Plans.antt =====
-- The plans of the price list, and `get_plan`.
use dgraphai.Billing.Metering.{BillingPlan, Feature, flag, limit}
use dgraphai.Prelude.{Bool, List, String, [], false, none, some, true, ◌∷◌}
use dgraphai.Prelude.Dict.{lookup}
use dgraphai.Prelude.Int.{negsuc, pos, ℤ}

abbrev features : List (String × Bool) → ℤ → List (String × Feature)
features [] scanner_agents = ("scanner_agents", limit scanner_agents) ∷ []
features ((name, b) ∷ rest) scanner_agents = (name, flag b) ∷ features rest scanner_agents

abbrev starter : BillingPlan
starter = record {
  id = "starter";
  name = "Starter";
  base_monthly_fee = 0;
  included_standard_nodes = pos 50000;
  included_enrichable_nodes = pos 10000;
  included_ai_enriched_nodes = pos 0;
  included_relationships = pos 100000;
  volume_discount_tiers = [];
  features =
      features
        (("graph_visualization", true)
          ∷ ("saved_queries", true)
          ∷ ("approval_workflows", false)
          ∷ ("ai_enrichment", false)
          ∷ ("face_recognition", false)
          ∷ ("sso_oidc", false)
          ∷ ("custom_roles", false)
          ∷ ("audit_log_stream", false)
          ∷ ("api_access", false)
          ∷ ("compliance_reports", false)
          ∷ ("ai_training_export", false)
          ∷ [])
        (pos 1);
}

abbrev pro : BillingPlan
pro = record {
  id = "pro";
  name = "Pro";
  base_monthly_fee = 299;
  included_standard_nodes = pos 500000;
  included_enrichable_nodes = pos 200000;
  included_ai_enriched_nodes = pos 50000;
  included_relationships = pos 2000000;
  volume_discount_tiers = (1000000, 10) ∷ (5000000, 15) ∷ [];
  features =
      features
        (("graph_visualization", true)
          ∷ ("saved_queries", true)
          ∷ ("approval_workflows", true)
          ∷ ("ai_enrichment", true)
          ∷ ("face_recognition", false)
          ∷ ("sso_oidc", false)
          ∷ ("custom_roles", true)
          ∷ ("audit_log_stream", false)
          ∷ ("api_access", true)
          ∷ ("compliance_reports", true)
          ∷ ("ai_training_export", false)
          ∷ [])
        (pos 3);
}

abbrev business : BillingPlan
business = record {
  id = "business";
  name = "Business";
  base_monthly_fee = 999;
  included_standard_nodes = pos 5000000;
  included_enrichable_nodes = pos 2000000;
  included_ai_enriched_nodes = pos 500000;
  included_relationships = pos 20000000;
  volume_discount_tiers = (5000000, 15) ∷ (20000000, 20) ∷ (50000000, 25) ∷ [];
  features =
      features
        (("graph_visualization", true)
          ∷ ("saved_queries", true)
          ∷ ("approval_workflows", true)
          ∷ ("ai_enrichment", true)
          ∷ ("face_recognition", true)
          ∷ ("sso_oidc", true)
          ∷ ("custom_roles", true)
          ∷ ("audit_log_stream", true)
          ∷ ("api_access", true)
          ∷ ("compliance_reports", true)
          ∷ ("ai_training_export", false)
          ∷ [])
        (pos 10);
}

abbrev enterprise : BillingPlan
enterprise = record {
  id = "enterprise";
  name = "Enterprise";
  base_monthly_fee = 0;
  included_standard_nodes = negsuc 0;
  included_enrichable_nodes = negsuc 0;
  included_ai_enriched_nodes = negsuc 0;
  included_relationships = negsuc 0;
  volume_discount_tiers = (10000000, 20) ∷ (50000000, 30) ∷ (100000000, 40) ∷ [];
  features =
      features
        (("graph_visualization", true)
          ∷ ("saved_queries", true)
          ∷ ("approval_workflows", true)
          ∷ ("ai_enrichment", true)
          ∷ ("face_recognition", true)
          ∷ ("sso_oidc", true)
          ∷ ("custom_roles", true)
          ∷ ("audit_log_stream", true)
          ∷ ("api_access", true)
          ∷ ("compliance_reports", true)
          ∷ ("ai_training_export", true)
          ∷ [])
        (negsuc 0);
}

abbrev pub plans : List (String × BillingPlan)
plans =
    ("starter", starter) ∷ ("pro", pro) ∷ ("business", business) ∷ ("enterprise", enterprise) ∷ []

-- `PLANS.get(plan_id, PLANS["starter"])`
unfoldable pub get_plan : String → BillingPlan
get_plan plan_id = elim (lookup plan_id plans) [ none ↦ starter | some p ↦ p ]
