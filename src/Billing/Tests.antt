-- ===== src/Billing/Tests.antt =====
-- Bills at concrete snapshots.
use dgraphai.Billing.Metering.{UsageSnapshot, total_nodes, volume_discount_pct}
use dgraphai.Billing.Metering.Discount.{IsDiscount, volume_discount_pct_lem}
use dgraphai.Billing.Plans.{get_plan}
use dgraphai.Prelude.{refl, ◌≡◌}

abbrev snapshot : UsageSnapshot
snapshot = record {
  standard_nodes = 40000;
  enrichable_nodes = 2000;
  ai_enriched_nodes = 500;
  identified_people = 10;
  unknown_people = 7;
  billed_relationships = 90000;
  free_relationships = 4;
}

volume_discount_pct_lem_example :
    IsDiscount
      (get_plan "business").volume_discount_tiers
      20000000
      (volume_discount_pct (get_plan "business") 20000000)
volume_discount_pct_lem_example = volume_discount_pct_lem (get_plan "business") 20000000

all_counted : total_nodes snapshot ≡ 42517
all_counted = refl

twenty_per_cent : volume_discount_pct (get_plan "business") 20000000 ≡ 20
unfolding get_plan volume_discount_pct
twenty_per_cent = refl
