-- ===== src/Billing/Metering.antt =====
-- Snapshots and plans. Costs and percentages of them are floats, and are not modelled.
pub mod Discount
use dgraphai.Prelude.{
  Bool, List, String, [], if◌then◌else◌, leb, ltb, ℕ, ◌&&◌, ◌*◌, ◌+◌, ◌-◌, ◌==◌, ◌||◌, ◌∷◌,
}
use dgraphai.Prelude.Int.{ℤ}

-- The counts that the cost is computed from.
pub record UsageSnapshot : Type 0 where
  pub standard_nodes : ℕ
  pub enrichable_nodes : ℕ
  pub ai_enriched_nodes : ℕ
  pub identified_people : ℕ
  pub unknown_people : ℕ
  pub billed_relationships : ℕ
  pub free_relationships : ℕ

abbrev pub total_nodes : UsageSnapshot → ℕ
total_nodes s =
    s.standard_nodes + s.enrichable_nodes + s.ai_enriched_nodes + s.identified_people
    + s.unknown_people

-- A feature is a flag, or for `scanner_agents` a number.
pub data Feature : Type 0 where
  flag : Bool → Feature
  limit : ℤ → Feature

-- Percentages and the base fee, in dollars, are whole numbers in each plan.
pub record BillingPlan : Type 0 where
  pub id : String
  pub name : String
  pub base_monthly_fee : ℕ
  pub included_standard_nodes : ℤ
  pub included_enrichable_nodes : ℤ
  pub included_ai_enriched_nodes : ℤ
  pub included_relationships : ℤ
  pub volume_discount_tiers : List (ℕ × ℕ)
  pub features : List (String × Feature)

-- Python's order of pairs
abbrev pub tier_leb : ℕ × ℕ → ℕ × ℕ → Bool
tier_leb (t, d) (u, e) = ltb t u || t == u && leb d e

abbrev pub insert_reverse : ℕ × ℕ → List (ℕ × ℕ) → List (ℕ × ℕ)
insert_reverse x [] = x ∷ []
insert_reverse x (y ∷ ys) =
    let rest = insert_reverse x ys in if tier_leb y x then x ∷ y ∷ ys else y ∷ rest

-- `sorted(xs, reverse=True)`
abbrev pub sorted_reverse : List (ℕ × ℕ) → List (ℕ × ℕ)
sorted_reverse [] = []
sorted_reverse (x ∷ xs) = insert_reverse x (sorted_reverse xs)

-- the loop with its break
abbrev pub first_reached : ℕ → List (ℕ × ℕ) → ℕ
first_reached n [] = 0
first_reached n ((t, d) ∷ rest) = if leb t n then d else first_reached n rest

unfoldable pub volume_discount_pct : BillingPlan → ℕ → ℕ
volume_discount_pct plan n = first_reached n (sorted_reverse plan.volume_discount_tiers)
