-- ===== src/Alerts/Engine/Firing.antt =====
-- When a rule fires.
use dgraphai.Alerts.Engine.{AlertRule, cooling, evaluate_rule, is_suppressed, or_default}
use dgraphai.Prelude.{
  Bool, List, Option, String, arith, false, leb, length, none, not, some, true, ℕ, ◌&&◌, ◌≡◌,
}

abbrev pub fires : {A : Type 0} → Option A → Bool
fires none = false
fires (some a) = true

-- the query answered, with as many rows as the threshold
abbrev pub enough : {Row : Type 0} → AlertRule → Option (List Row) → Bool
enough rule none = false
enough rule (some rows) = leb (or_default rule.threshold_count 1) (length rows)

-- A rule fires exactly if it is not in its cooldown, not suppressed, and its query answers with at
-- least as many rows as the threshold.
pub evaluate_rule_lem :
    {Row : Type 0} (render : AlertRule → List Row → String) (now : ℕ) (rule : AlertRule)
    (result : Option (List Row))
    → fires (evaluate_rule render now rule result)
      ≡ (not (cooling now rule) && not (is_suppressed now rule) && enough rule result)
unfolding evaluate_rule
evaluate_rule_lem render now rule none = ground arith
evaluate_rule_lem render now rule (some rows) = ground arith
