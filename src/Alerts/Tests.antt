-- ===== src/Alerts/Tests.antt =====
-- A rule at a concrete result.
use dgraphai.Alerts.Engine.{
  AlertRule, cooling, deliver, evaluate_rule, is_suppressed, siem, slack, unknown,
}
use dgraphai.Alerts.Engine.Firing.{enough, evaluate_rule_lem, fires}
use dgraphai.Prelude.{String, [], false, none, not, refl, some, true, ◌&&◌, ◌∷◌, ◌≡◌}

abbrev rule : AlertRule
rule = record {
  id = "r";
  name = "secrets";
  severity = "high";
  threshold_count = some 2;
  last_fired_at = some 1000;
  channels = slack ∷ unknown ∷ siem ∷ [];
  suppress_until = none;
  cooldown_minutes = some 0;
}

-- a cooldown of zero minutes counts as an hour
cooled_down : cooling 4599 rule ≡ true
cooled_down = refl

evaluate_rule_lem_run :
    fires (evaluate_rule {Row = String} (λ r rows. "") 4600 rule (some ("a" ∷ "b" ∷ []))) ≡ (
      not (cooling 4600 rule)
      && not (is_suppressed 4600 rule)
      && enough {Row = String} rule (some ("a" ∷ "b" ∷ [])))
evaluate_rule_lem_run =
    evaluate_rule_lem {Row = String} (λ r rows. "") 4600 rule (some ("a" ∷ "b" ∷ []))

delivered : deliver (λ c. false) rule.channels ≡ slack ∷ siem ∷ []
unfolding deliver
delivered = refl
