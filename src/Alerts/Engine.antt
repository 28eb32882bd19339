-- ===== src/Alerts/Engine.antt =====
-- `AlertEngine.evaluate_rule` and `deliver`. Times are seconds. The rows are of any type, and the
-- Jinja template with its summary is a function of the rule and the rows.
pub mod Firing
use dgraphai.Prelude.{
  Bool, List, Option, String, [], false, if◌then◌else◌, length, ltb, none, some, suc, take, zero, ℕ,
  ◌*◌, ◌+◌, ◌∷◌,
}

pub data ChannelType : Type 0 where
  webhook slack email pagerduty siem unknown : ChannelType

pub record AlertRule : Type 0 where
  pub id : String
  pub name : String
  pub severity : String
  pub threshold_count : Option ℕ
  pub last_fired_at : Option ℕ
  pub channels : List ChannelType
  pub suppress_until : Option ℕ
  pub cooldown_minutes : Option ℕ

pub record Alert (Row : Type 0) : Type 0 where
  pub rule_id : String
  pub severity : String
  pub title : String
  pub message : String
  pub rows : List Row
  pub total : ℕ
  pub row_count : ℕ

-- `n or default`
abbrev pub or_default : Option ℕ → ℕ → ℕ
or_default none default = default
or_default (some zero) default = default
or_default (some (suc n)) default = suc n

-- fired less than the cooldown ago; a time that is not before `now` is in it too
abbrev pub cooling : ℕ → AlertRule → Bool
cooling now rule = elim rule.last_fired_at [
  | none ↦ false
  | some t ↦ ltb now (t + or_default rule.cooldown_minutes 60 * 60)
]

abbrev pub is_suppressed : ℕ → AlertRule → Bool
is_suppressed now rule = elim rule.suppress_until [ none ↦ false | some t ↦ ltb now t ]

module _ {Row : Type 0} (render : AlertRule → List Row → String) where
  abbrev pub on_rows : AlertRule → Option (List Row) → Option (Alert Row)
  on_rows rule none = none
  on_rows rule (some rows) =
      if ltb (length rows) (or_default rule.threshold_count 1)
      then none
      else some (record {
        rule_id = rule.id;
        severity = rule.severity;
        title = rule.name;
        message = render rule rows;
        rows = take 50 rows;
        total = length rows;
        row_count = length rows;
      })

  -- the rows that the query gives, or `none` where it raises
  unfoldable pub evaluate_rule : ℕ → AlertRule → Option (List Row) → Option (Alert Row)
  evaluate_rule now rule result =
      if cooling now rule
      then none
      else if is_suppressed now rule
      then none
      else on_rows rule result

-- the channels that get the alert: one that raises is passed over, an unknown one does nothing
unfoldable pub deliver : (ChannelType → Bool) → List ChannelType → List ChannelType
deliver raises [] = []
deliver raises (unknown ∷ rest) = deliver raises rest
deliver raises (c ∷ rest) = let later = deliver raises rest in if raises c then later else c ∷ later
