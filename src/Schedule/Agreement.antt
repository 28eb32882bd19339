-- ===== src/Schedule/Agreement.antt =====
-- The row of a connector and the schedule of Celery Beat say the same.
use dgraphai.Prelude.{
  All, Bool, List, Option, String, [], arith, eq_iff, eq_refl, false, find, if◌then◌else◌, inl, inr,
  none, refl, some, true, update_where, ℕ, ◌∙◌, ◌∷◌, ◌≡◌, ◌≢◌, ◌⊎◌,
}
use dgraphai.Schedule.{
  BeatEntry, Connector, State, interval_value, is_own, on_connector, on_schedule, register,
  remove_key, schedule_name, set_scan_schedule, text_value, valid_schedules, with_schedule,
}
use dgraphai.Auth.Model.{get_db}
use dgraphai.Auth.Login.Access.{IsOk}
use dgraphai.Prelude.Dict.{insert, lookup, lookup-insert}
use text.Mathlib.TextLemmas.{append_cancel_left}

-- The entry that an interval stands for.
abbrev pub entry_of : String → String → Option ℕ → Option BeatEntry
entry_of connector_id tenant_id none = none
entry_of connector_id tenant_id (some seconds) =
    some (record { schedule = seconds; tenant_id = tenant_id; connector_id = connector_id })

-- No two entries of a dictionary have one key.
abbrev pub HasDistinctKeys : List (String × BeatEntry) → Type 0
HasDistinctKeys [] = Unit
HasDistinctKeys ((k, v) ∷ d) = (lookup k d ≡ none) × HasDistinctKeys d

lookup-remove_own :
    (k : String) (d : List (String × BeatEntry))
    → HasDistinctKeys d
    → lookup k (remove_key k d) ≡ none
lookup-remove_own k [] h = refl
lookup-remove_own k ((j, v) ∷ d) h = ground (arith, eq_iff k j, lookup-remove_own k d h.1, h.0)

lookup-remove_other :
    (k j : String) (d : List (String × BeatEntry)) → j ≢ k → lookup j (remove_key k d) ≡ lookup j d
lookup-remove_other k j [] h = refl
lookup-remove_other k j ((i, v) ∷ d) h =
    ground (arith, eq_iff k i, eq_iff j i, lookup-remove_other k j d h)

register_own :
    (id tenant_id : String) (interval : Option ℕ) (d : List (String × BeatEntry))
    → HasDistinctKeys d
    → lookup (schedule_name id) (register id tenant_id interval d) ≡ entry_of id tenant_id interval
unfolding register
register_own id tenant_id none d h = lookup-remove_own (schedule_name id) d h
register_own id tenant_id (some n) d h = ground (
  arith,
  lookup-insert (schedule_name id) (schedule_name id)
      (record { schedule = n; tenant_id = tenant_id; connector_id = id }) d,
  eq_refl (schedule_name id),
)

other_name : (id other : String) → other ≢ id → schedule_name other ≢ schedule_name id
other_name id other d e = d (append_cancel_left "scan-connector-" other id e)

register_other :
    (id other tenant_id : String) (interval : Option ℕ) (d : List (String × BeatEntry))
    → other ≢ id
    → lookup (schedule_name other) (register id tenant_id interval d)
      ≡ lookup (schedule_name other) d
unfolding register
register_other id other tenant_id none d h =
    lookup-remove_other (schedule_name id) (schedule_name other) d (other_name id other h)
register_other id other tenant_id (some n) d h = ground (
  arith,
  lookup-insert (schedule_name id) (schedule_name other)
      (record { schedule = n; tenant_id = tenant_id; connector_id = id }) d,
  eq_iff (schedule_name other) (schedule_name id),
  other_name id other h,
)

-- What a row has after its schedule is set.
abbrev pub Says : String → String → String → Option ℕ → Connector → Type 0
Says id tenant_id schedule interval x =
    (is_own id tenant_id x ≡ false)
    ⊎ ((lookup "scan_schedule" x.config ≡ some (text_value schedule))
        × (lookup "scan_interval_seconds" x.config ≡ some (interval_value interval)))

-- What holds after a schedule is set.
pub record IsScheduled (id tenant_id schedule : String) (before after : State) : Type 0 where
  pub interval : Option ℕ
  pub listed : lookup schedule valid_schedules ≡ some interval
  pub rows : All (Says id tenant_id schedule interval) after.connectors
  pub entry : lookup (schedule_name id) after.beat ≡ entry_of id tenant_id interval
  pub frame :
      (other : String)
      → other ≢ id
      → lookup (schedule_name other) after.beat ≡ lookup (schedule_name other) before.beat

with_schedule-Says :
    (id tenant_id schedule : String) (interval : Option ℕ) (x : Connector) (own : Bool)
    → is_own id tenant_id x ≡ own
    → Says id tenant_id schedule interval (if own then with_schedule schedule interval x else x)
with_schedule-Says id tenant_id schedule interval x false e = inl e
with_schedule-Says id tenant_id schedule interval x true e =
    let inner = insert "scan_schedule" (text_value schedule) x.config in
    inr (
      lookup-insert "scan_interval_seconds" "scan_schedule" (interval_value interval) inner
          ∙ lookup-insert "scan_schedule" "scan_schedule" (text_value schedule) x.config,
      lookup-insert "scan_interval_seconds" "scan_interval_seconds" (interval_value interval) inner,
    )

rows-Says :
    (id tenant_id schedule : String) (interval : Option ℕ) (xs : List Connector)
    → All
        (Says id tenant_id schedule interval)
        (update_where (is_own id tenant_id) (with_schedule schedule interval) xs)
rows-Says id tenant_id schedule interval [] = _
rows-Says id tenant_id schedule interval (x ∷ xs) = (
  with_schedule-Says id tenant_id schedule interval x (is_own id tenant_id x) refl,
  rows-Says id tenant_id schedule interval xs,
)

module _ (id tenant_id schedule : String) (s : State) (distinct : HasDistinctKeys s.beat) where
  on_connector-IsScheduled :
      (interval : Option ℕ) (o : Option Connector)
      → lookup schedule valid_schedules ≡ some interval
      → IsOk (get_db s (on_connector id schedule interval tenant_id s o)).1
      → IsScheduled id tenant_id schedule s
          (get_db s (on_connector id schedule interval tenant_id s o)).0
  on_connector-IsScheduled interval none e h = elim h [ ]
  on_connector-IsScheduled interval (some x) e h = record {
    interval = interval;
    listed = e;
    rows = rows-Says id tenant_id schedule interval s.connectors;
    entry = register_own id tenant_id interval s.beat distinct;
    frame = λ other d. register_other id other tenant_id interval s.beat d;
  }

  on_schedule-IsScheduled :
      (o : Option (Option ℕ))
      → lookup schedule valid_schedules ≡ o
      → IsOk (get_db s (on_schedule id schedule tenant_id s o)).1
      → IsScheduled id tenant_id schedule s (get_db s (on_schedule id schedule tenant_id s o)).0
  on_schedule-IsScheduled none e h = elim h [ ]
  on_schedule-IsScheduled (some interval) e h =
      on_connector-IsScheduled interval (find (is_own id tenant_id) s.connectors) e h

-- When the keys of Celery Beat are distinct and a schedule is set, not refused: it is a valid one, the
-- connector's row and Celery Beat both have its interval (no entry for a manual schedule), and the
-- entries of other connectors are as before.
pub set_scan_schedule-IsScheduled :
    (id tenant_id schedule : String) (s : State)
    → HasDistinctKeys s.beat
    → IsOk (set_scan_schedule id schedule tenant_id s).1
    → IsScheduled id tenant_id schedule s (set_scan_schedule id schedule tenant_id s).0
unfolding set_scan_schedule
set_scan_schedule-IsScheduled id tenant_id schedule s distinct h =
    on_schedule-IsScheduled id tenant_id schedule s distinct (lookup schedule valid_schedules) refl
      h
