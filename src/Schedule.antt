-- ===== src/Schedule.antt =====
-- The scan schedules of connectors (src/dgraphai/api/scan_schedule.py): a connector's row, and the
-- schedule of Celery Beat, a dictionary. Celery is taken to run, since the handlers pass over its
-- failures; the queue of tasks is a list.
pub mod Agreement
mod Tests
use dgraphai.Prelude.{
  Bool, List, Option, String, [], find, if◌then◌else◌, none, some, str_eq, update_where, ℕ, ◌&&◌,
  ◌++◌, ◌∷◌,
}
use dgraphai.Prelude.Dict.{insert, lookup}
use dgraphai.Auth.Model.{Reply, get_db, http_exception, ok}
use Prim.Native.String.{◌++◌ as append}

pub data ConfigValue : Type 0 where
  text_value : String → ConfigValue
  number_value : ℕ → ConfigValue
  null_value : ConfigValue

pub record Connector : Type 0 where
  pub id : String
  pub tenant_id : String
  pub name : String
  pub config : List (String × ConfigValue)

-- an entry of `beat_schedule`, whose task and queue are constants
pub record BeatEntry : Type 0 where
  pub schedule : ℕ
  pub tenant_id : String
  pub connector_id : String

pub record State : Type 0 where
  pub connectors : List Connector
  pub beat : List (String × BeatEntry)
  pub queue : List (String × String)

abbrev pub valid_schedules : List (String × Option ℕ)
valid_schedules =
    ("manual", none)
    ∷ ("1h", some 3600)
    ∷ ("6h", some 21600)
    ∷ ("12h", some 43200)
    ∷ ("24h", some 86400)
    ∷ ("48h", some 172800)
    ∷ ("weekly", some 604800)
    ∷ []

abbrev pub schedule_name : String → String
schedule_name connector_id = append "scan-connector-" connector_id

-- `d.pop(k, None)`
abbrev pub remove_key : String → List (String × BeatEntry) → List (String × BeatEntry)
remove_key k [] = []
remove_key k ((j, v) ∷ d) = let rest = remove_key k d in if str_eq k j then d else (j, v) ∷ rest

-- `_register_celery_schedule` for a number of seconds, `_unregister_celery_schedule` without one
unfoldable pub register :
    String → String → Option ℕ → List (String × BeatEntry) → List (String × BeatEntry)
register connector_id tenant_id none beat = remove_key (schedule_name connector_id) beat
register connector_id tenant_id (some seconds) beat =
    insert (schedule_name connector_id)
      (record { schedule = seconds; tenant_id = tenant_id; connector_id = connector_id }) beat

abbrev pub is_own : String → String → Connector → Bool
is_own connector_id tenant_id x = str_eq x.id connector_id && str_eq x.tenant_id tenant_id

abbrev pub interval_value : Option ℕ → ConfigValue
interval_value none = null_value
interval_value (some seconds) = number_value seconds

abbrev pub with_schedule : String → Option ℕ → Connector → Connector
with_schedule schedule interval x = record x {
  config =
      insert "scan_interval_seconds" (interval_value interval)
        (insert "scan_schedule" (text_value schedule) x.config);
}

abbrev pub on_connector :
    String → String → Option ℕ → String → State → Option Connector → State × Reply
on_connector connector_id schedule interval tenant_id s none =
    (s, http_exception 404 "Connector not found")
on_connector connector_id schedule interval tenant_id s (some x) = (
  record s {
    connectors =
        update_where (is_own connector_id tenant_id) (with_schedule schedule interval) s.connectors;
    beat = register connector_id tenant_id interval s.beat;
  },
  ok schedule,
)

abbrev pub on_schedule : String → String → String → State → Option (Option ℕ) → State × Reply
on_schedule connector_id schedule tenant_id s none = (s, http_exception 400 "Invalid schedule.")
on_schedule connector_id schedule tenant_id s (some interval) =
    on_connector connector_id schedule interval tenant_id s
      (find (is_own connector_id tenant_id) s.connectors)

unfoldable pub set_scan_schedule : String → String → String → State → State × Reply
set_scan_schedule connector_id schedule tenant_id s =
    get_db s (on_schedule connector_id schedule tenant_id s (lookup schedule valid_schedules))

unfoldable pub trigger_manual_scan : String → String → State → State × Reply
trigger_manual_scan connector_id tenant_id s =
    get_db s (elim (find (is_own connector_id tenant_id) s.connectors) [
      | none ↦ (s, http_exception 404 "Connector not found")
      | some x ↦ (record s { queue = s.queue ++ (tenant_id, connector_id) ∷ [] }, ok "queued")
    ])
