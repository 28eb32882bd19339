-- ===== src/Schedule/Tests.antt =====
-- Runs of the schedule handlers at concrete inputs.
use dgraphai.Prelude.{[], refl, ◌∷◌}
use dgraphai.Schedule.{Connector, State, set_scan_schedule}
use dgraphai.Schedule.Agreement.{IsScheduled, set_scan_schedule-IsScheduled}
use dgraphai.Auth.Login.Access.{IsOk}

abbrev nas : Connector
nas = record { id = "c1"; tenant_id = "acme"; name = "NAS"; config = [] }

abbrev state : State
state = record {
  connectors = nas ∷ [];
  beat =
      ("scan-connector-c1", record { schedule = 3600; tenant_id = "acme"; connector_id = "c1" })
      ∷ [];
  queue = [];
}

manual-IsOk : IsOk (set_scan_schedule "c1" "manual" "acme" state).1
unfolding set_scan_schedule
manual-IsOk = tt

set_scan_schedule-IsScheduled_example :
    IsScheduled "c1" "acme" "manual" state (set_scan_schedule "c1" "manual" "acme" state).0
set_scan_schedule-IsScheduled_example =
    set_scan_schedule-IsScheduled "c1" "acme" "manual" state (refl, tt) manual-IsOk
