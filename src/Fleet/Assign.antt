-- ===== src/Fleet/Assign.antt =====
-- The assignment of connectors to the agents of a fleet.
pub mod Members
use dgraphai.Prelude.{Option}
use dgraphai.Fleet.Model.{
  Answer, Fleet, Floats, System, answered, fleet_not_found, own_fleet, refused,
}
use dgraphai.Prelude.{
  Bool, List, String, [], get_elem?, if◌then◌else◌, length, none, some, str_eq, suc, ℕ, ◌%◌, ◌||◌,
  ◌∷◌,
}
use dgraphai.Prelude.Dict.{insert}

pub record AssignRequest : Type 0 where
  pub connector_ids : List String
  pub strategy : String

-- `agents[i % len(agents)]` of a list that is not empty
abbrev pub agent_at : List String → ℕ → String
agent_at agents i = elim (get_elem? agents (i % length agents)) [ none ↦ "" | some a ↦ a ]

-- the loop over `enumerate(connector_ids)`, from a position on
abbrev pub round_robin :
    List String → ℕ → List String → List (String × String) → List (String × String)
round_robin agents i [] d = d
round_robin agents i (c ∷ cs) d = round_robin agents (suc i) cs (insert c (agent_at agents i) d)

abbrev pub is_strategy : String → Bool
is_strategy strategy =
    str_eq strategy "round_robin"
    || str_eq strategy "capacity_weighted"
    || str_eq strategy "latency_aware"

abbrev pub strategy_of : String → String → String
strategy_of requested own = if str_eq requested "" then own else requested

abbrev pub assignments_of : String → List String → List String → List (String × String)
assignments_of strategy agents connectors =
    if is_strategy strategy then round_robin agents 0 connectors [] else []

-- `d.update(e)`
abbrev pub update_dict : List (String × String) → List (String × String) → List (String × String)
update_dict d [] = d
update_dict d ((k, v) ∷ e) = update_dict (insert k v d) e

module _ (F : Floats) where
  abbrev pub assign_to :
      String
      → AssignRequest
      → System F
      → Fleet
      → List String
      → System F × Answer (List (String × String) × String)
  assign_to fleet_id req s f [] = (s, refused 400 "Fleet has no members")
  assign_to fleet_id req s f (a ∷ agents) =
      let strategy = strategy_of req.strategy f.scan_strategy in
      let assignments = assignments_of strategy (a ∷ agents) req.connector_ids in
      (
        record s {
          fleets =
              insert fleet_id
                (record f {
                  connector_assignments = update_dict f.connector_assignments assignments;
                })
                s.fleets;
        },
        answered (assignments, strategy),
      )

  abbrev pub on_own :
      String
      → AssignRequest
      → System F
      → Option Fleet
      → System F × Answer (List (String × String) × String)
  on_own fleet_id req s none = (s, fleet_not_found)
  on_own fleet_id req s (some f) = assign_to fleet_id req s f f.agent_ids

  unfoldable pub assign_connectors :
      String
      → AssignRequest
      → String
      → System F
      → System F × Answer (List (String × String) × String)
  assign_connectors fleet_id req tenant s =
      on_own fleet_id req s (own_fleet tenant fleet_id s.fleets)
