-- ===== src/Fleet/Store.antt =====
-- The handlers that read or change the dictionaries, beside the assignment and the mesh.
use dgraphai.Fleet.Model.{
  Answer, Entry, Fleet, Floats, Probe, ScannerAgent, System, answered, drop, fleet_not_found,
  list_or_empty, own_fleet, remove_key, value_or,
}
use dgraphai.Prelude.{
  Bool, List, Option, String, [], false, find, if◌then◌else◌, keep, length, ltb, none, not, some,
  str_eq, ℕ, ◌&&◌, ◌++◌, ◌+◌, ◌-◌, ◌==◌, ◌∷◌,
}
use dgraphai.Prelude.Dict.{insert, lookup}

pub record CreateFleetRequest : Type 0 where
  pub name : String
  pub description : String
  pub agent_ids : List String
  pub scan_strategy : String

-- The keys of a body that are there. Their values have the types of the fleet's.
pub record UpdateFleetRequest : Type 0 where
  pub name : Option String
  pub description : Option String
  pub scan_strategy : Option String
  pub agent_ids : Option (List String)

module _ (F : Floats) where
  -- the identifier is generated
  unfoldable pub create_fleet :
      String → ℕ → CreateFleetRequest → String → System F → System F × Answer Fleet
  create_fleet fleet_id now req tenant s =
      let fleet : Fleet = record {
        id = fleet_id;
        name = req.name;
        description = req.description;
        tenant_id = tenant;
        created_at = now;
        scan_strategy = req.scan_strategy;
        agent_ids = req.agent_ids;
        connector_assignments = [];
      } in
      (
        record {
          fleets = insert fleet_id fleet s.fleets;
          telemetry = insert fleet_id [] s.telemetry;
        },
        answered fleet,
      )

  abbrev keep_values : (Fleet → Bool) → List (String × Fleet) → List Fleet
  keep_values p [] = []
  keep_values p ((k, f) ∷ d) = let rest = keep_values p d in if p f then f ∷ rest else rest

  unfoldable pub list_fleets : String → System F → List Fleet
  list_fleets tenant s = keep_values (λ f. str_eq f.tenant_id tenant) s.fleets

  abbrev pub updated : UpdateFleetRequest → Fleet → Fleet
  updated body f = record f {
    name = value_or body.name f.name;
    description = value_or body.description f.description;
    scan_strategy = value_or body.scan_strategy f.scan_strategy;
    agent_ids = value_or body.agent_ids f.agent_ids;
  }

  unfoldable pub update_fleet :
      String → UpdateFleetRequest → String → System F → System F × Answer Fleet
  update_fleet fleet_id body tenant s = elim (own_fleet tenant fleet_id s.fleets) [
    | none ↦ (s, fleet_not_found)
    | some f ↦
        (record s { fleets = insert fleet_id (updated body f) s.fleets }, answered (updated body f))
  ]

  unfoldable pub delete_fleet : String → String → System F → System F × Answer String
  delete_fleet fleet_id tenant s = elim (own_fleet tenant fleet_id s.fleets) [
    | none ↦ (s, fleet_not_found)
    | some f ↦ (
      record { fleets = remove_key fleet_id s.fleets; telemetry = remove_key fleet_id s.telemetry },
      answered "",
    )
  ]

  -- `xs[-100:]`
  abbrev pub last_100 : List (Entry F) → List (Entry F)
  last_100 xs = drop (length xs - 100) xs

  unfoldable pub submit_telemetry : String → Entry F → String → System F → System F × Answer String
  submit_telemetry fleet_id entry tenant s = elim (own_fleet tenant fleet_id s.fleets) [
    | none ↦ (s, fleet_not_found)
    | some f ↦ (
      record s {
        telemetry =
            insert fleet_id (last_100 (list_or_empty (lookup fleet_id s.telemetry) ++ entry ∷ []))
              s.telemetry;
      },
      answered fleet_id,
    )
  ]

  -- `m.is_online` of a member that was seen in the last 90 seconds
  abbrev pub is_online : ℕ → ScannerAgent → Bool
  is_online now a = elim a.last_seen_at [ none ↦ false | some t ↦ ltb now (t + 90) ]

  pub record FleetMember : Type 0 where
    pub agent_id : String
    pub name : String
    pub online : Bool
    pub peer_latency_ms : List (String × F.N)
    pub peer_bandwidth_mbps : List (String × F.N)

  -- the inner loop: the probes with a peer that was reached
  abbrev pub peers :
      (Probe F → Option F.N) → List (Probe F) → List (String × F.N) → List (String × F.N)
  peers field [] d = d
  peers field (p ∷ ps) d =
      let id = value_or p.peer_agent_id "" in
      peers field ps (
        if p.reachable && not (str_eq id "")
        then insert id (value_or (field p) (F.number 0)) d
        else d)

  abbrev pub peers_from :
      (Probe F → Option F.N) → String → List (Entry F) → List (String × F.N) → List (String × F.N)
  peers_from field agent_id [] d = d
  peers_from field agent_id (e ∷ es) d =
      peers_from field agent_id es
        (if str_eq e.from_agent agent_id then peers field e.probes d else d)

  abbrev pub member_of : ℕ → List (Entry F) → ScannerAgent → FleetMember
  member_of now entries a = record {
    agent_id = a.id;
    name = a.name;
    online = is_online now a;
    peer_latency_ms = peers_from (λ p. p.latency_ms) a.id entries [];
    peer_bandwidth_mbps = peers_from (λ p. p.bandwidth_mbps) a.id entries [];
  }

  abbrev add_member : ℕ → List (Entry F) → Option ScannerAgent → List FleetMember → List FleetMember
  add_member now entries none ms = ms
  add_member now entries (some a) ms = member_of now entries a ∷ ms

  abbrev pub members :
      ℕ → String → List (Entry F) → List ScannerAgent → List String → List FleetMember
  members now tenant entries agents [] = []
  members now tenant entries agents (id ∷ ids) =
      add_member now entries
        (find (λ (a : ScannerAgent). str_eq a.id id && str_eq a.tenant_id tenant) agents)
        (members now tenant entries agents ids)

  abbrev pub status_of : List FleetMember → String
  status_of ms =
      let online = length (keep (λ m. m.online) ms) in
      if online == length ms && ltb 0 online
      then "healthy"
      else if ltb 0 online
      then "degraded"
      else "offline"

  pub record FleetDetail : Type 0 where
    pub fleet : Fleet
    pub detail_members : List FleetMember
    pub status : String

  unfoldable pub get_fleet : ℕ → String → List ScannerAgent → String → System F → Answer FleetDetail
  get_fleet now fleet_id agents tenant s = elim (own_fleet tenant fleet_id s.fleets) [
    | none ↦ fleet_not_found
    | some f ↦
        let ms =
          members now tenant (list_or_empty (lookup fleet_id s.telemetry)) agents f.agent_ids in
        answered (record { fleet = f; detail_members = ms; status = status_of ms })
  ]
