-- ===== src/Fleet/Tests.antt =====
-- Runs of the fleet handlers at concrete inputs, with whole numbers for floats.
use dgraphai.Fleet.Assign.{AssignRequest, assign_connectors}
use dgraphai.Fleet.Assign.Members.{AllAssigned, assign_connectors_lem}
use dgraphai.Fleet.Calls.{
  submitted, created, then_by, IsBounded, Reach, deleted, foreign_kept, next, none_yet, start,
  telemetry-IsBounded,
}
use dgraphai.Fleet.Mesh.{Edge, get_mesh, quality_of}
use dgraphai.Fleet.Mesh.Pairs.{Covers, IsDistinct, get_mesh_lem}
use dgraphai.Fleet.Model.{Entry, Fleet, Floats, Probe, System, answered, list_or_empty}
use dgraphai.Fleet.Store.{CreateFleetRequest, create_fleet, delete_fleet, submit_telemetry}
use dgraphai.Prelude.{
  All, List, String, [], arith, eq_iff, ltb, none, refl, some, true, ℕ, ◌∷◌, ◌≡◌, ◌≢◌,
}
use dgraphai.Prelude.Dict.{lookup}

abbrev whole : Floats
whole = record { N = ℕ; number = λ n. n; lt = ltb }

abbrev request : CreateFleetRequest
request = record {
  name = "north";
  description = "";
  agent_ids = "a1" ∷ "a2" ∷ [];
  scan_strategy = "round_robin";
}

abbrev north : Fleet
north = record {
  id = "f1";
  name = "north";
  description = "";
  tenant_id = "acme";
  created_at = 5;
  scan_strategy = "round_robin";
  agent_ids = "a1" ∷ "a2" ∷ [];
  connector_assignments = [];
}

abbrev probe : String → Probe whole
probe peer = record {
  peer_agent_id = some peer;
  reachable = true;
  latency_ms = some 7;
  bandwidth_mbps = none;
}

abbrev entries : List (Entry whole)
entries =
    record { from_agent = "a1"; probes = probe "a2" ∷ [] }
    ∷ record { from_agent = "a2"; probes = probe "a1" ∷ [] }
    ∷ []

abbrev running : System whole
running = record { fleets = ("f1", north) ∷ []; telemetry = ("f1", entries) ∷ [] }

abbrev empty : System whole
empty = record { fleets = []; telemetry = [] }

abbrev after_create : System whole
after_create = record { fleets = ("f1", north) ∷ []; telemetry = ("f1", []) ∷ [] }

creates : create_fleet whole "f1" 5 request "acme" empty ≡ (after_create, answered north)
unfolding create_fleet
creates = refl

-- the newest entry gives the edge
one_edge :
    get_mesh whole "f1" "acme" running
    ≡ answered (
        record {
          from_id = "a2";
          to_id = "a1";
          latency_ms = 7;
          bandwidth_mbps = 0;
          quality = "good";
        }
        ∷ [])
unfolding get_mesh quality_of
one_edge = refl

abbrev submission : Entry whole
submission = record { from_agent = "a1"; probes = probe "a2" ∷ [] }

submitted-Reach :
    Reach whole
      (submit_telemetry whole "f1" submission "acme"
        (create_fleet whole "f1" 5 request "acme" empty).0).0
submitted-Reach =
    next "acme" _ _ (next "acme" _ _ start (created "f1" 5 request empty refl))
      (submitted "f1" submission _)

telemetry-IsBounded_example :
    IsBounded
      (submit_telemetry whole "f1" submission "acme"
        (create_fleet whole "f1" 5 request "acme" empty).0).0
telemetry-IsBounded_example = telemetry-IsBounded whole submitted-Reach

abbrev after_delete : System whole
after_delete = (delete_fleet whole "f1" "evil" running).0

abbrev stranger : String
stranger = "evil"

evil-acme : stranger ≢ "acme"
evil-acme = ground (arith, eq_iff "evil" "acme")

foreign_kept_example : lookup "f1" after_delete.fleets ≡ some north
foreign_kept_example = foreign_kept whole "f1" north refl refl (
    then_by "evil" running running after_delete (none_yet running) evil-acme (deleted "f1" running))

abbrev three : AssignRequest
three = record { connector_ids = "c1" ∷ "c2" ∷ "c3" ∷ []; strategy = "" }

assign_connectors_lem_example :
    AllAssigned whole "f1"
      ("c1" ∷ "c2" ∷ "c3" ∷ [])
      ("a1" ∷ "a2" ∷ [])
      (assign_connectors whole "f1" three "acme" running).0
assign_connectors_lem_example =
    assign_connectors_lem whole "f1" three "acme" running north "a1" ("a2" ∷ []) refl refl refl

-- a strategy that is not known assigns nothing
assigns_nothing :
    (assign_connectors whole "f1" (record three { strategy = "random" }) "acme" running).1
    ≡ answered ([], "random")
unfolding assign_connectors
assigns_nothing = refl

get_mesh_lem_example :
    (es : List (Edge whole)) × (get_mesh whole "f1" "acme" running ≡ answered es)
    × IsDistinct whole es
    × All (Covers whole es) (list_or_empty (lookup "f1" running.telemetry))
get_mesh_lem_example = get_mesh_lem whole "f1" "acme" running north refl
