-- ===== src/Fleet/Mesh.antt =====
-- The mesh of latencies: one edge for a pair of agents, from the newest probe that reached. A pair is
-- sorted in the source, so that two pairs are the same when they are equal in either order.
pub mod Pairs
use dgraphai.Fleet.Model.{
  Answer, Entry, Floats, Probe, System, answered, fleet_not_found, list_or_empty, own_fleet,
  value_or,
}
use dgraphai.Prelude.{
  Bool, List, String, [], any, if◌then◌else◌, none, not, some, str_eq, ◌&&◌, ◌++◌, ◌||◌, ◌∷◌,
}
use dgraphai.Prelude.Dict.{lookup}

pub record Edge (F : Floats) : Type 0 where
  pub from_id : String
  pub to_id : String
  pub latency_ms : F.N
  pub bandwidth_mbps : F.N
  pub quality : String

abbrev pub same_pair : String → String → String → String → Bool
same_pair a b c d = (str_eq a c && str_eq b d) || (str_eq a d && str_eq b c)

module _ (F : Floats) where
  unfoldable pub quality_of : F.N → String
  quality_of latency_ms =
      if F.lt latency_ms (F.number 5)
      then "excellent"
      else if F.lt latency_ms (F.number 20)
      then "good"
      else if F.lt latency_ms (F.number 100)
      then "fair"
      else "poor"

  -- `key in seen`: `seen` holds the pairs of the edges
  abbrev pub is_seen : String → String → List (Edge F) → Bool
  is_seen a b edges = any (λ e. same_pair a b e.from_id e.to_id) edges

  abbrev pub edge_of : String → Probe F → Edge F
  edge_of from_id p = record {
    from_id = from_id;
    to_id = value_or p.peer_agent_id "";
    latency_ms = value_or p.latency_ms (F.number 0);
    bandwidth_mbps = value_or p.bandwidth_mbps (F.number 0);
    quality = quality_of (value_or p.latency_ms (F.number 999));
  }

  abbrev pub add_probe : String → Probe F → List (Edge F) → List (Edge F)
  add_probe from_id p edges =
      if not (is_seen from_id (value_or p.peer_agent_id "") edges) && p.reachable
      then edges ++ edge_of from_id p ∷ []
      else edges

  abbrev pub add_probes : String → List (Probe F) → List (Edge F) → List (Edge F)
  add_probes from_id [] edges = edges
  add_probes from_id (p ∷ ps) edges = add_probes from_id ps (add_probe from_id p edges)

  -- over `reversed(entries)`: the newest entry is the last of the list
  abbrev pub add_entries : List (Entry F) → List (Edge F) → List (Edge F)
  add_entries [] edges = edges
  add_entries (e ∷ es) edges = add_probes e.from_agent e.probes (add_entries es edges)

  unfoldable pub get_mesh : String → String → System F → Answer (List (Edge F))
  get_mesh fleet_id tenant s = elim (own_fleet tenant fleet_id s.fleets) [
    | none ↦ fleet_not_found
    | some f ↦ answered (add_entries (list_or_empty (lookup fleet_id s.telemetry)) [])
  ]
