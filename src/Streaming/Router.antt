-- ===== src/Streaming/Router.antt =====
-- `StreamRouter` with its agents. Latencies are thousandths of a millisecond. A routing score is a
-- float that is not negative: a number stands for it, in the same order, and the division by the
-- logarithm of the bandwidth is a parameter.
pub mod Choice
pub mod Ranking
use dgraphai.Prelude.{
  Bool, List, Option, String, [], any, false, if◌then◌else◌, keep, leb, map, none, not, some,
  str_eq, true, ℕ, ◌&&◌, ◌∷◌,
}
use dgraphai.Prelude.Dict.{contains, insert, lookup}

pub record AgentTopology : Type 0 where
  pub agent_id : String
  pub region : String
  pub latency_matrix : List (String × ℕ)
  pub bandwidth_mbps : ℕ
  pub is_online : Bool
  pub indexed_connectors : List String

abbrev pub Topology : Type 0
Topology = List (String × AgentTopology)

unfoldable pub latency_to : String → AgentTopology → ℕ
latency_to region t =
    if str_eq t.region region
    then 1000
    else (elim (lookup region t.latency_matrix) [ none ↦ 999000 | some n ↦ n ])

unfoldable pub register_agent : AgentTopology → Topology → Topology
register_agent t agents = insert t.agent_id t agents

-- `latency_matrix.update(latency)`
abbrev pub update : List (String × ℕ) → List (String × ℕ) → List (String × ℕ)
update [] matrix = matrix
update ((region, n) ∷ rest) matrix = update rest (insert region n matrix)

-- a heartbeat with the bandwidth and the latencies, where it has them
unfoldable pub update_from_heartbeat :
    String → Option ℕ → Option (List (String × ℕ)) → Topology → Topology
update_from_heartbeat agent_id bandwidth latency agents = elim (lookup agent_id agents) [
  | none ↦ agents
  | some t ↦
      insert agent_id
        (record t {
          is_online = true;
          bandwidth_mbps = elim bandwidth [ none ↦ t.bandwidth_mbps | some n ↦ n ];
          latency_matrix = elim latency [
            | none ↦ t.latency_matrix
            | some l ↦ update l t.latency_matrix
          ];
        })
        agents
]

unfoldable pub mark_offline : String → Topology → Topology
mark_offline agent_id agents = elim (lookup agent_id agents) [
  | none ↦ agents
  | some t ↦ insert agent_id (record t { is_online = false }) agents
]

-- no connectors asked for, or one of them is indexed
abbrev pub serves : List String → AgentTopology → Bool
serves [] t = true
serves (c ∷ cs) t = any (λ x. contains x t.indexed_connectors) (c ∷ cs)

abbrev pub is_candidate : List String → List String → AgentTopology → Bool
is_candidate connector_ids exclude t =
    t.is_online && not (contains t.agent_id exclude) && serves connector_ids t

abbrev pub agents_of : Topology → List AgentTopology
agents_of [] = []
agents_of ((id, t) ∷ rest) = t ∷ agents_of rest

module _ {A : Type 0} (key : A → ℕ) where
  abbrev pub insert_by : A → List A → List A
  insert_by x [] = x ∷ []
  insert_by x (y ∷ ys) =
      let rest = insert_by x ys in if leb (key x) (key y) then x ∷ y ∷ ys else y ∷ rest

  -- Python's stable sort
  abbrev pub sort_by : List A → List A
  sort_by [] = []
  sort_by (x ∷ xs) = insert_by x (sort_by xs)

abbrev pub first {ℓ} : {A : Type ℓ} → List A → Option A
first [] = none
first (x ∷ xs) = some x

module _ (ratio : ℕ → ℕ → ℕ) where
  unfoldable pub routing_score : String → AgentTopology → ℕ
  unfolding latency_to
  routing_score region t = ratio (latency_to region t) t.bandwidth_mbps

  unfoldable pub select_source :
      List String → String → List String → Topology → Option AgentTopology
  unfolding routing_score
  select_source connector_ids region exclude agents = first (
      sort_by (routing_score region) (keep (is_candidate connector_ids exclude) (agents_of agents)))

  unfoldable pub ranked_sources : List String → String → Topology → List (AgentTopology × ℕ)
  unfolding routing_score
  ranked_sources connector_ids region agents =
      sort_by (λ x. x.1)
        (map (λ t. (t, routing_score region t))
          (keep (λ t. t.is_online && serves connector_ids t) (agents_of agents)))
