-- ===== src/Streaming/Tests.antt =====
-- The example of the module's documentation.
use dgraphai.Prelude.{List, String, [], keep, map, refl, some, true, ℕ, ◌/◌, ◌∷◌, ◌≡◌}
use dgraphai.Streaming.Router.{
  AgentTopology, Topology, agents_of, is_candidate, latency_to, ranked_sources, routing_score,
  select_source, sort_by,
}
use dgraphai.Streaming.Router.Ranking.{ranked_sources_lem}
use dgraphai.Streaming.Router.Choice.{IsChoice, IsEligible, select_source_lem}

abbrev agent : String → List (String × ℕ) → ℕ → AgentTopology
agent id latency bandwidth = record {
  agent_id = id;
  region = "on-prem";
  latency_matrix = latency;
  bandwidth_mbps = bandwidth;
  is_online = true;
  indexed_connectors = "smb" ∷ [];
}

abbrev agents : Topology
agents =
    ("A", agent "A" (("us-east-1", 12000) ∷ []) 1000)
    ∷ ("B", agent "B" (("us-east-1", 85000) ∷ []) 500)
    ∷ []

select_source_lem_example :
    IsChoice
      (routing_score (λ l b. l / b) "us-east-1")
      (IsEligible ("smb" ∷ []) ("A" ∷ []))
      (agents_of agents)
      (select_source (λ l b. l / b) ("smb" ∷ []) "us-east-1" ("A" ∷ []) agents)
select_source_lem_example =
    select_source_lem (λ l b. l / b) ("smb" ∷ []) "us-east-1" ("A" ∷ []) agents

chosen :
    select_source (λ l b. l / b) ("smb" ∷ []) "us-east-1" [] agents
    ≡ some (agent "A" (("us-east-1", 12000) ∷ []) 1000)
unfolding select_source routing_score latency_to
chosen = refl

ranked_sources_lem_run :
    ranked_sources (λ l b. l / b) ("smb" ∷ []) "us-east-1" agents
    ≡ map
        (λ t. (t, routing_score (λ l b. l / b) "us-east-1" t))
        (sort_by
          (routing_score (λ l b. l / b) "us-east-1")
          (keep (is_candidate ("smb" ∷ []) []) (agents_of agents)))
ranked_sources_lem_run = ranked_sources_lem (λ l b. l / b) ("smb" ∷ []) "us-east-1" agents
