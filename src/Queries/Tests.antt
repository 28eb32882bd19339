-- ===== src/Queries/Tests.antt =====
-- Runs of the handlers of saved queries at concrete inputs.
use dgraphai.Queries.Model.{SavedQuery, State}
use dgraphai.Auth.Model.{ok}
use dgraphai.Prelude.{String, [], false, none, refl, some, ℕ, ◌∷◌, ◌≡◌}
use dgraphai.Queries.Handlers.{delete_query, get_query_or_404, run_query, update_query}
use dgraphai.Queries.Model.{UpdateQueryRequest}
use dgraphai.Queries.Ownership.{Owned, owner_only}
use dgraphai.Tenancy.Model.{AuthContext}

abbrev query_of : String → SavedQuery
query_of user = record {
  id = "q1";
  tenant_id = "acme";
  created_by = some user;
  name = "pii";
  description = "";
  cypher = "MATCH (n) RETURN n";
  params = [];
  tags = [];
  is_public = false;
  is_pinned = false;
  run_count = none;
  export_format = none;
  export_schedule = none;
}

abbrev state : State
state = record { queries = query_of "ann" ∷ []; exports = [] }

abbrev bob : AuthContext
bob = record {
  user_id = "bob";
  tenant_id = "acme";
  email = "bob@acme.com";
  roles = [];
  permissions = "graph:query" ∷ [];
}

abbrev renamed : UpdateQueryRequest
renamed = record {
  name = some "mine";
  description = none;
  cypher = none;
  params = none;
  tags = none;
  is_public = none;
  is_pinned = none;
  export_format = none;
  export_schedule = none;
}

-- a private query of another user runs for whoever knows its identifier
runs_private :
    (run_query {R = ℕ}
      (λ cypher params. some (1 ∷ []))
      "q1"
      "e1"
      (record { params = []; limit = 10; export = false })
      bob
      state).1
    ≡ ok "rows"
unfolding run_query get_query_or_404
runs_private = refl

owner_only_example :
    Owned "q1" bob state (update_query "q1" renamed bob state)
    × Owned "q1" bob state (delete_query "q1" bob state)
owner_only_example = owner_only "q1" renamed bob state
