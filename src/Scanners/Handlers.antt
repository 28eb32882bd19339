-- ===== src/Scanners/Handlers.antt =====
-- Keys, registration, and heartbeats, which tell the stream router of an agent. The merge of a scan's
-- chunk is left to Graph.Dedup and to the graph database; here is who may send one.
use dgraphai.Prelude.{
  Bool, List, Option, String, [], if◌then◌else◌, keep, none, some, str_eq, true, update_where, ℕ,
  ◌&&◌, ◌++◌, ◌||◌, ◌∷◌,
}
use dgraphai.Prelude.Dict.{contains}
use dgraphai.Auth.Model.{Reply, get_db, http_exception, ok}
use dgraphai.Rbac.Assign.{Rows, one_row, no_row, many_rows, one_or_none}
use dgraphai.Tenancy.Model.{AuthContext}
use dgraphai.Streaming.Router.{AgentTopology, Topology, register_agent}

pub record Scanner : Type 0 where
  pub id : String
  pub tenant_id : String
  pub name : String
  pub api_key_hash : String
  pub platform : String
  pub version : String
  pub is_active : Bool
  pub last_seen : Option ℕ

-- the rows, and the router's agents
pub record State : Type 0 where
  pub scanners : List Scanner
  pub agents : Topology

pub record RegisterRequest : Type 0 where
  pub name : String
  pub platform : String
  pub version : String

pub record HeartbeatPayload : Type 0 where
  pub version : String
  pub platform : String
  pub region : String
  pub latency_matrix : List (String × ℕ)
  pub bandwidth_mbps : ℕ
  pub indexed_connectors : List String

-- `ScannerAgent.api_key_hash == h, ScannerAgent.is_active == True`
abbrev pub has_key : String → Scanner → Bool
has_key h x = str_eq x.api_key_hash h && x.is_active

abbrev pub with_id : String → Scanner → Bool
with_id id x = str_eq x.id id

abbrev pub set_row : String → (Scanner → Scanner) → State → State
set_row id f s = record s { scanners = update_where (with_id id) f s.scanners }

abbrev pub seen : ℕ → Scanner → Scanner
seen now x = record x { last_seen = some now }

abbrev pub set_key : (String → String) → String → Scanner → Scanner
set_key hash raw_key x = record x { api_key_hash = hash raw_key }

module _ (hash : String → String) (now : ℕ) where
  abbrev pub on_scanner : (Scanner → State → State × Reply) → State → Rows Scanner → State × Reply
  on_scanner rest s no_row = (s, http_exception 401 "Invalid or inactive scanner key")
  on_scanner rest s many_rows = (s, http_exception 500 "Multiple rows were found")
  on_scanner rest s (one_row x) = rest (seen now x) (set_row x.id (seen now) s)

  abbrev pub on_key : (Scanner → State → State × Reply) → State → Option String → State × Reply
  on_key rest s none = (s, http_exception 401 "X-Scanner-Key header required")
  on_key rest s (some key) =
      if str_eq key ""
      then (s, http_exception 401 "X-Scanner-Key header required")
      else on_scanner rest s (one_or_none (keep (has_key (hash key)) s.scanners))

  -- the dependency, and then the handler in the same session
  unfoldable pub get_scanner :
      Option String → (Scanner → State → State × Reply) → State → State × Reply
  get_scanner key rest s = get_db s (on_key rest s key)

  -- `raw_key` and the identifier are generated
  unfoldable pub register_scanner :
      String → String → RegisterRequest → AuthContext → State → State × Reply
  register_scanner id raw_key req auth s =
      if contains "scanners:register" auth.permissions || contains "admin:*" auth.permissions
      then (
        record s {
          scanners =
              s.scanners
              ++ record {
                id = id;
                tenant_id = auth.tenant_id;
                name = req.name;
                api_key_hash = hash raw_key;
                platform = req.platform;
                version = req.version;
                is_active = true;
                last_seen = none;
              }
                ∷ [];
        },
        ok raw_key,
      )
      else (s, http_exception 403 "Permission required: scanners:register")

  unfoldable pub rotate_key : String → Scanner → State → State × Reply
  rotate_key raw_key scanner s = (set_row scanner.id (set_key hash raw_key) s, ok raw_key)

-- no jobs are queued yet
abbrev pub poll_jobs : Scanner → State → State × Reply
poll_jobs scanner s = (s, ok "[]")

abbrev pub topology_of : HeartbeatPayload → Scanner → AgentTopology
topology_of payload scanner = record {
  agent_id = scanner.id;
  region = payload.region;
  latency_matrix = payload.latency_matrix;
  bandwidth_mbps = payload.bandwidth_mbps;
  is_online = true;
  indexed_connectors = payload.indexed_connectors;
}

unfoldable pub heartbeat : HeartbeatPayload → Scanner → State → State × Reply
heartbeat payload scanner s = (
  record (set_row scanner.id
      (λ x. record x { version = payload.version; platform = payload.platform }) s) {
        agents = register_agent (topology_of payload scanner) s.agents;
      },
  ok "ok",
)

-- whether a chunk is accepted for a tenant, before it is merged
unfoldable pub sync_guard : String → List String → Scanner → State → State × Reply
sync_guard chunk_tenant tenants scanner s =
    if str_eq scanner.tenant_id chunk_tenant
    then (if contains scanner.tenant_id tenants
        then (s, ok "accepted")
        else (s, http_exception 404 "Tenant not found"))
    else (s, http_exception 403 "tenant_id mismatch")
