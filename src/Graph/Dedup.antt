-- ===== src/Graph/Dedup.antt =====
-- Deduplication of file nodes (graph/dedup.py), and what its statements do to the nodes of a graph.
-- Cypher is documented so: MERGE takes the nodes that have the properties of its pattern, or else
-- makes one that has them; `SET f = map` replaces all properties of a node, `SET f += map` some.
pub mod Identity
pub mod Growth
mod Tests
use dgraphai.Rbac.Permissions.{rows}
use dgraphai.Prelude.{
  Bool, List, Option, String, [], any, false, if◌then◌else◌, length, map, none, not, some, str_eq,
  update_where, ℕ, ◌&&◌, ◌++◌, ◌==◌, ◌||◌, ◌∷◌,
}
use dgraphai.Prelude.Chars.{chars}
use dgraphai.Prelude.Dict.{contains}
use Prim.Native.String.{◌++◌ as append}

-- The keys of `props` that the module reads; a key that is missing is `none`.
pub record Props : Type 0 where
  pub sha256 : Option String
  pub connector_id : Option String
  pub path : Option String
  pub protocol : Option String
  pub host : Option String
  pub share : Option String
  pub hostname : Option String
  pub bucket : Option String
  pub key : Option String
  pub account_name : Option String
  pub container : Option String
  pub name : Option String
  pub extension : Option String
  pub file_category : Option String
  pub mime_type : Option String
  pub size : Option ℕ
  pub modified_at : Option String
  pub indexed_at : Option String

abbrev pub get_or {ℓ} : {A : Type ℓ} → Option A → A → A
get_or none d = d
get_or (some a) d = a

-- `sha and len(sha) == 64`
abbrev pub is_valid_sha : String → Bool
is_valid_sha sha = not (str_eq sha "") && length (chars sha) == 64

-- `sha256` is `hashlib.sha256(key.encode()).hexdigest()`
unfoldable pub make_node_id : (String → String) → Props → String
make_node_id sha256 props =
    let sha = get_or props.sha256 "" in
    if is_valid_sha sha
    then append "sha256:" sha
    else append "path:"
        (sha256 (append (get_or props.connector_id "") (append ":" (get_or props.path ""))))

unfoldable pub make_canonical_path : Props → String
make_canonical_path props =
    let protocol = get_or props.protocol "local" in
    let host = get_or props.host "" in
    let path = get_or props.path "" in
    if str_eq protocol "smb" && not (str_eq host "")
    then append "smb://" (append host (append "/" (append (get_or props.share "") path)))
    else if str_eq protocol "nfs" && not (str_eq host "")
    then append "nfs://" (append host path)
    else if str_eq protocol "s3" || str_eq protocol "aws-s3"
    then append "s3://" (append (get_or props.bucket "") (append "/" (get_or props.key path)))
    else if str_eq protocol "azure-blob" || str_eq protocol "azure"
    then append "azure://" (
        append (get_or props.account_name "")
          (append "/" (append (get_or props.container "") path)))
    else append "local://"
        (append (get_or props.hostname (if str_eq host "" then "localhost" else host)) path)

-- A row of the parameters, and of a node's properties. `id` is the property that MERGE looks for.
pub record Row : Type 0 where
  pub node_id : String
  pub canon_path : String
  pub sha256 : String
  pub name : String
  pub extension : String
  pub file_category : String
  pub mime_type : String
  pub size : ℕ
  pub modified_at : String
  pub protocol : String
  pub connector_id : String

pub record Node : Type 0 where
  pub id : Option String
  pub tenant_id : Option String
  pub row : Row
  pub paths : List String
  pub agent_ids : List String

module _ (sha256 : String → String) where
  -- one round of the loop of `bulk_upsert_query`
  abbrev pub row_of : Props → Row
  row_of props = record {
    node_id = make_node_id sha256 props;
    canon_path = make_canonical_path props;
    sha256 = get_or props.sha256 "";
    name = get_or props.name "";
    extension = get_or props.extension "";
    file_category = get_or props.file_category "unknown";
    mime_type = get_or props.mime_type "";
    size = get_or props.size 0;
    modified_at = get_or props.modified_at "";
    protocol = get_or props.protocol "local";
    connector_id = get_or props.connector_id "";
  }

abbrev pub text_is : String → Option String → Bool
text_is t none = false
text_is t (some u) = str_eq u t

-- `MERGE (f:File {id: row.node_id, tenant_id: $tid})`
abbrev pub matches : String → String → Node → Bool
matches node_id tid n = text_is node_id n.id && text_is tid n.tenant_id

-- `ON CREATE SET f = row, f.tenant_id = $tid, ...`: of the node that MERGE made, the properties that
-- are not set here are gone, its `id` among them
abbrev pub created : String → String → Row → Node
created agent_id tid row = record {
  id = none;
  tenant_id = some tid;
  row = row;
  paths = row.canon_path ∷ [];
  agent_ids = agent_id ∷ [];
}

-- `CASE WHEN x IN coalesce(xs, []) THEN xs ELSE coalesce(xs, []) + [x] END`
abbrev pub include : String → List String → List String
include x xs = if contains x xs then xs else xs ++ x ∷ []

-- `ON MATCH SET`
abbrev pub matched : String → Row → Node → Node
matched agent_id row n = record n {
  row = record n.row {
    size = row.size;
    modified_at = row.modified_at;
    file_category = row.file_category;
    mime_type = row.mime_type;
  };
  paths = include row.canon_path n.paths;
  agent_ids = include agent_id n.agent_ids;
}

abbrev pub merge_row : String → String → Row → List Node → List Node
merge_row agent_id tid row nodes =
    if any (matches row.node_id tid) nodes
    then update_where (matches row.node_id tid) (matched agent_id row) nodes
    else nodes ++ created agent_id tid row ∷ []

-- `UNWIND $rows AS row`
abbrev pub merge_rows : String → String → List Row → List Node → List Node
merge_rows agent_id tid [] nodes = nodes
merge_rows agent_id tid (row ∷ rows) nodes =
    merge_rows agent_id tid rows (merge_row agent_id tid row nodes)

-- The statement of `bulk_upsert_query`, run on the nodes of a graph.
unfoldable pub bulk_upsert :
    (String → String) → List Props → String → String → List Node → List Node
bulk_upsert sha256 nodes agent_id tid graph =
    merge_rows agent_id tid (map (row_of sha256) nodes) graph
