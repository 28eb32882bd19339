-- ===== src/Queries/Handlers.antt =====
-- The handlers. The graph database is an argument, which answers rows or fails; times, and the files
-- of an export, are left out.
use dgraphai.Queries.Model.{
  RunQueryRequest, SaveQueryRequest, SavedQuery, State, UpdateQueryRequest,
}
use dgraphai.Prelude.{
  Bool, List, Option, String, [], any, false, find, if◌then◌else◌, keep, none, not, some, str_eq,
  suc, true, update_where, ◌&&◌, ◌++◌, ◌||◌, ◌∷◌,
}
use dgraphai.Prelude.Dict.{contains, insert}
use dgraphai.Auth.Model.{Reply, get_db, http_exception, ok}
use dgraphai.Rbac.Assign.{one_row, no_row, many_rows, one_or_none}
use dgraphai.Tenancy.Model.{AuthContext}

abbrev pub text_is : String → Option String → Bool
text_is t none = false
text_is t (some u) = str_eq u t

abbrev pub is_visible : AuthContext → SavedQuery → Bool
is_visible auth q =
    str_eq q.tenant_id auth.tenant_id && (q.is_public || text_is auth.user_id q.created_by)

abbrev pub pinned_as : Option Bool → SavedQuery → Bool
pinned_as none q = true
pinned_as (some true) q = q.is_pinned
pinned_as (some false) q = not q.is_pinned

-- `tag` is "" for a request without one; the order of the answer is left out
unfoldable pub list_queries : String → Option Bool → AuthContext → State → List SavedQuery
list_queries tag pinned auth s =
    keep (λ q. str_eq tag "" || contains tag q.tags)
      (keep (λ q. is_visible auth q && pinned_as pinned q) s.queries)

abbrev pub has_name : String → String → SavedQuery → Bool
has_name tenant_id name q = str_eq q.tenant_id tenant_id && str_eq q.name name

abbrev pub saved : String → SaveQueryRequest → AuthContext → SavedQuery
saved id req auth = record {
  id = id;
  tenant_id = auth.tenant_id;
  created_by = some auth.user_id;
  name = req.name;
  description = req.description;
  cypher = req.cypher;
  params = req.params;
  tags = req.tags;
  is_public = req.is_public;
  is_pinned = req.is_pinned;
  run_count = some 0;
  export_format = req.export_format;
  export_schedule = req.export_schedule;
}

abbrev pub multiple_rows : State → State × Reply
multiple_rows s = (s, http_exception 500 "Multiple rows were found")

unfoldable pub save_query : String → SaveQueryRequest → AuthContext → State → State × Reply
save_query id req auth s =
    get_db s (elim (one_or_none (keep (has_name auth.tenant_id req.name) s.queries)) [
      | one_row q ↦ (s, http_exception 409 "Query with this name already exists")
      | many_rows ↦ multiple_rows s
      | no_row ↦ (record s { queries = s.queries ++ saved id req auth ∷ [] }, ok id)
    ])

-- `SavedQuery.id == id, SavedQuery.tenant_id == tenant_id`
abbrev pub is_query : String → String → SavedQuery → Bool
is_query id tenant_id q = str_eq q.id id && str_eq q.tenant_id tenant_id

abbrev pub may_change : AuthContext → SavedQuery → Bool
may_change auth q = text_is auth.user_id q.created_by || contains "admin:*" auth.permissions

-- `_get_query_or_404`, and then the handler
abbrev pub on_query :
    Bool → AuthContext → State → (SavedQuery → State × Reply) → Option SavedQuery → State × Reply
on_query require_owner auth s rest none = (s, http_exception 404 "Query not found")
on_query require_owner auth s rest (some q) =
    if require_owner && not (may_change auth q)
    then (s, http_exception 403 "You don't own this query")
    else rest q

unfoldable pub get_query_or_404 :
    String → Bool → AuthContext → (SavedQuery → State × Reply) → State → State × Reply
get_query_or_404 id require_owner auth rest s =
    get_db s (on_query require_owner auth s rest (find (is_query id auth.tenant_id) s.queries))

abbrev pub value_or {ℓ} : {A : Type ℓ} → Option A → A → A
value_or none a = a
value_or (some b) a = b

abbrev pub option_or {ℓ} : {A : Type ℓ} → Option A → Option A → Option A
option_or none a = a
option_or (some b) a = some b

-- the fields that are not None
abbrev pub updated : UpdateQueryRequest → SavedQuery → SavedQuery
updated req q = record q {
  name = value_or req.name q.name;
  description = value_or req.description q.description;
  cypher = value_or req.cypher q.cypher;
  params = value_or req.params q.params;
  tags = value_or req.tags q.tags;
  is_public = value_or req.is_public q.is_public;
  is_pinned = value_or req.is_pinned q.is_pinned;
  export_format = option_or req.export_format q.export_format;
  export_schedule = option_or req.export_schedule q.export_schedule;
}

-- whether the constraint on names refuses a new name: another query of the tenant has it
abbrev pub name_taken : String → SavedQuery → List SavedQuery → Bool
name_taken name q queries =
    any (λ x. has_name q.tenant_id name x && not (is_query q.id q.tenant_id x)) queries

abbrev pub apply_update :
    String → UpdateQueryRequest → AuthContext → State → SavedQuery → State × Reply
apply_update id req auth s q =
    if name_taken (value_or req.name q.name) q s.queries
    then (s, http_exception 500 "The name is not unique")
    else (
      record s { queries = update_where (is_query id auth.tenant_id) (updated req) s.queries },
      ok id,
    )

unfoldable pub update_query : String → UpdateQueryRequest → AuthContext → State → State × Reply
update_query id req auth s = get_query_or_404 id true auth (apply_update id req auth s) s

-- the exports of the query go with it
abbrev pub apply_delete : String → AuthContext → State → SavedQuery → State × Reply
apply_delete id auth s q = (
  record {
    queries = keep (λ x. not (is_query id auth.tenant_id x)) s.queries;
    exports = keep (λ e. not (str_eq e.query_id id)) s.exports;
  },
  ok "deleted",
)

unfoldable pub delete_query : String → AuthContext → State → State × Reply
delete_query id auth s = get_query_or_404 id true auth (apply_delete id auth s) s

-- `{**saved, **requested}`
abbrev pub merge_params : List (String × String) → List (String × String) → List (String × String)
merge_params saved_params [] = saved_params
merge_params saved_params ((k, v) ∷ rest) = merge_params (insert k v saved_params) rest

abbrev pub counted : SavedQuery → SavedQuery
counted q = record q { run_count = some (suc (value_or q.run_count 0)) }

abbrev pub count_run : String → AuthContext → State → State
count_run id auth s = record s {
  queries = update_where (is_query id auth.tenant_id) counted s.queries;
}

abbrev pub add_export : String → SavedQuery → AuthContext → State → State
add_export export_id q auth s = record s {
  exports =
      s.exports
      ++ record { id = export_id; query_id = q.id; tenant_id = auth.tenant_id; status = "pending" }
        ∷ [];
}

-- `req.export and query.export_format`
abbrev pub wants_export : RunQueryRequest → SavedQuery → Bool
wants_export req q =
    req.export && (elim q.export_format [ none ↦ false | some f ↦ not (str_eq f "") ])

module _ {R : Type 0} (backend : String → List (String × String) → Option (List R)) where
  -- the rows of the answer are left out
  abbrev pub apply_run :
      String → String → RunQueryRequest → AuthContext → State → SavedQuery → State × Reply
  apply_run id export_id req auth s q = elim (backend q.cypher (merge_params q.params req.params)) [
    | none ↦ (s, http_exception 400 "Query error")
    | some rows ↦
        if wants_export req q
        then (add_export export_id q auth (count_run id auth s), ok "pending")
        else (count_run id auth s, ok "rows")
  ]

  unfoldable pub run_query : String → String → RunQueryRequest → AuthContext → State → State × Reply
  run_query id export_id req auth s =
      if contains "graph:query" auth.permissions || contains "admin:*" auth.permissions
      then get_query_or_404 id false auth (apply_run id export_id req auth s) s
      else (s, http_exception 403 "Permission required: graph:query")

abbrev pub is_format : String → Bool
is_format format = contains format ("jsonl" ∷ "csv" ∷ "parquet" ∷ [])

unfoldable pub export_query : String → String → String → AuthContext → State → State × Reply
export_query id export_id format auth s =
    if is_format format
    then get_query_or_404 id false auth (λ q. (add_export export_id q auth s, ok export_id)) s
    else (s, http_exception 400 "format must be jsonl, csv, or parquet")
