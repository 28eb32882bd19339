-- ===== src/Queries/Ownership.antt =====
-- Who may change a saved query, and which rows a change leaves alone.
use dgraphai.Queries.Model.{SavedQuery, State}
use dgraphai.Prelude.{[], if◌then◌else◌, update_where, ◌&&◌, ◌∷◌}
use dgraphai.Queries.Handlers.{
  apply_delete, apply_update, delete_query, get_query_or_404, name_taken, update_query, updated,
  value_or,
}
use dgraphai.Queries.Model.{UpdateQueryRequest}
use dgraphai.Prelude.{
  Bool, Bool-cases, List, Option, String, arith, eq_iff, false, find, inl, inr, keep, none, not,
  refl, some, true, ◌||◌, ◌≡◌, ◌⊎◌,
}
use dgraphai.Queries.Handlers.{is_query, may_change, on_query, text_is}
use dgraphai.Auth.Model.{Reply, get_db, http_exception, ok}
use dgraphai.Prelude.Dict.{contains}
use dgraphai.Tenancy.Model.{AuthContext}

-- A query of the requester's tenant that the requester made, or that an administrator may change.
abbrev pub Permitted : String → AuthContext → State → Type 0
Permitted id auth s =
    (q : SavedQuery) × (find (is_query id auth.tenant_id) s.queries ≡ some q)
    × ((q.created_by ≡ some auth.user_id) ⊎ (contains "admin:*" auth.permissions ≡ true))

-- the queries that are not the one with the identifier in the tenant
abbrev pub rest_of : String → String → State → List SavedQuery
rest_of id tenant_id s = keep (λ q. not (is_query id tenant_id q)) s.queries

created_by_lem : (t : String) (o : Option String) → text_is t o ≡ true → o ≡ some t
created_by_lem t none h = ground arith
created_by_lem t (some u) h = ground (arith, eq_iff u t)

may_change_lem :
    (auth : AuthContext) (q : SavedQuery) (own : Bool)
    → text_is auth.user_id q.created_by ≡ own
    → (own || contains "admin:*" auth.permissions) ≡ true
    → (q.created_by ≡ some auth.user_id) ⊎ (contains "admin:*" auth.permissions ≡ true)
may_change_lem auth q true e h = inl (created_by_lem auth.user_id q.created_by e)
may_change_lem auth q false e h = inr h

-- A change is answered only for one who is permitted, and leaves the other queries; a refused one
-- changes nothing.
abbrev pub Owned : String → AuthContext → State → State × Reply → Type 0
Owned id auth s (after, ok a) =
    Permitted id auth s × (rest_of id auth.tenant_id after ≡ rest_of id auth.tenant_id s)
Owned id auth s (after, http_exception code detail) = after ≡ s

get_db-Owned :
    (id : String) (auth : AuthContext) (s after : State) (r : Reply)
    → Permitted id auth s
    → rest_of id auth.tenant_id after ≡ rest_of id auth.tenant_id s
    → Owned id auth s (get_db s (after, r))
get_db-Owned id auth s after (ok a) p e = (p, e)
get_db-Owned id auth s after (http_exception code detail) p e = refl

module _ (id : String) (auth : AuthContext) (rest : SavedQuery → State × Reply) (s : State)
    (frame : (q : SavedQuery)
      → rest_of id auth.tenant_id (rest q).0 ≡ rest_of id auth.tenant_id s) where
  on_test-Owned :
      (q : SavedQuery) (may : Bool)
      → find (is_query id auth.tenant_id) s.queries ≡ some q
      → may_change auth q ≡ may
      → Owned id auth s (
          get_db s (
            if true && not may then (s, http_exception 403 "You don't own this query") else rest q))
  on_test-Owned q false e m = refl
  on_test-Owned q true e m =
      get_db-Owned id auth s (rest q).0 (rest q).1
        (q, e, may_change_lem auth q (text_is auth.user_id q.created_by) refl m) (frame q)

  on_query-Owned :
      (o : Option SavedQuery)
      → find (is_query id auth.tenant_id) s.queries ≡ o
      → Owned id auth s (get_db s (on_query true auth s rest o))
  on_query-Owned none e = refl
  on_query-Owned (some q) e = on_test-Owned q (may_change auth q) e refl

  get_query_or_404-Owned : Owned id auth s (get_query_or_404 id true auth rest s)
  unfolding get_query_or_404
  get_query_or_404-Owned = on_query-Owned (find (is_query id auth.tenant_id) s.queries) refl

update-rest :
    (id tenant_id : String) (req : UpdateQueryRequest) (qs : List SavedQuery)
    → keep
        (λ q. not (is_query id tenant_id q))
        (update_where (is_query id tenant_id) (updated req) qs)
      ≡ keep (λ q. not (is_query id tenant_id q)) qs
update-rest id tenant_id req [] = refl
update-rest id tenant_id req (q ∷ qs) = ground (arith, update-rest id tenant_id req qs)

delete-rest :
    (id tenant_id : String) (qs : List SavedQuery)
    → keep (λ q. not (is_query id tenant_id q)) (keep (λ q. not (is_query id tenant_id q)) qs)
      ≡ keep (λ q. not (is_query id tenant_id q)) qs
delete-rest id tenant_id [] = refl
delete-rest id tenant_id (q ∷ qs) = ground (arith, delete-rest id tenant_id qs)

apply_update-rest :
    (id : String) (req : UpdateQueryRequest) (auth : AuthContext) (s : State) (q : SavedQuery)
    → rest_of id auth.tenant_id (apply_update id req auth s q).0 ≡ rest_of id auth.tenant_id s
apply_update-rest id req auth s q =
    elim (Bool-cases (name_taken (value_or req.name q.name) q s.queries)) [
      | inl taken ↦ rw taken refl
      | inr free ↦ rw free (update-rest id auth.tenant_id req s.queries)
    ]

-- A saved query is updated or deleted only for one of its tenant who made it, or who is an
-- administrator there; all other queries stay as they are, and a refusal changes nothing.
pub owner_only :
    (id : String) (req : UpdateQueryRequest) (auth : AuthContext) (s : State)
    → Owned id auth s (update_query id req auth s) × Owned id auth s (delete_query id auth s)
unfolding update_query delete_query
owner_only id req auth s = (
  get_query_or_404-Owned id auth (apply_update id req auth s) s (apply_update-rest id req auth s),
  get_query_or_404-Owned id auth (apply_delete id auth s) s
      (λ q. delete-rest id auth.tenant_id s.queries),
)
