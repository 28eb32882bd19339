-- ===== src/Privacy/Erasure.antt =====
-- The loop that erases the graph of a tenant, and the handler that asks for an erasure. The handler
-- calls `queue_erasure_job`, which imports its session maker from db/session.py by a name that is not
-- declared there: an `ImportError`, which the server answers with status 500.
pub mod GraphLoop
use dgraphai.Prelude.{
  Bool, List, Option, String, any, false, find, if◌then◌else◌, none, not, some, str_eq, suc, zero,
  ℕ,
}
use dgraphai.Auth.Model.{
  Library, LocalCredential, verify, Reply, get_db, http_exception, Db as Accounts,
}
use dgraphai.Auth.Login.{of_user}
use dgraphai.Tenancy.Model.{Tenant}

-- A graph database: the query that deletes at most 10,000 nodes of the tenant and answers their
-- number, or fails.
pub record Backend : Type 1 where
  pub Graph : Type 0
  pub query : String → Graph → Option (ℕ × Graph)

pub data GraphRun (G : Type 0) : Type 0 where
  finished : G → GraphRun G
  failed : GraphRun G
  out_of_fuel : GraphRun G

-- `if not deleted: break`, else the rest of the loop
abbrev pub on_deleted :
    (b : Backend) → Option (ℕ × b.Graph) → (b.Graph → GraphRun b.Graph) → GraphRun b.Graph
on_deleted b none rest = failed
on_deleted b (some (zero, g)) rest = finished g
on_deleted b (some (suc n, g)) rest = rest g

abbrev pub erase_loop : (b : Backend) → String → ℕ → b.Graph → GraphRun b.Graph
erase_loop b tenant zero g = out_of_fuel
erase_loop b tenant (suc fuel) g = on_deleted b (b.query tenant g) (erase_loop b tenant fuel)

abbrev pub has_row : String → List Tenant → Bool
has_row tenant tenants = any (λ (t : Tenant). str_eq t.id tenant) tenants

-- without a row of the tenant, nothing is done
unfoldable pub erase_graph_data :
    (b : Backend) → List Tenant → String → ℕ → b.Graph → GraphRun b.Graph
erase_graph_data b tenants tenant fuel g =
    if has_row tenant tenants then erase_loop b tenant fuel g else finished g

-- `cred and not pwd_ctx.verify(req.code, cred.password_hash)`
abbrev pub wrong_password : Library → String → Option LocalCredential → Bool
wrong_password c code none = false
wrong_password c code (some cred) = not (verify c code cred.password_hash)

unfoldable pub erase_my_data : Library → String → String → Accounts → Accounts × Reply
erase_my_data c code user_id d = get_db d (elim (find (λ u. str_eq u.id user_id) d.users) [
  | none ↦ (d, http_exception 404 "User not found")
  | some u ↦
      if wrong_password c code (find (of_user user_id) d.credentials)
      then (d, http_exception 401 "Incorrect password")
      else (d, http_exception 500 "ImportError")
])
