-- ===== src/Lib.antt =====
-- A verification library for dgraph.ai, a data inventory with a graph database behind it.
--
-- The program is a FastAPI service. A request is authenticated by an account (src/dgraphai/auth),
-- allowed or refused by the permissions of its roles (src/dgraphai/rbac), and then reads or writes
-- rows (src/dgraphai/db) or queries a graph database, behind a circuit breaker for each backend
-- (src/dgraphai/graph/circuit_breaker.py). Approval workflows (src/dgraphai/workflows) change files
-- when their approvals are given. A signed licence (src/dgraphai/licensing) says what a deployment may
-- use, the metering beside it what discount a tenant gets. Alerts (src/dgraphai/alerts) report events, the
-- stream router (src/dgraphai/streaming) chooses the agent that serves a dataset, and a middleware
-- (src/dgraphai/middleware) limits the rate of requests.
--
-- The modules and what they model:
-- - Prelude: shared names; Boolean tests, lists and their members, dictionaries, integers, the
--   characters of a text.
-- - Graph/CircuitBreaker: src/dgraphai/graph/circuit_breaker.py. `admit` and `finish` are the two
--   critical sections of `call`; Schedule is a step relation in which any calls interleave.
-- - Rbac/Permissions, Rbac/Assign, Rbac/Scope: src/dgraphai/rbac/engine.py, with the rows of
--   src/dgraphai/db/models.py as lists of records.
-- - Auth: src/dgraphai/auth/local.py. Model has the rows and `get_db` of src/dgraphai/db/session.py,
--   which commits after an answer and rolls back on an exception; Passwords the checks of passwords
--   and backup codes; Login the handler `login`; Account the other handlers.
--   Mails the handlers that mail a token.
-- - Tenancy: how members come and go. Signup is `signup` of src/dgraphai/auth/local.py, Invites is
--   src/dgraphai/api/users.py, Scim is src/dgraphai/auth/scim.py. Model has their common rows: a
--   `Store` is the accounts of Auth, the roles of Rbac, and the tables of tenants.
-- - Identity: src/dgraphai/auth/oidc.py. Keys is the cache and the loop over an issuer's keys, Context
--   is `get_auth_context`, which makes the `AuthContext` that the handlers of Tenancy take.
-- - Privacy: `_erase_graph_data` of src/dgraphai/tasks/gdpr.py, a function that only the task for an
--   erasure calls, and `erase_my_data` of src/dgraphai/auth/local.py.
-- - Graph/Dedup: src/dgraphai/graph/dedup.py, with its batch statement run on a list of nodes.
-- - Fleet: src/dgraphai/api/fleet.py. Store, Assign and Mesh are its handlers, Calls a step relation
--   of the calls of all tenants.
-- - Schedule: src/dgraphai/api/scan_schedule.py. Celery Beat's schedule is a dictionary.
-- - Scanners: src/dgraphai/api/scanner.py; a heartbeat registers its agent with Streaming.
-- - Queries: src/dgraphai/api/queries.py with the rows of src/dgraphai/db/query_models.py.
-- - Inventory: src/dgraphai/inventory/taxonomy.py; Taxonomy has a file for the categories of a group.
-- - Workflows: src/dgraphai/workflows/engine.py with the rows of src/dgraphai/db/query_models.py.
--   Actions are the steps' work, Engine is `_advance`, Runs are `start_run`, `process_approval` and
--   the endpoint `decide_approval` of src/dgraphai/api/workflows.py.
-- - Licensing/License, Licensing/Keygen: src/dgraphai/licensing/license.py and keygen.py.
-- - Billing: the plans and the discounts of src/dgraphai/licensing/metering.py.
-- - RateLimit: src/dgraphai/middleware/rate_limit.py. Redis is the interface of RateLimit/Redis,
--   Limiter is `RedisRateLimiter` and the middleware.
-- - Alerts: src/dgraphai/alerts/engine.py with the rules of src/dgraphai/db/alert_models.py.
-- - Streaming: src/dgraphai/streaming/router.py.
--
-- Conventions. A handler takes the database and gives the new one with its answer; an exception is a
-- value of the answer. A clock is read once in an operation and is an argument, a natural number of
-- seconds, hours in Workflows, microseconds in RateLimit. Identifiers of new rows, random tokens and
-- secrets are arguments.
-- Selections by a unique column take the first row; the email of a user is not unique, and several
-- active users with it are the exception of `scalar_one_or_none`. Percentages and base fees of Billing,
-- which are whole floats, are natural numbers.
--
-- What is not under src/dgraphai is a parameter: bcrypt, UTF-8, SHA-256, pyotp and Unicode's tables
-- (`Library`), Ed25519, base64 and JSON (`Crypto` with `CryptoLaws`), file operations and Python's
-- `eval` (`Outside`), python-jose and the requests for keys (`Jose`), the batches of a graph database
-- (`Backend`), floats in Fleet (`Floats`), Redis (`Redis` with `RedisLaws`), the rendering of an alert,
-- the quotient of a routing score.
--
-- Fuel. `advance` recurses as Python does, and its fuel is the depth that the recursion limit allows;
-- running out is a `RecursionError`. The steps that are left and one more are enough where every
-- `else_step` points forward. The loop that erases a graph takes the number of nodes and one more. All
-- other loops are structural.
--
-- Not modelled: what stands behind the import of `async_session`, a name that src/dgraphai/db/session.py
-- does not declare, and so never runs: the deliveries of src/dgraphai/webhooks and most tasks of
-- src/dgraphai/tasks, among them the erasure of rows and the clean-up of tokens; costs, which are
-- floats; mails, and the JWT's text in src/dgraphai/auth/local.py; the variables in the
-- text of a workflow's message; the lookup of a licence file and the hardware fingerprint; the rounded
-- dictionaries for display; and the parts of the repository that are I/O, Cypher text, configuration
-- or other languages. In `run.context` only the keys that the engine reads or writes are kept.
pub mod Prelude
pub mod Graph
pub mod Rbac
pub mod RateLimit
pub mod Auth
pub mod Tenancy
pub mod Fleet
pub mod Identity
pub mod Privacy
pub mod Schedule
pub mod Queries
pub mod Scanners
pub mod Licensing
pub mod Workflows
pub mod Streaming
pub mod Alerts
pub mod Billing
pub mod Inventory
