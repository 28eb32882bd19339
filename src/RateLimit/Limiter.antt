-- ===== src/RateLimit/Limiter.antt =====
-- `RedisRateLimiter` and the middleware. Seconds are the source's, times are in microseconds.
pub mod Window
pub mod Refusal
use dgraphai.Prelude.{Option, none, some, ◌||◌}
use dgraphai.Prelude.{
  Bool, List, String, [], false, if◌then◌else◌, leb, not, starts_with, str_eq, true, ℕ, ◌&&◌, ◌*◌,
  ◌+◌, ◌-◌, ◌/◌, ◌∷◌,
}
use dgraphai.RateLimit.Redis.{Redis}
use Prim.Native.String.{◌++◌ as append}

-- most requests, in how many seconds
abbrev limits : List (String × (ℕ × ℕ))
limits =
    ("/api/auth/login", (10, 60))
    ∷ ("/api/auth/signup", (5, 60))
    ∷ ("/api/auth/forgot-password", (5, 60))
    ∷ ("/api/auth/reset-password", (5, 60))
    ∷ ("/graphql", (60, 60))
    ∷ ("/api/search", (30, 60))
    ∷ ("/api/stream", (5, 60))
    ∷ ("DEFAULT", (300, 60))
    ∷ []

-- the first pattern, other than the default, that the path starts with
abbrev pub first_limit : String → List (String × (ℕ × ℕ)) → ℕ × ℕ
first_limit path [] = (300, 60)
first_limit path ((pattern, limit) ∷ rest) =
    if not (str_eq pattern "DEFAULT") && starts_with path pattern
    then limit
    else first_limit path rest

unfoldable pub get_limit : String → ℕ × ℕ
get_limit path = first_limit path limits

abbrev pub key_of : String → String → String
key_of ip path = append "rl:" (append ip (append ":" path))

abbrev pub micros : ℕ → ℕ
micros secs = secs * 1000000

-- Whether the request is allowed, how many remain, and after how many seconds to try again.
pub record Verdict : Type 0 where
  pub allowed : Bool
  pub remaining : ℕ
  pub retry_after : ℕ

abbrev pub fail_open : Verdict
fail_open = record { allowed = true; remaining = 999; retry_after = 0 }

-- the pipeline: the entries that have left the window, the count, this request, the time to live
abbrev pub prune : (r : Redis) → String → ℕ → ℕ → r.Store → r.Store
prune r key window now s = r.zremrangebyscore key (now - micros window) s

abbrev pub record_request : (r : Redis) → String → ℕ → ℕ → r.Store → r.Store
record_request r key window now s =
    r.expire key (window * 2) (r.zadd key now (prune r key window now s))

abbrev pub retry_secs : ℕ → ℕ → List ℕ → ℕ
retry_secs window now [] = window
retry_secs window now (oldest ∷ rest) = (micros window - (now - oldest)) / 1000000 + 1

-- `is_allowed` at a limit, when Redis answers. A request that is refused is recorded too.
unfoldable pub check_window : (r : Redis) → String → ℕ → ℕ → ℕ → r.Store → r.Store × Verdict
check_window r key limit window now s =
    let count = r.zcard key (prune r key window now s) in
    let s1 = record_request r key window now s in
    (
      s1,
      if leb limit count
          then record {
            allowed = false;
            remaining = 0;
            retry_after = retry_secs window now (r.scores key s1);
          }
          else record { allowed = true; remaining = limit - count - 1; retry_after = 0 },
    )

-- Redis answers, cannot be reached, or raises in the middle and leaves some store.
pub data Backend (r : Redis) : Type 0 where
  up : r.Store → Backend r
  unreachable : r.Store → Backend r
  failing : r.Store → Backend r

unfoldable pub is_allowed : (r : Redis) → String → String → ℕ → Backend r → r.Store × Verdict
unfolding check_window get_limit
is_allowed r ip path now (up s) =
    check_window r (key_of ip path) (get_limit path).0 (get_limit path).1 now s
is_allowed r ip path now (unreachable s) = (s, fail_open)
is_allowed r ip path now (failing s) = (s, fail_open)

-- Passed on, with the header `X-RateLimit-Remaining` unless the path is skipped; or the answer 429
-- with `Retry-After` and `X-RateLimit-Limit`.
pub data Response : Type 0 where
  passed : Option ℕ → Response
  too_many_requests : ℕ → ℕ → Response

abbrev pub is_skipped : String → Bool
is_skipped path = str_eq path "/api/health" || str_eq path "/metrics" || starts_with path "/assets/"

abbrev store_of : (r : Redis) → Backend r → r.Store
store_of r (up s) = s
store_of r (unreachable s) = s
store_of r (failing s) = s

abbrev respond : String → Verdict → Response
respond path v =
    if v.allowed
    then passed (some v.remaining)
    else too_many_requests v.retry_after (get_limit path).0

unfoldable pub rate_limit_middleware :
    (r : Redis) → String → String → ℕ → Backend r → r.Store × Response
unfolding is_allowed
rate_limit_middleware r ip path now b =
    if is_skipped path
    then (store_of r b, passed none)
    else (let (s, v) = is_allowed r ip path now b in (s, respond path v))
