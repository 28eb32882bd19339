-- ===== src/RateLimit/Limiter/Refusal.antt =====
-- When the middleware refuses.
use dgraphai.Prelude.{Bool, String, arith, false, leb, not, true, ℕ, ◌&&◌, ◌≡◌}
use dgraphai.RateLimit.Limiter.{
  Backend, Response, check_window, failing, get_limit, is_allowed, is_skipped, key_of, passed,
  prune, rate_limit_middleware, too_many_requests, unreachable, up,
}
use dgraphai.RateLimit.Redis.{Redis}

abbrev pub is_refusal : Response → Bool
is_refusal (passed n) = false
is_refusal (too_many_requests secs limit) = true

-- Redis answers, and what is left of the set in the window has reached the limit of the path.
abbrev pub over_limit : (r : Redis) → String → String → ℕ → Backend r → Bool
over_limit r ip path now (up s) =
    let key = key_of ip path in
    leb (get_limit path).0 (r.zcard key (prune r key (get_limit path).1 now s))
over_limit r ip path now _ = false

-- A request is answered with 429 exactly if its path is not skipped and its set has reached the
-- limit; when Redis cannot be reached or raises, no request is refused.
pub rate_limit_middleware_lem :
    (r : Redis) (ip path : String) (now : ℕ) (b : Backend r)
    → is_refusal (rate_limit_middleware r ip path now b).1
      ≡ (not (is_skipped path) && over_limit r ip path now b)
unfolding rate_limit_middleware is_allowed check_window
rate_limit_middleware_lem r ip path now (up s) = ground arith
rate_limit_middleware_lem r ip path now (unreachable s) = ground arith
rate_limit_middleware_lem r ip path now (failing s) = ground arith
