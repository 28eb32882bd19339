-- ===== src/RateLimit/Tests.antt =====
-- The limiter over a store that is a table of lists.
use dgraphai.Prelude.{not, ◌&&◌}
use dgraphai.RateLimit.Limiter.{is_skipped, rate_limit_middleware, up}
use dgraphai.RateLimit.Limiter.Refusal.{is_refusal, over_limit, rate_limit_middleware_lem}
use dgraphai.Prelude.{
  List, String, [], arith, eq_refl, false, keep, length, ltb, none, refl, some, ℕ, ◌++◌, ◌-◌, ◌∷◌,
  ◌≡◌,
}
use dgraphai.Prelude.Dict.{insert, lookup, lookup-insert}
use dgraphai.RateLimit.Limiter.{check_window, get_limit, micros}
use dgraphai.RateLimit.Limiter.Window.{check_window-count, serve}
use dgraphai.RateLimit.Redis.{Redis, RedisLaws}

-- a set that is missing is empty
abbrev scores_of : String → List (String × List ℕ) → List ℕ
scores_of k s = elim (lookup k s) [ none ↦ [] | some ts ↦ ts ]

abbrev tables : Redis
tables = record {
  Store = List (String × List ℕ);
  scores = scores_of;
  zremrangebyscore = λ k c s. insert k (keep (λ t. ltb c t) (scores_of k s)) s;
  zcard = λ k s. length (scores_of k s);
  zadd = λ k t s. insert k (scores_of k s ++ t ∷ []) s;
  expire = λ k n s. s;
}

scores_of-insert :
    (k : String) (ts : List ℕ) (s : List (String × List ℕ)) → scores_of k (insert k ts s) ≡ ts
scores_of-insert k ts s = ground (arith, lookup-insert k k ts s, eq_refl k)

tables-RedisLaws : RedisLaws tables
tables-RedisLaws = record {
  zremrangebyscore_scores = λ k c s. scores_of-insert k (keep (λ t. ltb c t) (scores_of k s)) s;
  zcard_length = λ k s. refl;
  zadd_last = λ k t s h. scores_of-insert k (scores_of k s ++ t ∷ []) s;
  expire_keeps = λ k n s h. refl;
}

-- two in the minute, of which the second is refused at a limit of one; both are counted
abbrev times : List ℕ
times = 100000000 ∷ 110000000 ∷ []

check_window-count_example :
    (check_window tables "rl:ip:/graphql" 1 60 165000000
      (serve tables "rl:ip:/graphql" 1 60 times [])).1.allowed
    ≡ ltb (length (keep (λ u. ltb (165000000 - micros 60) u) times)) 1
check_window-count_example =
    check_window-count tables tables-RedisLaws "rl:ip:/graphql" 1 60 0 165000000 times []
      (omega arith) refl (omega arith, (omega arith, tt)) (omega arith)

refused_by_a_refused_one :
    (check_window tables "rl:ip:/graphql" 1 60 165000000
      (serve tables "rl:ip:/graphql" 1 60 times [])).1.allowed
    ≡ false
unfolding check_window
refused_by_a_refused_one = refl

limit_of_login : get_limit "/api/auth/login" ≡ (10, 60)
unfolding get_limit
limit_of_login = refl

rate_limit_middleware_lem_run :
    is_refusal
      (rate_limit_middleware tables "ip" "/api/stream" 100000000
        (up (("rl:ip:/api/stream", 1 ∷ 2 ∷ 50000000 ∷ []) ∷ []))).1
    ≡ (not (is_skipped "/api/stream")
        && over_limit tables "ip" "/api/stream" 100000000
            (up (("rl:ip:/api/stream", 1 ∷ 2 ∷ 50000000 ∷ []) ∷ [])))
rate_limit_middleware_lem_run =
    rate_limit_middleware_lem tables "ip" "/api/stream" 100000000
      (up (("rl:ip:/api/stream", 1 ∷ 2 ∷ 50000000 ∷ []) ∷ []))
