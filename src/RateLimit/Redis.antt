-- ===== src/RateLimit/Redis.antt =====
-- The commands of Redis on sorted sets that the limiter sends, as an interface. The limiter adds a
-- member with the score that is its own text, so a set is the list of its scores, in their order.
-- A time is in microseconds.
use dgraphai.Prelude.{All, List, String, [], keep, length, ltb, ℕ, ◌++◌, ◌<◌, ◌∷◌, ◌≡◌}

pub record Redis : Type 1 where
  pub Store : Type 0
  pub scores : String → Store → List ℕ
  -- the scores from 0 to a bound, itself included
  pub zremrangebyscore : String → ℕ → Store → Store
  pub zcard : String → Store → ℕ
  pub zadd : String → ℕ → Store → Store
  pub expire : String → ℕ → Store → Store

-- What is documented of them, at one key.
pub record RedisLaws (r : Redis) : Type 0 where
  pub zremrangebyscore_scores :
      (k : String) (c : ℕ) (s : r.Store)
      → r.scores k (r.zremrangebyscore k c s) ≡ keep (λ t. ltb c t) (r.scores k s)
  pub zcard_length : (k : String) (s : r.Store) → r.zcard k s ≡ length (r.scores k s)
  pub zadd_last :
      (k : String) (t : ℕ) (s : r.Store)
      → All (λ u. u < t) (r.scores k s)
      → r.scores k (r.zadd k t s) ≡ r.scores k s ++ t ∷ []
  pub expire_keeps :
      (k : String) (n : ℕ) (s : r.Store) → 0 < n → r.scores k (r.expire k n s) ≡ r.scores k s
