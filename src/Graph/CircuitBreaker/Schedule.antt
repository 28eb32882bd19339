-- ===== src/Graph/CircuitBreaker/Schedule.antt =====
-- Interleavings of `GraphCircuitBreaker.call`: a query runs outside the lock, so between the two
-- critical sections of one call any number of others may enter or leave.
use dgraphai.Prelude.{ℕ, suc, ◌+◌, ◌≡◌, true, false}
use dgraphai.Graph.CircuitBreaker.{Config, GraphCircuitBreaker, Outcome, admit, finish}

pub record System : Type 0 where
  pub breaker : GraphCircuitBreaker
  pub clock : ℕ
  pub in_flight : ℕ

module _ (A : Type 0) (cfg : Config) where
  pub data Step : System → System → Type 0 where
    tick : (s : System) (n : ℕ) → Step s (record s { clock = s.clock + n })
    begin :
        (s : System)
        → (admit cfg s.clock s.breaker).1 ≡ true
        → Step s
            (record s { breaker = (admit cfg s.clock s.breaker).0; in_flight = suc s.in_flight })
    refuse :
        (s : System)
        → (admit cfg s.clock s.breaker).1 ≡ false
        → Step s (record s { breaker = (admit cfg s.clock s.breaker).0 })
    end :
        (s : System) (n : ℕ) (outcome : Outcome A)
        → s.in_flight ≡ suc n
        → Step s (record s { breaker = finish cfg s.clock outcome s.breaker; in_flight = n })

  pub data Reach (s : System) : System → Type 0 where
    here : Reach s s
    next : {t u : System} → Reach s t → Step t u → Reach s u
