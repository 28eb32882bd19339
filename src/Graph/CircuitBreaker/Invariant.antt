-- ===== src/Graph/CircuitBreaker/Invariant.antt =====
-- The invariant of a breaker under every interleaving of calls.
use dgraphai.Prelude.{
  ℕ, ◌+◌, ◌≤◌, ◌<◌, Option, none, some, List, [], ◌∷◌, arith, length, All, All-append, keep, ltb,
  Bool,
}
use dgraphai.Graph.CircuitBreaker.{
  Config, State, closed, opened, half_open, GraphCircuitBreaker, init, Outcome, returned, timed_out,
  breaker_open, raised, admit, on_success, on_failure, finish,
}
use dgraphai.Graph.CircuitBreaker.Schedule.{
  System, Step, tick, begin, refuse, end, Reach, here, next,
}

-- The opening time is set and not in the future.
abbrev pub OpenedBy : ℕ → Option ℕ → Type 0
OpenedBy now none = ⊥
OpenedBy now (some t) = t ≤ now

-- What holds in each state: a closed breaker is below the threshold, an open one knows when it
-- opened.
abbrev pub Consistent : Config → ℕ → GraphCircuitBreaker → State → Type 0
Consistent cfg now b closed = length b.failures < cfg.failure_threshold
Consistent cfg now b opened = OpenedBy now b.opened_at
Consistent cfg now b half_open = OpenedBy now b.opened_at

pub record IsValid (cfg : Config) (now : ℕ) (b : GraphCircuitBreaker) : Type 0 where
  pub past : All (λ t. t ≤ now) b.failures
  pub consistent : Consistent cfg now b b.state

All-keep :
    (p : ℕ → Bool) (now : ℕ) (ts : List ℕ) → All (λ t. t ≤ now) ts → All (λ t. t ≤ now) (keep p ts)
All-keep p now [] h = tt
All-keep p now (t ∷ ts) h = ground (arith, All-keep p now ts h.1)

All-later : (now n : ℕ) (ts : List ℕ) → All (λ t. t ≤ now) ts → All (λ t. t ≤ now + n) ts
All-later now n [] h = tt
All-later now n (t ∷ ts) h = (omega arith, All-later now n ts h.1)

module _ (cfg : Config) where
  tick-IsValid : (now n : ℕ) (b : GraphCircuitBreaker) → IsValid cfg now b → IsValid cfg (now + n) b
  tick-IsValid now n b v = ground (arith, All-later now n b.failures v.past)

  admit-IsValid :
      (now : ℕ) (b : GraphCircuitBreaker) → IsValid cfg now b → IsValid cfg now (admit cfg now b).0
  unfolding admit
  admit-IsValid now b v = ground arith

  on_success-IsValid :
      (now : ℕ) (b : GraphCircuitBreaker)
      → 0 < cfg.failure_threshold
      → IsValid cfg now b
      → IsValid cfg now (on_success b)
  unfolding on_success
  on_success-IsValid now b pos v = ground arith

  on_failure-IsValid :
      (now : ℕ) (b : GraphCircuitBreaker)
      → IsValid cfg now b
      → IsValid cfg now (on_failure cfg now b)
  unfolding on_failure
  on_failure-IsValid now b v = ground (
    arith,
    All-keep (λ t. ltb now (t + cfg.window_secs)) now b.failures v.past,
    All-append (λ t. t ≤ now) (keep (λ t. ltb now (t + cfg.window_secs)) b.failures) (now ∷ []),
  )

  finish-IsValid :
      {A : Type 0} (now : ℕ) (o : Outcome A) (b : GraphCircuitBreaker)
      → 0 < cfg.failure_threshold
      → IsValid cfg now b
      → IsValid cfg now (finish cfg now o b)
  unfolding finish
  finish-IsValid now (returned a) b pos v = on_success-IsValid now b pos v
  finish-IsValid now timed_out b pos v = on_failure-IsValid now b v
  finish-IsValid now breaker_open b pos v = v
  finish-IsValid now (raised e) b pos v = on_failure-IsValid now b v

  Step-IsValid :
      {A : Type 0} {s t : System}
      → 0 < cfg.failure_threshold
      → Step A cfg s t
      → IsValid cfg s.clock s.breaker
      → IsValid cfg t.clock t.breaker
  Step-IsValid pos (tick s n) v = tick-IsValid s.clock n s.breaker v
  Step-IsValid pos (begin s e) v = admit-IsValid s.clock s.breaker v
  Step-IsValid pos (refuse s e) v = admit-IsValid s.clock s.breaker v
  Step-IsValid pos (end s n o e) v = finish-IsValid s.clock o s.breaker pos v

-- With a positive threshold, whatever calls interleave from a fresh breaker: recorded failures are
-- never in the future, a closed breaker holds fewer of them than the threshold, and a breaker that
-- is open or half open knows a time at which it opened, not in the future.
pub Reach-IsValid :
    {A : Type 0} (cfg : Config) (start n : ℕ) {u : System}
    → 0 < cfg.failure_threshold
    → Reach A cfg (record { breaker = init; clock = start; in_flight = n }) u
    → IsValid cfg u.clock u.breaker
Reach-IsValid cfg start n pos here = record { past = tt; consistent = pos }
Reach-IsValid cfg start n pos (next r st) =
    Step-IsValid cfg pos st (Reach-IsValid cfg start n pos r)
