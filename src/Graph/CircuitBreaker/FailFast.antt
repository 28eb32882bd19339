-- ===== src/Graph/CircuitBreaker/FailFast.antt =====
-- An open breaker refuses until its timeout; after it, a probe decides.
use dgraphai.Prelude.{
  ℕ, zero, suc, ap, subst, Bool, true, ◌+◌, ◌≤◌, ◌<◌, ◌≡◌, Option, none, some, [], arith,
}
use dgraphai.Graph.CircuitBreaker.{
  Config, closed, opened, half_open, GraphCircuitBreaker, Outcome, returned, timed_out,
  breaker_open, raised, admit, finish, call,
}
use dgraphai.Graph.CircuitBreaker.Schedule.{
  System, Step, tick, begin, refuse, end, Reach, here, next,
}

abbrev OpenSince : ℕ → Option ℕ → Type 0
OpenSince t none = ⊥
OpenSince t (some u) = t ≤ u

-- open since `t` or later, and no call begun since `n` were running
record Refusing (t n : ℕ) (s : System) : Type 0 where
  pub state : s.breaker.state ≡ opened
  pub since : OpenSince t s.breaker.opened_at
  pub running : s.in_flight ≤ n

module _ {A : Type 0} (cfg : Config) where
  finish-Refusing :
      (t n : ℕ) (s : System) (m : ℕ) (o : Outcome A)
      → s.in_flight ≡ suc m
      → t ≤ s.clock
      → Refusing t n s
      → Refusing t n (record s { breaker = finish cfg s.clock o s.breaker; in_flight = m })
  unfolding finish
  finish-Refusing t n s m (returned a) e le r = ground arith
  finish-Refusing t n s m timed_out e le r = ground arith
  finish-Refusing t n s m breaker_open e le r = ground arith
  finish-Refusing t n s m (raised x) e le r = ground arith

  Step-Refusing :
      (t n : ℕ) {s u : System}
      → Step A cfg s u
      → t ≤ s.clock
      → u.clock < t + cfg.reset_timeout_secs
      → Refusing t n s
      → Refusing t n u
  unfolding admit
  Step-Refusing t n (tick s k) le before r = ground arith
  Step-Refusing t n (begin s e) le before r = ground arith
  Step-Refusing t n (refuse s e) le before r = ground arith
  Step-Refusing t n (end s k o e) le before r = finish-Refusing t n s k o e le r

  Step-clock : {s u : System} → Step A cfg s u → s.clock ≤ u.clock
  Step-clock (tick s k) = omega arith
  Step-clock (begin s e) = omega arith
  Step-clock (refuse s e) = omega arith
  Step-clock (end s k o e) = omega arith

  Reach-clock : {s u : System} → Reach A cfg s u → s.clock ≤ u.clock
  Reach-clock here = omega arith
  Reach-clock (next r st) = omega (arith, Reach-clock r, Step-clock st)

  Reach-Refusing :
      (t n : ℕ) {s u : System}
      → Reach A cfg s u
      → t ≤ s.clock
      → u.clock < t + cfg.reset_timeout_secs
      → Refusing t n s
      → Refusing t n u
  Reach-Refusing t n here le before r = r
  Reach-Refusing t n (next {t = v} w st) le before r =
      Step-Refusing t n st (omega (arith, Reach-clock w)) before
        (Reach-Refusing t n w le (omega (arith, Step-clock st)) r)

-- From a breaker that opened at `t`, under every interleaving and for as long as the clock has not
-- reached `t` plus the reset timeout, the breaker is open and no call has begun: no more are
-- running than ran before.
pub fail_fast :
    {A : Type 0} (cfg : Config) (t : ℕ) {s u : System}
    → s.breaker.state ≡ opened
    → s.breaker.opened_at ≡ some t
    → t ≤ s.clock
    → Reach A cfg s u
    → u.clock < t + cfg.reset_timeout_secs
    → (u.breaker.state ≡ opened) × (u.in_flight ≤ s.in_flight)
fail_fast cfg t {s} {u} st at le r before =
    let v : Refusing t s.in_flight u =
      Reach-Refusing cfg t s.in_flight r le before
        (record { state = st; since = rw at (omega arith); running = omega arith }) in
    (v.state, v.running)

-- What a probe of a breaker `b` leaves behind, by how its query ended at the time `over`.
abbrev pub Probed :
    {A : Type 0} → ℕ → GraphCircuitBreaker → Outcome A → GraphCircuitBreaker → Type 0
Probed over b (returned a) b' = b' ≡ record b { state = closed; failures = [] }
Probed over b breaker_open b' = b' ≡ record b { state = half_open }
Probed over b timed_out b' = (b'.state ≡ opened) × (b'.opened_at ≡ some over)
Probed over b (raised e) b' = (b'.state ≡ opened) × (b'.opened_at ≡ some over)

-- A call that finds a breaker open since a time other than 0, at least the reset timeout ago,
-- is let through as a probe, and the caller gets what the query gave. If the query returns, the
-- breaker closes and forgets every failure; if the query times out or raises, the breaker is open
-- again, counted from the end of the query; a `CircuitBreakerOpen` of the query's own leaves it
-- half open.
pub probe :
    {A : Type 0} (cfg : Config) (t begun over : ℕ) (o : Outcome A) (b : GraphCircuitBreaker)
    → b.state ≡ opened
    → b.opened_at ≡ some (suc t)
    → suc t + cfg.reset_timeout_secs ≤ begun
    → ((call cfg begun over o b).0 ≡ o) × Probed over b o (call cfg begun over o b).1
unfolding call
probe cfg t begun over (returned a) b st at le = ground arith
probe cfg t begun over timed_out b st at le = ground arith
probe cfg t begun over breaker_open b st at le = ground arith
probe cfg t begun over (raised e) b st at le = ground arith

admit-half_open :
    (cfg : Config) (now : ℕ) (b : GraphCircuitBreaker)
    → b.state ≡ half_open
    → admit cfg now b ≡ (b, true)
unfolding admit
admit-half_open cfg now b h = ground arith

begin_half_open :
    {A : Type 0} (cfg : Config) (s : System)
    → s.breaker.state ≡ half_open
    → Step A cfg s (record s { in_flight = suc s.in_flight })
begin_half_open {A} cfg s h =
    let e = admit-half_open cfg s.clock s.breaker h in
    subst
      (λ (p : GraphCircuitBreaker × Bool).
        Step A cfg s (record s { breaker = p.0; in_flight = suc s.in_flight }))
      e (begin s (ap (λ (p : GraphCircuitBreaker × Bool). p.1) e))

-- A half-open breaker lets through any number of calls at once: for every `n` there is an
-- interleaving after which `n` more calls are running and the breaker is still half open.
pub half_open_admits :
    {A : Type 0} (cfg : Config) (n : ℕ) (s : System)
    → s.breaker.state ≡ half_open
    → (u : System) × Reach A cfg s u
      × (u.breaker.state ≡ half_open)
      × (u.in_flight ≡ n + s.in_flight)
half_open_admits {A} cfg zero s h = (s, here, h, omega arith)
half_open_admits {A} cfg (suc n) s h =
    let (u, r, hu, e) = half_open_admits {A = A} cfg n s h in
    (record u { in_flight = suc u.in_flight }, next r (begin_half_open cfg u hu), hu, omega arith)
