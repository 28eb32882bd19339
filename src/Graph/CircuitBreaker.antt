-- ===== src/Graph/CircuitBreaker.antt =====
-- src/dgraphai/graph/circuit_breaker.py: the breaker's state, the two critical sections of `call`,
-- and the registry of breakers. `time.time()` is an argument, in whole ticks of the clock.
pub mod Schedule
pub mod Invariant
pub mod FailFast
pub mod Burst
mod Tests
use dgraphai.Prelude.{
  ℕ, ◌+◌, ◌-◌, String, Bool, true, false, Option, none, some, List, [], ◌∷◌, ◌++◌, ltb, leb, length,
  keep, not, ◌==◌, ◌&&◌, if◌then◌else◌,
}
use dgraphai.Prelude.Dict.{lookup, insert}

-- the four module constants, read from the environment
pub record Config : Type 0 where
  pub failure_threshold : ℕ
  pub window_secs : ℕ
  pub reset_timeout_secs : ℕ
  pub query_timeout_secs : ℕ

abbrev pub default_config : Config
default_config = record {
  failure_threshold = 5;
  window_secs = 60;
  reset_timeout_secs = 30;
  query_timeout_secs = 30;
}

pub data State : Type 0 where
  closed opened half_open : State

pub record GraphCircuitBreaker : Type 0 where
  pub state : State
  pub failures : List ℕ
  pub opened_at : Option ℕ

abbrev pub init : GraphCircuitBreaker
init = record { state = closed; failures = []; opened_at = none }

abbrev pub is_open : GraphCircuitBreaker → Bool
is_open b = elim b.state [ opened ↦ true | _ ↦ false ]

-- the truth value of `self._opened_at`, for which 0 is false
abbrev truthy : Option ℕ → Bool
truthy none = false
truthy (some t) = not (t == 0)

-- `now - opened_at >= RESET_TIMEOUT_SECS`
abbrev timeout_elapsed : Config → ℕ → Option ℕ → Bool
timeout_elapsed cfg now none = false
timeout_elapsed cfg now (some t) = leb (t + cfg.reset_timeout_secs) now

unfoldable pub maybe_transition : Config → ℕ → GraphCircuitBreaker → GraphCircuitBreaker
maybe_transition cfg now b =
    if is_open b && truthy b.opened_at && timeout_elapsed cfg now b.opened_at
    then record b { state = half_open }
    else b

-- The first critical section of `call`: `true` lets the query run, `false` raises
-- `CircuitBreakerOpen`.
unfoldable pub admit : Config → ℕ → GraphCircuitBreaker → GraphCircuitBreaker × Bool
unfolding maybe_transition
admit cfg now b = let b' = maybe_transition cfg now b in (b', not (is_open b'))

unfoldable pub on_success : GraphCircuitBreaker → GraphCircuitBreaker
on_success b = elim b.state [ half_open ↦ record b { state = closed; failures = [] } | _ ↦ b ]

-- `[t for t in self._failures if now - t < WINDOW_SECS]`
unfoldable pub recent : Config → ℕ → List ℕ → List ℕ
recent cfg now = keep (λ t. ltb now (t + cfg.window_secs))

unfoldable pub on_failure : Config → ℕ → GraphCircuitBreaker → GraphCircuitBreaker
unfolding recent
on_failure cfg now b =
    let failures' = recent cfg now b.failures ++ now ∷ [] in
    elim b.state [
      | half_open ↦ record { state = opened; failures = failures'; opened_at = some now }
      | _ ↦
          if leb cfg.failure_threshold (length failures')
          then record { state = opened; failures = failures'; opened_at = some now }
          else record b { failures = failures' }
    ]

-- How the awaited query ends: its value, the timeout of `wait_for`, a `CircuitBreakerOpen` of its
-- own, or any other exception.
pub data Outcome {ℓ} (A : Type ℓ) : Type ℓ where
  returned : A → Outcome A
  timed_out : Outcome A
  breaker_open : Outcome A
  raised : String → Outcome A

-- The second critical section of `call`, by how the query ended.
unfoldable pub finish {ℓ} :
    {A : Type ℓ} → Config → ℕ → Outcome A → GraphCircuitBreaker → GraphCircuitBreaker
unfolding on_success on_failure
finish cfg now (returned a) b = on_success b
finish cfg now timed_out b = on_failure cfg now b
finish cfg now breaker_open b = b
finish cfg now (raised e) b = on_failure cfg now b

-- A call that nothing interleaves with: begun at `start`, its query over at `end` with `outcome`.
unfoldable pub call {ℓ} :
    {A : Type ℓ}
    → Config
    → ℕ
    → ℕ
    → Outcome A
    → GraphCircuitBreaker
    → Outcome A × GraphCircuitBreaker
unfolding admit finish
call cfg start end outcome b =
    let (b', admitted) = admit cfg start b in
    if admitted then (outcome, finish cfg end outcome b') else (breaker_open, b')

-- `max(0, RESET_TIMEOUT_SECS - (now - opened_at))`, while the breaker is open
unfoldable pub seconds_until_retry : Config → ℕ → GraphCircuitBreaker → Option ℕ
seconds_until_retry cfg now b =
    if truthy b.opened_at && is_open b
    then elim b.opened_at [ none ↦ none | some t ↦ some (t + cfg.reset_timeout_secs - now) ]
    else none

-- The registry, one breaker per tenant.
abbrev pub Breakers : Type 0
Breakers = List (String × GraphCircuitBreaker)

unfoldable pub get_breaker : String → Breakers → GraphCircuitBreaker × Breakers
get_breaker tenant_id breakers = elim (lookup tenant_id breakers) [
  | none ↦ (init, insert tenant_id init breakers)
  | some b ↦ (b, breakers)
]
