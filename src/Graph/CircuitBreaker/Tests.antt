-- ===== src/Graph/CircuitBreaker/Tests.antt =====
-- Runs of the breaker at concrete inputs.
use dgraphai.Prelude.{ℕ, ◌+◌, ◌≡◌, refl, none, some, [], ◌∷◌, arith, ◌≤◌}
use dgraphai.Graph.CircuitBreaker.{
  default_config, closed, opened, half_open, GraphCircuitBreaker, init, returned, timed_out,
  breaker_open, call, on_failure, seconds_until_retry, get_breaker,
}
use dgraphai.Graph.CircuitBreaker.Schedule.{System, tick, end, Reach, here, next}
use dgraphai.Graph.CircuitBreaker.Invariant.{IsValid, Reach-IsValid}
use dgraphai.Graph.CircuitBreaker.FailFast.{Probed, fail_fast, probe, half_open_admits}
use dgraphai.Graph.CircuitBreaker.Burst.{fail_at, burst_state}

abbrev opened_breaker : GraphCircuitBreaker
opened_breaker = record {
  state = opened;
  failures = 101 ∷ 102 ∷ 103 ∷ 104 ∷ 105 ∷ [];
  opened_at = some 105;
}

abbrev tripped : System
tripped = record { breaker = opened_breaker; clock = 105; in_flight = 2 }

abbrev idle : System
idle = record { breaker = init; clock = 100; in_flight = 1 }

abbrev failed : System
failed = record {
  breaker = record { state = closed; failures = 103 ∷ []; opened_at = none };
  clock = 103;
  in_flight = 0;
}

five_failures : fail_at default_config (101 ∷ 102 ∷ 103 ∷ 104 ∷ 105 ∷ []) init ≡ opened_breaker
unfolding on_failure
five_failures = refl

refused_call :
    call {A = ℕ} default_config 120 121 (returned 7) opened_breaker ≡ (breaker_open, opened_breaker)
unfolding call
refused_call = refl

retry_in : seconds_until_retry default_config 120 opened_breaker ≡ some 15
unfolding seconds_until_retry
retry_in = refl

one_per_tenant : (get_breaker "acme" (("acme", opened_breaker) ∷ [])).0 ≡ opened_breaker
unfolding get_breaker
one_per_tenant = refl

-- one call fails, three ticks after it began
to_failed : Reach ℕ default_config idle failed
unfolding call
to_failed = next (next here (tick idle 3)) (end (record idle { clock = 103 }) 0 timed_out refl)

-- one of two running calls fails while the breaker is open, and ten seconds pass
still_refusing : Reach ℕ default_config tripped (record tripped { clock = 115 })
still_refusing = next here (tick tripped 10)

Reach-IsValid_example : IsValid default_config 103 failed.breaker
Reach-IsValid_example = Reach-IsValid default_config 100 1 {u = failed} (omega arith) to_failed

fail_fast_example : (opened_breaker.state ≡ opened) × (◌≤◌ 2 2)
fail_fast_example =
    fail_fast default_config 105 {s = tripped} {u = record tripped { clock = 115 }} refl refl
      (omega arith) still_refusing (omega arith)

probe_run :
    ((call {A = ℕ} default_config 135 137 (returned 7) opened_breaker).0 ≡ returned 7)
    × Probed {A = ℕ} 137 opened_breaker
        (returned 7)
        (call {A = ℕ} default_config 135 137 (returned 7) opened_breaker).1
probe_run = probe default_config 104 135 137 (returned 7) opened_breaker refl refl (omega arith)

half_open_admits_run :
    (u : System) × Reach ℕ default_config
      (record tripped { breaker = record opened_breaker { state = half_open } })
      u
    × (u.breaker.state ≡ half_open)
    × (u.in_flight ≡ 3 + 2)
half_open_admits_run =
    half_open_admits default_config 3
      (record tripped { breaker = record opened_breaker { state = half_open } }) refl

burst_state_run : (fail_at default_config (110 ∷ 103 ∷ 159 ∷ 101 ∷ 120 ∷ []) init).state ≡ opened
burst_state_run =
    burst_state default_config 100 (110 ∷ 103 ∷ 159 ∷ 101 ∷ 120 ∷ []) (omega arith) (omega arith)
