-- ===== src/Graph/CircuitBreaker/Burst.antt =====
-- When a run of failures opens a fresh breaker.
use dgraphai.Prelude.{
  ℕ, suc, ◌+◌, ◌≤◌, ◌<◌, ◌≡◌, refl, ap, some, inl, inr, Bool-cases, [], ◌∷◌, ◌++◌, List, arith, leb,
  if◌then◌else◌, length, All, length-append, All-append, false,
}
use dgraphai.Graph.CircuitBreaker.{
  Config, closed, opened, GraphCircuitBreaker, init, recent, on_failure,
}

-- failures at the given times, one after the other
abbrev pub fail_at : Config → List ℕ → GraphCircuitBreaker → GraphCircuitBreaker
fail_at cfg [] b = b
fail_at cfg (t ∷ ts) b = fail_at cfg ts (on_failure cfg t b)

abbrev pub Within : ℕ → ℕ → ℕ → Type 0
Within lo w t = (lo ≤ t) × (t < lo + w)

recent_whole :
    (cfg : Config) (lo now : ℕ) (ts : List ℕ)
    → now < lo + cfg.window_secs
    → All (Within lo cfg.window_secs) ts
    → recent cfg now ts ≡ ts
unfolding recent
recent_whole cfg lo now [] lt h = refl
recent_whole cfg lo now (t ∷ ts) lt h = ground (arith, recent_whole cfg lo now ts lt h.1)

stays_open :
    (cfg : Config) (ts : List ℕ) (b : GraphCircuitBreaker)
    → b.state ≡ opened
    → (fail_at cfg ts b).state ≡ opened
unfolding on_failure
stays_open cfg [] b h = h
stays_open cfg (t ∷ ts) b h = stays_open cfg ts (on_failure cfg t b) (ground arith)

-- the window test of `recent`, on the whole list
module _ (cfg : Config) (lo : ℕ) where
  on_failure_closed :
      (t : ℕ) (b : GraphCircuitBreaker)
      → b.state ≡ closed
      → Within lo cfg.window_secs t
      → All (Within lo cfg.window_secs) b.failures
      → on_failure cfg t b ≡ (
          if leb cfg.failure_threshold (suc (length b.failures))
          then record { state = opened; failures = b.failures ++ t ∷ []; opened_at = some t }
          else record { state = closed; failures = b.failures ++ t ∷ []; opened_at = b.opened_at })
  unfolding on_failure
  on_failure_closed t b st w old =
      rw (st, recent_whole cfg lo t b.failures w.1 old, length-append b.failures (t ∷ []))
        (ground arith)

  on_failure_under :
      (t : ℕ) (b : GraphCircuitBreaker)
      → b.state ≡ closed
      → Within lo cfg.window_secs t
      → All (Within lo cfg.window_secs) b.failures
      → leb cfg.failure_threshold (suc (length b.failures)) ≡ false
      → on_failure cfg t b
        ≡ record { state = closed; failures = b.failures ++ t ∷ []; opened_at = b.opened_at }
  on_failure_under t b st w old under = ground (arith, on_failure_closed t b st w old)

  fail_at_state :
      (ts : List ℕ) (b : GraphCircuitBreaker)
      → b.state ≡ closed
      → All (Within lo cfg.window_secs) b.failures
      → length b.failures < cfg.failure_threshold
      → All (Within lo cfg.window_secs) ts
      → (fail_at cfg ts b).state
        ≡ (if leb cfg.failure_threshold (length b.failures + length ts) then opened else closed)
  fail_at_state [] b st old few h = ground arith
  fail_at_state (t ∷ ts) b st old few h =
      elim (Bool-cases (leb cfg.failure_threshold (suc (length b.failures)))) [
        | inl trips ↦
            ground (arith, on_failure_closed t b st h.0 old, stays_open cfg ts (on_failure cfg t b))
        | inr under ↦
            let b' : GraphCircuitBreaker = record {
              state = closed;
              failures = b.failures ++ t ∷ [];
              opened_at = b.opened_at;
            } in
            let n : length b'.failures ≡ suc (length b.failures) =
              rw (length-append b.failures (t ∷ [])) (omega arith) in
            let e : (fail_at cfg ts (on_failure cfg t b)).state ≡ (fail_at cfg ts b').state =
              ap (λ (c : GraphCircuitBreaker). (fail_at cfg ts c).state)
                (on_failure_under t b st h.0 old under) in
            let ih : (fail_at cfg ts b').state ≡ (
                if leb cfg.failure_threshold (length b'.failures + length ts)
                then opened
                else closed) =
              fail_at_state ts b' refl
                (All-append (Within lo cfg.window_secs) b.failures (t ∷ []) old (h.0, tt))
                (ground arith) h.1 in
            ground arith
      ]

-- From a fresh breaker with a positive threshold, failures that all lie within one window (any
-- interval of the window's length) open the breaker exactly when there are at least as many of
-- them as the threshold; with fewer it is closed. Their order does not matter.
pub burst_state :
    (cfg : Config) (lo : ℕ) (ts : List ℕ)
    → 0 < cfg.failure_threshold
    → All (Within lo cfg.window_secs) ts
    → (fail_at cfg ts init).state
      ≡ (if leb cfg.failure_threshold (length ts) then opened else closed)
burst_state cfg lo ts pos h = rw (fail_at_state cfg lo ts init refl tt pos h) (ground arith)
