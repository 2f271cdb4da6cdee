-- ===== src/Providers/Breaker/Laws.antt =====
-- What the circuit breaker promises.
use z_float_2_main.Prelude.{
  ℕ, ◌+◌, ◌<◌, ◌≡◌, refl, Bool, true, false, List, [], ◌∷◌, leb, arith, Bool-cases, inl, inr,
  length, ◌∙◌,
}
use z_float_2_main.Providers.Breaker.{
  CircuitState, closed, open_circuit, half_open, CircuitBreakerConfig, CircuitBreaker,
  has_timed_out, can_execute_at, can_execute, record_success_at, record_success, force_open,
  force_close, record_failure_at, record_failure, Call, ask, succeed, fail, trip, reset, step, run,
}

module _ (cfg : CircuitBreakerConfig) where
  -- A closed breaker is under its threshold of failures, one that is half open under its threshold
  -- of successes.
  unfoldable pub IsBelow : CircuitState → CircuitBreaker → Type 0
  IsBelow closed b = b.failure_count < cfg.failure_threshold
  IsBelow half_open b = b.success_count < cfg.success_threshold
  IsBelow open_circuit b = Unit

  abbrev pub IsWithin : CircuitBreaker → Type 0
  IsWithin b = IsBelow b.state b

  module _ (some_failures : 0 < cfg.failure_threshold) (some_successes : 0 < cfg.success_threshold)
      (now : ℕ) where
    can_execute_at-IsWithin :
        (x : CircuitState) (b : CircuitBreaker)
        → b.state ≡ x
        → IsBelow x b
        → IsWithin (can_execute_at cfg now x b).1
    unfolding can_execute_at IsBelow
    can_execute_at-IsWithin closed b e h = rw e h
    can_execute_at-IsWithin half_open b e h = rw e h
    can_execute_at-IsWithin open_circuit b e h = elim (Bool-cases (has_timed_out cfg now b)) [
      | inl late ↦ rw late some_successes
      | inr early ↦ rw (early, e) tt
    ]

    record_success_at-IsWithin :
        (x : CircuitState) (b : CircuitBreaker)
        → b.state ≡ x
        → IsBelow x b
        → IsWithin (record_success_at cfg now x b)
    unfolding record_success_at IsBelow
    record_success_at-IsWithin closed b e h = rw e some_failures
    record_success_at-IsWithin open_circuit b e h = rw e tt
    record_success_at-IsWithin half_open b e h =
        elim (Bool-cases (leb cfg.success_threshold (b.success_count + 1))) [
          | inl enough ↦ rw enough some_failures
          | inr few ↦ rw (few, e) (ground arith)
        ]

    record_failure_at-IsWithin :
        (x : CircuitState) (b : CircuitBreaker)
        → b.state ≡ x
        → IsWithin (record_failure_at cfg now x b)
    unfolding record_failure_at force_open IsBelow
    record_failure_at-IsWithin half_open b e = tt
    record_failure_at-IsWithin open_circuit b e = rw e tt
    record_failure_at-IsWithin closed b e =
        elim (Bool-cases (leb cfg.failure_threshold b.failure_count)) [
          | inl enough ↦ rw enough tt
          | inr few ↦ rw (few, e) (ground arith)
        ]

    step-IsWithin : (call : Call) (b : CircuitBreaker) → IsWithin b → IsWithin (step cfg now call b)
    unfolding step can_execute record_success record_failure force_open force_close IsBelow
    step-IsWithin ask b h = can_execute_at-IsWithin b.state b refl h
    step-IsWithin succeed b h = record_success_at-IsWithin b.state b refl h
    step-IsWithin fail b h = record_failure_at-IsWithin b.state _ refl
    step-IsWithin trip b h = tt
    step-IsWithin reset b h = some_failures

-- With thresholds of at least one, calls of any kind at any times keep a closed breaker under its
-- threshold of failures, and one that is half open under its threshold of successes: the breaker
-- never stays closed, or half open, with its threshold reached.
pub run-IsWithin :
    (cfg : CircuitBreakerConfig) (calls : List (ℕ × Call)) (b : CircuitBreaker)
    → 0 < cfg.failure_threshold
    → 0 < cfg.success_threshold
    → IsWithin cfg b
    → IsWithin cfg (run cfg calls b)
unfolding run
run-IsWithin cfg [] b f k h = h
run-IsWithin cfg ((now, call) ∷ calls) b f k h =
    run-IsWithin cfg calls (step cfg now call b) f k (step-IsWithin cfg f k now call b h)

-- Failures at the times given, and no other call.
abbrev pub failures : List ℕ → List (ℕ × Call)
failures [] = []
failures (now ∷ times) = (now, fail) ∷ failures times

abbrev pub is_open : CircuitState → Bool
is_open closed = false
is_open open_circuit = true
is_open half_open = false

module _ (cfg : CircuitBreakerConfig) (now : ℕ) (b : CircuitBreaker) where
  failure_when_open : b.state ≡ open_circuit → (record_failure cfg now b).state ≡ open_circuit
  unfolding record_failure record_failure_at
  failure_when_open e = rw e refl

  failure_at_threshold :
      b.state ≡ closed
      → leb cfg.failure_threshold (b.failure_count + 1) ≡ true
      → (record_failure cfg now b).state ≡ open_circuit
  unfolding record_failure record_failure_at force_open
  failure_at_threshold e enough = rw (e, enough) refl

  failure_below_threshold :
      b.state ≡ closed
      → leb cfg.failure_threshold (b.failure_count + 1) ≡ false
      → ((record_failure cfg now b).state ≡ closed)
        × ((record_failure cfg now b).failure_count ≡ b.failure_count + 1)
  unfolding record_failure record_failure_at
  failure_below_threshold e few = (rw (e, few) refl, rw (e, few) refl)

stays_open :
    (cfg : CircuitBreakerConfig) (times : List ℕ) (b : CircuitBreaker)
    → b.state ≡ open_circuit
    → (run cfg (failures times) b).state ≡ open_circuit
unfolding run step
stays_open cfg [] b e = e
stays_open cfg (now ∷ times) b e =
    stays_open cfg times (record_failure cfg now b) (failure_when_open cfg now b e)

-- A closed breaker is open after a row of failures exactly when they reach, with those that it had
-- counted, the threshold.
pub failures_open :
    (cfg : CircuitBreakerConfig) (times : List ℕ) (b : CircuitBreaker)
    → b.state ≡ closed
    → b.failure_count < cfg.failure_threshold
    → is_open (run cfg (failures times) b).state
      ≡ leb cfg.failure_threshold (b.failure_count + length times)
unfolding run step
failures_open cfg [] b e h = rw e (ground arith)
failures_open cfg (now ∷ times) b e h =
    elim (Bool-cases (leb cfg.failure_threshold (b.failure_count + 1))) [
      | inl enough ↦
          rw
            (stays_open cfg times (record_failure cfg now b)
              (failure_at_threshold cfg now b e enough))
            (ground arith)
      | inr few ↦
          let (still, counted) = failure_below_threshold cfg now b e few in
          failures_open cfg times (record_failure cfg now b) still (rw counted (ground arith))
          ∙ rw counted (ground arith)
    ]
