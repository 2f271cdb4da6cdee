-- ===== src/Providers/Breaker.antt =====
-- packages/providers/src/circuit-breaker.ts: the circuit breaker of a provider. Times are
-- milliseconds.
pub mod Laws
use z_float_2_main.Prelude.{ℕ, ◌+◌, Bool, true, false, List, [], ◌∷◌, leb, if◌then◌else◌}

pub data CircuitState : Type 0 where
  closed open_circuit half_open : CircuitState

pub record CircuitBreakerConfig : Type 0 where
  pub failure_threshold : ℕ
  pub success_threshold : ℕ
  pub timeout_ms : ℕ

pub record CircuitBreaker : Type 0 where
  pub state : CircuitState
  pub failure_count : ℕ
  pub success_count : ℕ
  pub last_failure_time : ℕ
  pub last_state_change : ℕ

-- `new CircuitBreaker`, at the time `now`.
unfoldable pub new_breaker : ℕ → CircuitBreaker
new_breaker now = record {
  state = closed;
  failure_count = 0;
  success_count = 0;
  last_failure_time = 0;
  last_state_change = now;
}

module _ (cfg : CircuitBreakerConfig) (now : ℕ) where
  abbrev pub has_timed_out : CircuitBreaker → Bool
  has_timed_out b = leb (b.last_failure_time + cfg.timeout_ms) now

  abbrev pub try_again : CircuitBreaker → CircuitBreaker
  try_again b = record b { state = half_open; success_count = 0; last_state_change = now }

  -- The branch of `canExecute` at each state.
  unfoldable pub can_execute_at : CircuitState → CircuitBreaker → Bool × CircuitBreaker
  can_execute_at closed b = (true, b)
  can_execute_at open_circuit b = if has_timed_out b then (true, try_again b) else (false, b)
  can_execute_at half_open b = (true, b)

  -- `canExecute`: whether a request may go through.
  unfoldable pub can_execute : CircuitBreaker → Bool × CircuitBreaker
  can_execute b = can_execute_at b.state b

  abbrev pub close : CircuitBreaker → CircuitBreaker
  close b = record b {
    state = closed;
    failure_count = 0;
    success_count = 0;
    last_state_change = now;
  }

  unfoldable pub record_success_at : CircuitState → CircuitBreaker → CircuitBreaker
  record_success_at half_open b =
      if leb cfg.success_threshold (b.success_count + 1)
      then close b
      else record b { success_count = b.success_count + 1 }
  record_success_at closed b = record b { failure_count = 0 }
  record_success_at open_circuit b = b

  -- `recordSuccess`
  unfoldable pub record_success : CircuitBreaker → CircuitBreaker
  record_success b = record_success_at b.state b

  -- `forceOpen`
  unfoldable pub force_open : CircuitBreaker → CircuitBreaker
  force_open b = record b { state = open_circuit; last_state_change = now }

  -- `forceClose`
  unfoldable pub force_close : CircuitBreaker → CircuitBreaker
  force_close b = close b

  abbrev pub count_failure : CircuitBreaker → CircuitBreaker
  count_failure b = record b { failure_count = b.failure_count + 1; last_failure_time = now }

  unfoldable pub record_failure_at : CircuitState → CircuitBreaker → CircuitBreaker
  unfolding force_open
  record_failure_at half_open b = force_open b
  record_failure_at closed b = if leb cfg.failure_threshold b.failure_count then force_open b else b
  record_failure_at open_circuit b = b

  -- `recordFailure`
  unfoldable pub record_failure : CircuitBreaker → CircuitBreaker
  record_failure b = record_failure_at b.state (count_failure b)

-- A call of the breaker.
pub data Call : Type 0 where
  ask succeed fail trip reset : Call

unfoldable pub step : CircuitBreakerConfig → ℕ → Call → CircuitBreaker → CircuitBreaker
step cfg now ask b = (can_execute cfg now b).1
step cfg now succeed b = record_success cfg now b
step cfg now fail b = record_failure cfg now b
step cfg now trip b = force_open cfg now b
step cfg now reset b = force_close cfg now b

-- Calls at their times, in turn.
unfoldable pub run : CircuitBreakerConfig → List (ℕ × Call) → CircuitBreaker → CircuitBreaker
run cfg [] b = b
run cfg ((now, call) ∷ calls) b = run cfg calls (step cfg now call b)
