-- ===== src/Providers/Tests.antt =====
-- Runs of the circuit breaker.
use z_float_2_main.Prelude.{ℕ, ◌≡◌, refl, List, [], ◌∷◌, arith, leb}
use z_float_2_main.Providers.Breaker.{
  CircuitBreakerConfig, CircuitBreaker, closed, new_breaker, Call, ask, succeed, fail, trip, run,
}
use z_float_2_main.Providers.Breaker.Laws.{
  IsBelow, IsWithin, run-IsWithin, failures, is_open, failures_open,
}

abbrev config : CircuitBreakerConfig
config = record { failure_threshold = 3; success_threshold = 2; timeout_ms = 100 }

abbrev fresh : CircuitBreaker
fresh = record {
  state = closed;
  failure_count = 0;
  success_count = 0;
  last_failure_time = 0;
  last_state_change = 1;
}

fresh-is_new : new_breaker 1 ≡ fresh
unfolding new_breaker
fresh-is_new = refl

abbrev calls : List (ℕ × Call)
calls = (2, fail) ∷ (3, trip) ∷ (200, ask) ∷ (201, succeed) ∷ (202, succeed) ∷ []

fresh-IsWithin : IsWithin config fresh
unfolding IsBelow
fresh-IsWithin = omega arith

run-IsWithin_example : IsWithin config (run config calls fresh)
run-IsWithin_example = run-IsWithin config calls fresh (omega arith) (omega arith) fresh-IsWithin

failures_open_example : is_open (run config (failures (2 ∷ 3 ∷ 4 ∷ [])) fresh).state ≡ leb 3 3
failures_open_example = failures_open config (2 ∷ 3 ∷ 4 ∷ []) fresh refl (omega arith)
