-- ===== src/Resilience/Tests.antt =====
-- A target that always fails, and counts its calls, behind a breaker
-- (src/libs/shared/resilience/circuit-breaker.decorator.ts).
use app_tu_phuc_vu.Prelude.{
  ℕ, ◌+◌, ◌*◌, ◌≡◌, refl, Option, none, some, leb, List, [], ◌∷◌, Result, err,
}
use app_tu_phuc_vu.Resilience.Breaker.{
  CircuitBreakerOptions, CircuitBreakerState, opened, create, record_failure, should_open,
}
use app_tu_phuc_vu.Resilience.Execute.{Thrown, Fallback, execute, execute_all}
use app_tu_phuc_vu.Resilience.Execute.Outcomes.{opened-execute_all}

abbrev options : CircuitBreakerOptions (Thrown ℕ)
options = record {
  timeout = some 60000;
  error_threshold = some 50;
  reset_timeout = some 30000;
  min_requests = some 3;
  error_filter = none;
  reaches = λ failures requests threshold. leb (threshold * requests) (failures * 100);
}

abbrev fails : ℕ → ℕ → Result ℕ ℕ × ℕ
fails code calls = (err code, calls + 1)

abbrev no_fallback : Option (ℕ → Fallback ℕ ℕ)
no_fallback = none

abbrev three_calls : List (ℕ × ℕ)
three_calls = (1000, 500) ∷ (2000, 500) ∷ (3000, 500) ∷ []

abbrev tripped : CircuitBreakerState
tripped = record {
  state = opened;
  state_changed_at = 3000;
  requests = 3;
  failures = 3;
  last_failure_time = 3000;
  success_count = 0;
  failure_count = 3;
}

trip_test : execute_all options fails no_fallback three_calls (create 0) 0 ≡ (tripped, 3)
unfolding execute execute_all record_failure should_open
trip_test = refl

-- The calls come after the reset timeout.
opened-execute_all_example :
    ((execute_all options fails no_fallback ((90000, 1) ∷ (990000, 2) ∷ []) tripped 3).0.state
      ≡ opened)
    × ((execute_all options fails no_fallback ((90000, 1) ∷ (990000, 2) ∷ []) tripped 3).1 ≡ 3)
opened-execute_all_example =
    opened-execute_all options fails no_fallback ((90000, 1) ∷ (990000, 2) ∷ []) tripped 3 refl
