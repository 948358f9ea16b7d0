-- ===== src/Resilience/Breaker.antt =====
-- src/libs/shared/resilience/circuit-breaker.state.ts: the state machine of one breaker. `now` is
-- `Date.now()`, read once in a synchronous method. The logger is left out.
use app_tu_phuc_vu.Prelude.{
  ℕ, zero, suc, ◌+◌, ◌-◌, Bool, true, false, not, ltb, leb, Option, none, some, if◌then◌else◌,
}

pub data CircuitState : Type 0 where
  closed opened half_open : CircuitState

-- A number that is absent is none; `reaches failures requests threshold` is the test on doubles
-- `failures / requests * 100 >= threshold`, for a positive number of requests.
pub record CircuitBreakerOptions (E : Type 0) : Type 0 where
  pub timeout : Option ℕ
  pub error_threshold : Option ℕ
  pub reset_timeout : Option ℕ
  pub min_requests : Option ℕ
  pub error_filter : Option (E → Bool)
  pub reaches : ℕ → ℕ → ℕ → Bool

pub record CircuitBreakerState : Type 0 where
  pub state : CircuitState
  pub state_changed_at : ℕ
  pub requests : ℕ
  pub failures : ℕ
  pub last_failure_time : ℕ
  pub success_count : ℕ
  pub failure_count : ℕ

-- `value || default`: 0 is falsy too.
abbrev pub or_default : Option ℕ → ℕ → ℕ
or_default none d = d
or_default (some zero) d = d
or_default (some (suc n)) d = suc n

abbrev pub create : ℕ → CircuitBreakerState
create now = record {
  state = closed;
  state_changed_at = now;
  requests = 0;
  failures = 0;
  last_failure_time = 0;
  success_count = 0;
  failure_count = 0;
}

abbrev pub reset_metrics : CircuitBreakerState → CircuitBreakerState
reset_metrics s = record s {
  requests = 0;
  failures = 0;
  success_count = 0;
  failure_count = 0;
  last_failure_time = 0;
}

abbrev pub open_circuit : ℕ → CircuitBreakerState → CircuitBreakerState
open_circuit now s = record s { state = opened; state_changed_at = now }

abbrev pub close_circuit : ℕ → CircuitBreakerState → CircuitBreakerState
close_circuit now s = reset_metrics (record s { state = closed; state_changed_at = now })

abbrev pub move_half_open : ℕ → CircuitBreakerState → CircuitBreakerState
move_half_open now s = reset_metrics (record s { state = half_open; state_changed_at = now })

abbrev pub reset : ℕ → CircuitBreakerState → CircuitBreakerState
reset now s = reset_metrics (record s { state = closed; state_changed_at = now })

abbrev pub is_open : CircuitState → Bool
is_open opened = true
is_open closed = false
is_open half_open = false

abbrev pub is_half_open : CircuitState → Bool
is_half_open half_open = true
is_half_open closed = false
is_half_open opened = false

module _ {E : Type 0} (options : CircuitBreakerOptions E) where
  abbrev pub cleanup_old_requests : ℕ → CircuitBreakerState → CircuitBreakerState
  cleanup_old_requests now s =
      if ltb (or_default options.timeout 60000) (now - s.state_changed_at)
      then record s {
        requests = s.success_count;
        failures = s.failure_count;
        state_changed_at = now;
      }
      else s

  unfoldable pub record_success : ℕ → CircuitBreakerState → CircuitBreakerState
  record_success now s =
      let counted = record s { requests = s.requests + 1; success_count = s.success_count + 1 } in
      cleanup_old_requests now (if is_half_open s.state then close_circuit now counted else counted)

  abbrev pub is_counted : E → Bool
  is_counted error = elim options.error_filter [ none ↦ true | some f ↦ f error ]

  unfoldable pub record_failure : ℕ → E → CircuitBreakerState → CircuitBreakerState
  record_failure now error s =
      let counted = record s {
        requests = s.requests + 1;
        failures = s.failures + 1;
        failure_count = s.failure_count + 1;
        last_failure_time = now;
      } in
      if is_counted error
      then cleanup_old_requests now
          (if is_half_open s.state then open_circuit now counted else counted)
      else s

  -- The failure rate of no request is 0, and the threshold, of which 0 is read as 50, is above it.
  unfoldable pub should_open : CircuitBreakerState → Bool
  should_open s =
      if is_open s.state
      then false
      else if ltb s.requests (or_default options.min_requests 10)
      then false
      else if leb s.requests 0
      then false
      else options.reaches s.failures s.requests (or_default options.error_threshold 50)

  unfoldable pub should_attempt_reset : ℕ → CircuitBreakerState → Bool
  should_attempt_reset now s =
      if not (is_open s.state)
      then false
      else leb (or_default options.reset_timeout 30000) (now - s.state_changed_at)
