-- ===== src/Resilience/Execute.antt =====
-- src/libs/shared/resilience/circuit-breaker.decorator.ts: a call through a breaker that exists,
-- where no other call comes between its start and its end.
pub mod Outcomes
use app_tu_phuc_vu.Prelude.{ℕ, Option, none, some, List, [], ◌∷◌, if◌then◌else◌, Result, ok, err}
use app_tu_phuc_vu.Resilience.Breaker.{
  CircuitBreakerOptions, CircuitBreakerState, is_open, record_success, record_failure, should_open,
  open_circuit,
}

-- What a call throws: the breaker's own error, or the target's.
pub data Thrown (E : Type 0) : Type 0 where
  circuit_open : Thrown E
  by_target : E → Thrown E

-- What the fallback does: it throws, or it returns a promise, which is passed on as it settles.
pub data Fallback (E A : Type 0) : Type 0 where
  threw : Fallback E A
  returned : Result (Thrown E) A → Fallback E A

module _ {E A Args : Type 0} where
  abbrev pub fall_back : Option (Args → Fallback E A) → Args → Thrown E → Result (Thrown E) A
  fall_back none args error = err error
  fall_back (some f) args error = elim (f args) [ threw ↦ err error | returned r ↦ r ]

module _ {E : Type 0} (options : CircuitBreakerOptions (Thrown E)) where
  abbrev pub after_failure : ℕ → Thrown E → CircuitBreakerState → CircuitBreakerState
  after_failure now error s =
      let failed = record_failure options now error s in
      if should_open options failed then open_circuit now failed else failed

module _ {E A Args : Type 0} (options : CircuitBreakerOptions (Thrown E)) where
  -- The end of a call of the target, at `now`, by what it gave.
  abbrev pub settle :
      Option (Args → Fallback E A)
      → ℕ
      → Args
      → Result E A
      → CircuitBreakerState
      → Result (Thrown E) A × CircuitBreakerState
  settle fallback now args (ok a) s = (ok a, record_success options now s)
  settle fallback now args (err e) s =
      (fall_back fallback args (by_target e), after_failure options now (by_target e) s)

module _ {E A Args W : Type 0} (options : CircuitBreakerOptions (Thrown E)) where
  -- The target works on a state of its own; `now` is when it ends.
  unfoldable pub execute :
      (Args → W → Result E A × W)
      → Option (Args → Fallback E A)
      → ℕ
      → Args
      → CircuitBreakerState
      → W
      → Result (Thrown E) A × CircuitBreakerState × W
  execute target fallback now args s w =
      if is_open s.state
      then (fall_back fallback args circuit_open, after_failure options now circuit_open s, w)
      else let (r, w') = target args w in
        let (result, s') = settle options fallback now args r s in (result, s', w')

  -- Calls one after another, each at its time.
  unfoldable pub execute_all :
      (Args → W → Result E A × W)
      → Option (Args → Fallback E A)
      → List (ℕ × Args)
      → CircuitBreakerState
      → W
      → CircuitBreakerState × W
  execute_all target fallback [] s w = (s, w)
  execute_all target fallback (call ∷ calls) s w =
      let (result, s', w') = execute target fallback call.0 call.1 s w in
      execute_all target fallback calls s' w'
