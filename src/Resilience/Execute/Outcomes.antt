-- ===== src/Resilience/Execute/Outcomes.antt =====
-- What a breaker lets through (src/libs/shared/resilience/circuit-breaker.decorator.ts).
use app_tu_phuc_vu.Prelude.{
  ℕ, ◌+◌, ◌≤◌, ◌<◌, ◌≡◌, refl, sym, ◌∙◌, Bool, true, false, Option, none, List, [], ◌∷◌, length,
  Result, ok, err, if◌then◌else◌, arith,
}
use app_tu_phuc_vu.Resilience.Breaker.{
  CircuitBreakerOptions, CircuitBreakerState, closed, opened, half_open, or_default, record_success,
  record_failure, should_open, create,
}
use app_tu_phuc_vu.Resilience.Execute.{Thrown, Fallback, execute, execute_all}

module _ {E A : Type 0} where
  abbrev pub is_ok : Result E A → Bool
  is_ok (ok a) = true
  is_ok (err e) = false

module _ {E A Args W : Type 0} (target : Args → W → Result E A × W) where
  -- The calls made without a breaker.
  unfoldable pub call_all : List (ℕ × Args) → W → W
  call_all [] w = w
  call_all (call ∷ calls) w = call_all calls (target call.1 w).1

module _ {E A Args W : Type 0} (options : CircuitBreakerOptions (Thrown E))
    (target : Args → W → Result E A × W) (fallback : Option (Args → Fallback E A)) where
  opened-execute :
      (now : ℕ) (args : Args) (s : CircuitBreakerState) (w : W)
      → s.state ≡ opened
      → ((execute options target fallback now args s w).1.state ≡ opened)
        × ((execute options target fallback now args s w).2 ≡ w)
  unfolding execute record_failure should_open
  opened-execute now args s w h = ground arith

  -- An open breaker stays open and the target is not called any more, whatever calls come and
  -- however late.
  pub opened-execute_all :
      (calls : List (ℕ × Args)) (s : CircuitBreakerState) (w : W)
      → s.state ≡ opened
      → ((execute_all options target fallback calls s w).0.state ≡ opened)
        × ((execute_all options target fallback calls s w).1 ≡ w)
  unfolding execute_all
  opened-execute_all [] s w h = (h, refl)
  opened-execute_all (call ∷ calls) s w h =
      let (stays, same) = opened-execute call.0 call.1 s w h in
      let (end, last) =
        opened-execute_all calls (execute options target fallback call.0 call.1 s w).1
          (execute options target fallback call.0 call.1 s w).2 stays in
      (end, last ∙ same)

  -- After n calls of a breaker that is closed.
  abbrev pub HasCounted : ℕ → CircuitBreakerState → Type 0
  HasCounted n s = (s.state ≡ closed) × (s.requests ≤ n) × (s.success_count ≤ n)

  closed-execute :
      (n now : ℕ) (args : Args) (s : CircuitBreakerState) (w : W)
      → HasCounted n s
      → n + 1 < or_default options.min_requests 10
      → HasCounted (n + 1) (execute options target fallback now args s w).1
        × ((execute options target fallback now args s w).2 ≡ (target args w).1)
  unfolding execute record_success record_failure should_open
  closed-execute n now args s w h few = ground arith

  closed-execute_all :
      (n : ℕ) (calls : List (ℕ × Args)) (s : CircuitBreakerState) (w : W)
      → HasCounted n s
      → n + length calls < or_default options.min_requests 10
      → ((execute_all options target fallback calls s w).0.state ≡ closed)
        × ((execute_all options target fallback calls s w).1 ≡ call_all target calls w)
  unfolding execute_all call_all
  closed-execute_all n [] s w h few = (h.0, refl)
  closed-execute_all n (call ∷ calls) s w h few =
      let (counted, called) = closed-execute n call.0 call.1 s w h (ground arith) in
      let rest = closed-execute_all (n + 1) calls _ _ counted (ground arith) in rw (sym called) rest

  -- Fewer calls than the minimum of requests (10 where none is set) leave a new breaker closed, and
  -- each reaches the target as it would without the breaker, whatever fails.
  pub create-execute_all :
      (now : ℕ) (calls : List (ℕ × Args)) (w : W)
      → length calls < or_default options.min_requests 10
      → ((execute_all options target fallback calls (create now) w).0.state ≡ closed)
        × ((execute_all options target fallback calls (create now) w).1 ≡ call_all target calls w)
  create-execute_all now calls w few =
      closed-execute_all 0 calls (create now) w (refl, omega arith, omega arith) (omega arith)

  -- Where every error counts, the first call that a half-open breaker lets through decides: it is
  -- closed after a success and open after a failure.
  pub half_open-execute :
      (now : ℕ) (args : Args) (s : CircuitBreakerState) (w : W)
      → options.error_filter ≡ none
      → s.state ≡ half_open
      → (execute options target fallback now args s w).1.state
        ≡ (if is_ok (target args w).0 then closed else opened)
  unfolding execute record_success record_failure should_open
  half_open-execute now args s w all half = ground arith
