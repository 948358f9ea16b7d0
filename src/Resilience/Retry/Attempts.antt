-- ===== src/Resilience/Retry/Attempts.antt =====
-- How often RetryService of src/libs/shared/resilience/retry.decorator.ts calls its target, and what
-- it gives.
use app_tu_phuc_vu.Prelude.{
  ℕ, zero, suc, ◌+◌, ◌-◌, ◌≤◌, ◌<◌, ◌≡◌, refl, true, false, Bool-cases, inl, inr, Option, none,
  some, List, [], ◌∷◌, length, length-append, Result, ok, err, arith,
}
use app_tu_phuc_vu.Resilience.Retry.{
  ErrorInfo, RetryOptions, should_retry, pause, on_reply, attempts, execute,
}

module _ {A W : Type 0} (target : W → Result ErrorInfo A × W) where
  -- The state after `n` calls of the target, and what the next one gives.
  abbrev pub after_calls : ℕ → W → W
  after_calls zero w = w
  after_calls (suc n) w = after_calls n (target w).1

  abbrev pub reply_after : ℕ → W → Result ErrorInfo A
  reply_after n w = (target (after_calls n w)).0

abbrev pub as_thrown : {A : Type 0} → Result ErrorInfo A → Result (Option ErrorInfo) A
as_thrown (ok a) = ok a
as_thrown (err error) = err (some error)

module _ {A W : Type 0} (target : W → Result ErrorInfo A × W) (options : RetryOptions) where
  -- The next `n` calls fail, each with an error that is retried; the first is number `attempt`.
  abbrev pub Retried : ℕ → ℕ → W → Type 0
  Retried zero attempt w = Unit {0}
  Retried (suc n) attempt w =
      ((error : ErrorInfo) × ((target w).0 ≡ err error)
        × (should_retry options error attempt ≡ true))
      × Retried n (attempt + 1) (target w).1

  -- A run of attempts that makes `n + 1` calls, of which the last one's reply is given.
  pub record IsRun (left attempt : ℕ) (slept : List ℕ) (w : W)
      (end : Result (Option ErrorInfo) A × List ℕ × W) : Type 0 where
    pub retries : ℕ
    pub bounded : retries ≤ left
    pub state : end.2 ≡ after_calls target (suc retries) w
    pub given_back : end.0 ≡ as_thrown (reply_after target retries w)
    pub retried : Retried retries attempt w
    pub settled :
        (error : ErrorInfo)
        → reply_after target retries w ≡ err error
        → should_retry options error (attempt + retries) ≡ false
    pub pauses : length end.1 ≡ length slept + retries

  should_retry-lt :
      (error : ErrorInfo) (attempt : ℕ)
      → should_retry options error attempt ≡ true
      → attempt < options.max_attempts
  unfolding should_retry
  should_retry-lt error attempt h = ground arith

  on_reply-IsRun :
      (r : Result ErrorInfo A) (left attempt : ℕ) (slept : List ℕ) (w : W)
      (again : ErrorInfo → Result (Option ErrorInfo) A × List ℕ × W)
      → (target w).0 ≡ r
      → attempt + left ≡ options.max_attempts
      → ((error : ErrorInfo)
          → 0 < left
          → IsRun
              (left - 1)
              (attempt + 1)
              (pause options attempt error slept)
              (target w).1
              (again error))
      → IsRun left attempt slept w (on_reply options r attempt slept (target w).1 again)
  on_reply-IsRun (ok a) left attempt slept w again replied budget rest = record {
    retries = 0;
    bounded = omega arith;
    state = refl;
    given_back = rw replied refl;
    retried = tt;
    settled = λ error h. absurd (cc);
    pauses = omega arith;
  }
  on_reply-IsRun (err error) left attempt slept w again replied budget rest =
      elim (Bool-cases (should_retry options error attempt)) [
        | inr stop ↦ rw stop (record {
          retries = 0;
          bounded = omega arith;
          state = refl;
          given_back = rw replied refl;
          retried = tt;
          settled = λ error' h. ground (arith, replied, stop);
          pauses = omega arith;
        })
        | inl more ↦
            let early = should_retry-lt error attempt more in
            let run = rest error (omega arith) in
            let shift : attempt + suc run.retries ≡ attempt + 1 + run.retries = omega arith in
            let grown : length (pause options attempt error slept) ≡ length slept + 1 =
              ground (arith, length-append slept (options.delay_calculator attempt error ∷ [])) in
            rw more (record {
              retries = suc run.retries;
              bounded = omega (arith, run.bounded);
              state = run.state;
              given_back = run.given_back;
              retried = ((error, replied, more), run.retried);
              settled = λ error' h. rw shift (run.settled error' h);
              pauses = omega (arith, run.pauses);
            })
      ]

  attempts-IsRun :
      (left attempt : ℕ) (last : Option ErrorInfo) (slept : List ℕ) (w : W)
      → attempt + left ≡ options.max_attempts
      → IsRun left attempt slept w (attempts target options (suc left) attempt last slept w)
  unfolding attempts
  attempts-IsRun zero attempt last slept w budget =
      on_reply-IsRun (target w).0 0 attempt slept w _ refl budget (λ error h. absurd (omega arith))
  attempts-IsRun (suc left) attempt last slept w budget =
      on_reply-IsRun (target w).0 (suc left) attempt slept w _ refl budget (λ error h.
        let same : suc left - 1 ≡ left = omega arith in
        rw same (
          attempts-IsRun left (attempt + 1) (some error) (pause options attempt error slept)
            (target w).1 (omega arith)))

  all_attempts-IsRun :
      (n : ℕ) (w : W)
      → n ≡ options.max_attempts
      → 0 < n
      → IsRun (n - 1) 1 [] w (attempts target options n 1 none [] w)
  all_attempts-IsRun zero w same h = absurd (omega arith)
  all_attempts-IsRun (suc left) w same h =
      let less : suc left - 1 ≡ left = omega arith in
      rw less (attempts-IsRun left 1 none [] w (omega arith))

  -- With at least one attempt allowed, the service ends: it calls the target at most as often as the
  -- options allow, retries exactly while the errors are to be retried, gives the reply of its last
  -- call, be it an answer or an error, and sleeps once between two calls.
  pub execute-IsRun :
      (w : W)
      → 0 < options.max_attempts
      → IsRun (options.max_attempts - 1) 1 [] w (execute target options w)
  unfolding execute
  execute-IsRun w some_attempt = all_attempts-IsRun options.max_attempts w refl some_attempt
