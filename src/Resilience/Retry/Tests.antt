-- ===== src/Resilience/Retry/Tests.antt =====
-- Targets that fail a few times (src/libs/shared/resilience/retry.decorator.ts).
use app_tu_phuc_vu.Prelude.{
  ℕ, ◌+◌, ◌≡◌, refl, ltb, none, some, [], ◌∷◌, if◌then◌else◌, Result, ok, err, arith,
}
use app_tu_phuc_vu.Prelude.Text.{Text, codes, text_eq, starts_with, includes}
use app_tu_phuc_vu.Resilience.Retry.{
  ErrorInfo, PartialRetryOptions, default_options, merge_options, is_retryable_error, should_retry,
  attempts, execute,
}
use app_tu_phuc_vu.Resilience.Retry.Attempts.{IsRun, execute-IsRun}

abbrev error_of : Text → ErrorInfo
error_of message = record {
  name = codes "Error";
  constructor_name = codes "Error";
  message = message;
}

-- Answers the third call; before, it throws.
abbrev recovers : Text → ℕ → Result ErrorInfo ℕ × ℕ
recovers message calls = (if ltb calls 2 then err (error_of message) else ok calls, calls + 1)

third_test :
    execute (recovers (codes "read timeout")) default_options 0 ≡ (ok 2, 1000 ∷ 1000 ∷ [], 3)
unfolding execute attempts should_retry is_retryable_error text_eq starts_with includes
third_test = refl

-- A refusal is not retried.
refused_test :
    execute (recovers (codes "status 403")) default_options 0
    ≡ (err (some (error_of (codes "status 403"))), [], 1)
unfolding execute attempts should_retry is_retryable_error text_eq starts_with includes
refused_test = refl

abbrev no_options : PartialRetryOptions
no_options = record {
  max_attempts = none;
  should_retry = none;
  delay_calculator = none;
  retryable_errors = none;
  non_retryable_errors = none;
}

merge_test :
    merge_options (record no_options { max_attempts = some 5 }) no_options
    ≡ record default_options { max_attempts = 5 }
unfolding merge_options
merge_test = refl

execute-IsRun_example :
    IsRun
      (recovers (codes "read timeout"))
      default_options
      2
      1
      []
      0
      (execute (recovers (codes "read timeout")) default_options 0)
execute-IsRun_example =
    execute-IsRun (recovers (codes "read timeout")) default_options 0 (omega arith)
