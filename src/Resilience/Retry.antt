-- ===== src/Resilience/Retry.antt =====
-- src/libs/shared/resilience/retry.decorator.ts: RetryService, which calls a target until it answers,
-- an error is not to be retried, or the attempts are used up. The logger is left out.
pub mod Attempts
mod Tests
use app_tu_phuc_vu.Prelude.{
  ℕ, zero, suc, ◌+◌, Bool, true, false, not, ◌||◌, leb, ltb, Option, none, some, List, [], ◌∷◌,
  ◌++◌, any, or_else, if◌then◌else◌, Result, ok, err,
}
use app_tu_phuc_vu.Prelude.Text.{Text, codes, text_eq, includes}

-- Of an Error, what the service reads.
pub record ErrorInfo : Type 0 where
  pub name : Text
  pub constructor_name : Text
  pub message : Text

-- What a caller or the global configuration gives; none is an absent field.
pub record PartialRetryOptions : Type 0 where
  pub max_attempts : Option ℕ
  pub should_retry : Option (ErrorInfo → ℕ → Bool)
  pub delay_calculator : Option (ℕ → ErrorInfo → ℕ)
  pub retryable_errors : Option (List Text)
  pub non_retryable_errors : Option (List Text)

pub record RetryOptions : Type 0 where
  pub max_attempts : ℕ
  pub should_retry : ErrorInfo → ℕ → Bool
  pub delay_calculator : ℕ → ErrorInfo → ℕ
  pub retryable_errors : List Text
  pub non_retryable_errors : List Text

abbrev pub default_options : RetryOptions
default_options = record {
  max_attempts = 3;
  should_retry = λ error attempt. true;
  delay_calculator = λ attempt error. 1000;
  retryable_errors = [];
  non_retryable_errors = [];
}

abbrev overridden : PartialRetryOptions → RetryOptions → RetryOptions
overridden o d = record {
  max_attempts = or_else o.max_attempts d.max_attempts;
  should_retry = or_else o.should_retry d.should_retry;
  delay_calculator = or_else o.delay_calculator d.delay_calculator;
  retryable_errors = or_else o.retryable_errors d.retryable_errors;
  non_retryable_errors = or_else o.non_retryable_errors d.non_retryable_errors;
}

-- The defaults, then the global configuration, then the call's own options.
unfoldable pub merge_options : PartialRetryOptions → PartialRetryOptions → RetryOptions
merge_options global options = overridden options (overridden global default_options)

-- One of the words names the error or its class, or stands in its message.
abbrev pub is_named : ErrorInfo → List Text → Bool
is_named error words =
    any
      (λ word.
        text_eq error.name word
        || text_eq error.constructor_name word
        || includes error.message word)
      words

abbrev pub has_name : ErrorInfo → List Text → Bool
has_name error names = any (λ name. text_eq error.name name) names

abbrev pub mentions : ErrorInfo → List Text → Bool
mentions error parts = any (λ part. includes error.message part) parts

-- The errors that are retried where the options name none.
unfoldable pub is_retryable_error : ErrorInfo → Bool
unfolding text_eq includes
is_retryable_error error =
    if has_name error (codes "UnauthorizedError" ∷ codes "ForbiddenError" ∷ [])
      || mentions error (codes "401" ∷ codes "403" ∷ [])
    then false
    else if has_name error (codes "ValidationError" ∷ codes "BadRequestException" ∷ [])
        || mentions error (codes "400" ∷ codes "validation" ∷ [])
    then false
    else if has_name error (codes "NotFoundException" ∷ []) || mentions error (codes "404" ∷ [])
    then false
    else has_name error
        (codes "ECONNREFUSED" ∷ codes "ETIMEDOUT" ∷ codes "ENOTFOUND" ∷ codes "ECONNRESET" ∷ [])
      || mentions error (
          codes "timeout"
          ∷ codes "connection"
          ∷ codes "500"
          ∷ codes "502"
          ∷ codes "503"
          ∷ codes "504"
          ∷ [])

abbrev by_words : ErrorInfo → List Text → Bool
by_words error [] = is_retryable_error error
by_words error (word ∷ words) = is_named error (word ∷ words)

unfoldable pub should_retry : RetryOptions → ErrorInfo → ℕ → Bool
unfolding is_retryable_error
should_retry options error attempt =
    if leb options.max_attempts attempt
    then false
    else if not (options.should_retry error attempt)
    then false
    else if is_named error options.non_retryable_errors
    then false
    else by_words error options.retryable_errors

-- The times slept, with the pause after a failed attempt that is not the last one.
abbrev pub pause : RetryOptions → ℕ → ErrorInfo → List ℕ → List ℕ
pause options attempt error slept =
    if ltb attempt options.max_attempts
    then slept ++ options.delay_calculator attempt error ∷ []
    else slept

module _ {A W : Type 0} (options : RetryOptions) where
  -- The end of an attempt, by the target's reply; `again` makes the rest of the attempts.
  abbrev pub on_reply :
      Result ErrorInfo A
      → ℕ
      → List ℕ
      → W
      → (ErrorInfo → Result (Option ErrorInfo) A × List ℕ × W)
      → Result (Option ErrorInfo) A × List ℕ × W
  on_reply (ok a) attempt slept w again = (ok a, slept, w)
  on_reply (err error) attempt slept w again =
      if should_retry options error attempt then again error else (err (some error), slept, w)

module _ {A W : Type 0} (target : W → Result ErrorInfo A × W) (options : RetryOptions) where
  -- The attempts that are left from `attempt` on, with the error of the last one and the times
  -- slept; an error of none is thrown where no attempt was made.
  unfoldable pub attempts :
      ℕ → ℕ → Option ErrorInfo → List ℕ → W → Result (Option ErrorInfo) A × List ℕ × W
  attempts zero attempt last slept w = (err last, slept, w)
  attempts (suc left) attempt last slept w =
      on_reply options (target w).0 attempt slept (target w).1 (λ error.
        attempts left (attempt + 1) (some error) (pause options attempt error slept) (target w).1)

  unfoldable pub execute : W → Result (Option ErrorInfo) A × List ℕ × W
  unfolding attempts
  execute w = attempts options.max_attempts 1 none [] w
