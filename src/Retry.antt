-- ===== src/Retry.antt =====
-- src/infrastructure/resilience/exponential-backoff-retry.policy.ts. The settings come from the
-- environment; `uniform attempt c` is `Math.floor(Math.random() * c)`.
pub mod Classification
pub mod Attempts
pub mod History
mod Examples
use high_throughput_transact.Base.{
  ℕ, zero, suc, ◌+◌, ◌-◌, ◌*◌, ◌^◌, min, String, str_eq, Bool, true, false, not, ◌||◌, Option, none,
  some, List, [], ◌∷◌, ltb, ◌==◌, if◌then◌else◌, any, Result, ok, err,
}
use high_throughput_transact.Domain.Errors.{
  ErrorCategory, cancellation, code, category, is_retryable_kind, Thrown, plain, domain, object,
  prisma_known, Attempt,
}

pub retryable_pg_codes : List String
retryable_pg_codes =
    "08000" ∷ "08003" ∷ "08006" ∷ "08001" ∷ "08004" ∷ "40001" ∷ "40P01" ∷ "53300" ∷ "57P01"
    ∷ "57P02" ∷ "57P03" ∷ "55P03" ∷ []

pub retryable_node_codes : List String
retryable_node_codes =
    "ECONNRESET" ∷ "ECONNREFUSED" ∷ "ETIMEDOUT" ∷ "EPIPE" ∷ "EHOSTUNREACH" ∷ "ENETUNREACH" ∷ []

-- `set.has(code)`
unfoldable pub has : List String → String → Bool
has set c = any (str_eq c) set

pub is_retryable_code : Option String → Bool
unfolding has retryable_pg_codes retryable_node_codes
is_retryable_code none = false
is_retryable_code (some c) = has retryable_pg_codes c || has retryable_node_codes c

-- `hasRetryableCause`: the codes of the value and of its causes, five causes deep at most.
pub has_retryable_cause : Thrown → ℕ → Bool
has_retryable_cause plain depth = false
has_retryable_cause (domain e cause) depth =
    let deeper = has_retryable_cause cause (depth + 1) in
    if ltb 5 depth then false else is_retryable_code (some (code e)) || deeper
has_retryable_cause (object c original_code msg cause) depth =
    let deeper = has_retryable_cause cause (depth + 1) in
    if ltb 5 depth then false else is_retryable_code c || is_retryable_code original_code || deeper
has_retryable_cause (prisma_known c target fields) depth =
    if ltb 5 depth then false else is_retryable_code (some c)

abbrev is_cancellation : ErrorCategory → Bool
is_cancellation cancellation = true
is_cancellation _ = false

pub is_retryable : Thrown → Bool
unfolding has_retryable_cause
is_retryable (domain e cause) =
    if is_cancellation (category e)
    then false
    else if is_retryable_kind e
    then true
    else has_retryable_cause cause 0
is_retryable error = has_retryable_cause error 0

pub record RetryConfig : Type 0 where
  pub max_attempts : ℕ
  pub base_delay_ms : ℕ
  pub max_delay_ms : ℕ
  pub uniform : (attempt ceiling : ℕ) → ℕ

pub compute_delay : RetryConfig → ℕ → ℕ
compute_delay c attempt =
    c.uniform attempt (min (c.base_delay_ms * 2 ^ (attempt - 1)) c.max_delay_ms)

pub record RetryAttemptContext : Type 0 where
  pub attempt : ℕ
  pub max_attempts : ℕ
  pub delay_ms : ℕ
  pub error : Thrown
  pub operation : String

-- `options`, with the passing of time as a change of the state.
pub record RetryOptions (S : Type 0) : Type 0 where
  pub operation : String
  pub on_retry : RetryAttemptContext → S → S
  pub sleep : ℕ → S → S

module _ {S A : Type 0} (c : RetryConfig) (options : RetryOptions S) (fn : Attempt S A) where
  -- What happens between a failed attempt and the next.
  unfoldable pub back_off : ℕ → Thrown → S → S
  back_off attempt e s =
      let delay = compute_delay c attempt in
      options.sleep delay (
        options.on_retry
          (record {
            attempt = attempt;
            max_attempts = c.max_attempts;
            delay_ms = delay;
            error = e;
            operation = options.operation;
          })
          s)

  -- What follows an attempt: its result, a throw, or the rest of the loop.
  unfoldable pub settle :
      ℕ → Result Thrown A → S → (Thrown → Result Thrown A × S) → Result Thrown A × S
  settle attempt (ok a) s again = (ok a, s)
  settle attempt (err e) s again =
      let rest = again e in
      if not (is_retryable e)
      then (err e, s)
      else if attempt == c.max_attempts
      then (err e, s)
      else rest

  -- The `for` loop with `left` rounds to go; `last_error` is what is thrown when none is left.
  unfoldable pub attempts : (left attempt : ℕ) → (last_error : Thrown) → Attempt S A
  attempts zero attempt last_error s = (err last_error, s)
  attempts (suc left) attempt last_error s =
      let (r, s') = fn s in
      settle attempt r s' (λ e. attempts left (attempt + 1) e (back_off attempt e s'))

  unfoldable pub execute : Attempt S A
  unfolding attempts settle
  execute s = attempts c.max_attempts 1 plain s
