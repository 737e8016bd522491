-- ===== src/Retry/Examples.antt =====
-- A call that fails once, and errors to try again or not.
use high_throughput_transact.Base.{ℕ, zero, suc, ◌+◌, ◌-◌, ◌≡◌, refl, none, some, arith, ok, err}
use high_throughput_transact.Domain.Errors.{Thrown, plain, object, Attempt}
use high_throughput_transact.Retry.{RetryConfig, RetryOptions, execute}
use high_throughput_transact.Retry.Attempts.{Outcome, execute_bounded}

abbrev deadlock : Thrown
deadlock = object (some "40P01") none none plain

abbrev three_attempts : RetryConfig
three_attempts = record {
  max_attempts = 3;
  base_delay_ms = 200;
  max_delay_ms = 2000;
  uniform = λ a n. n - 1;
}

-- The state counts the calls; the first one throws.
abbrev flaky : Attempt ℕ ℕ
flaky zero = (err deadlock, 1)
flaky (suc n) = (ok n, suc (suc n))

flaky_counts : (n : ℕ) → (flaky n).1 ≡ n + 1
flaky_counts zero = refl
flaky_counts (suc n) = omega arith

abbrev no_options : RetryOptions ℕ
no_options = record { operation = "call"; on_retry = λ x s. s; sleep = λ n s. s }

execute_bounded_example :
    Outcome three_attempts no_options flaky
      (λ n. n)
      flaky_counts
      (λ x s. refl)
      (λ n s. refl)
      3
      0
      (execute three_attempts no_options flaky 0)
execute_bounded_example =
    execute_bounded three_attempts no_options flaky (λ n. n) flaky_counts (λ x s. refl)
      (λ n s. refl) 0 (omega arith)
