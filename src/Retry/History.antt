-- ===== src/Retry/History.antt =====
-- A history that successful attempts move on: a call that returns has moved it once.
use high_throughput_transact.Base.{
  ℕ, zero, suc, ◌+◌, ◌≡◌, refl, ap, ◌∙◌, inl, inr, ◌==◌, Bool-cases, Result, ok, err,
}
use high_throughput_transact.Domain.Errors.{Thrown, plain, Attempt}
use high_throughput_transact.Retry.{
  is_retryable, RetryConfig, RetryAttemptContext, RetryOptions, back_off, settle, attempts, execute,
}

module _ {S A X : Type 0} (c : RetryConfig) (options : RetryOptions S) (fn : Attempt S A)
    (history : S → X) (move : X → X)
    (fn_ok : (s : S) (a : A) → (fn s).0 ≡ ok a → history (fn s).1 ≡ move (history s))
    (fn_err : (s : S) (e : Thrown) → (fn s).0 ≡ err e → history (fn s).1 ≡ history s)
    (hook_quiet : (x : RetryAttemptContext) (s : S) → history (options.on_retry x s) ≡ history s)
    (sleep_quiet : (n : ℕ) (s : S) → history (options.sleep n s) ≡ history s) where
  settle-history :
      (attempt : ℕ) (s : S) (r : Result Thrown A) (s' : S) (again : Thrown → Result Thrown A × S)
      (a : A)
      → fn s ≡ (r, s')
      → ((e : Thrown)
          → history s' ≡ history s
          → (again e).0 ≡ ok a
          → history (again e).1 ≡ move (history s'))
      → (settle c options fn attempt r s' again).0 ≡ ok a
      → history (settle c options fn attempt r s' again).1 ≡ move (history s)
  unfolding settle
  settle-history attempt s (ok b) s' again a e ih h =
      let k : history s' ≡ move (history s) =
        rw e at (fn_ok s b (ap (λ (z : Result Thrown A × S). z.0) e)) in
      k
  settle-history attempt s (err x) s' again a e ih h =
      let k : history s' ≡ history s =
        rw e at (fn_err s x (ap (λ (z : Result Thrown A × S). z.0) e)) in
      elim (Bool-cases (is_retryable x)) [
        | inr fatal ↦ let q = rw (fatal, settle) at h in cc
        | inl transient ↦ elim (Bool-cases (attempt == c.max_attempts)) [
          | inl done ↦ let q = rw (transient, done, settle) at h in cc
          | inr more ↦
              let q = rw (transient, more, settle) at h in
              rw (transient, more, settle) (ih x k q ∙ ap move k)
        ]
      ]

  backed_off :
      (attempt : ℕ) (e : Thrown) (s : S) → history (back_off c options fn attempt e s) ≡ history s
  unfolding back_off
  backed_off attempt e s = sleep_quiet _ _ ∙ hook_quiet _ _

  attempts-history :
      (left attempt : ℕ) (last_error : Thrown) (s : S) (a : A)
      → (attempts c options fn left attempt last_error s).0 ≡ ok a
      → history (attempts c options fn left attempt last_error s).1 ≡ move (history s)
  unfolding attempts
  attempts-history zero attempt last_error s a h = cc
  attempts-history (suc left) attempt last_error s a h =
      settle-history attempt s (fn s).0 (fn s).1
        (λ e. attempts c options fn left (attempt + 1) e (back_off c options fn attempt e (fn s).1))
        a refl
        (λ e k q.
          attempts-history left (attempt + 1) e (back_off c options fn attempt e (fn s).1) a q
          ∙ ap move (backed_off attempt e (fn s).1))
        h

  pub execute-history :
      (s : S) (a : A)
      → (execute c options fn s).0 ≡ ok a
      → history (execute c options fn s).1 ≡ move (history s)
  unfolding execute
  execute-history s a h = attempts-history c.max_attempts 1 plain s a h
