-- ===== src/Retry/Attempts.antt =====
-- How often a call is made, and what comes out.
use high_throughput_transact.Base.{
  ℕ, zero, suc, ◌+◌, ◌-◌, ◌*◌, ◌^◌, ◌≤◌, ◌<◌, min, ◌≡◌, refl, ◌∙◌, ◌≢◌, ◌⊎◌, inl, inr, false, arith,
  ◌==◌, Bool-cases, Result, ok, err,
}
use high_throughput_transact.Domain.Errors.{Thrown, plain, Attempt}
use high_throughput_transact.Retry.{
  is_retryable, RetryConfig, compute_delay, RetryAttemptContext, RetryOptions, back_off, settle,
  attempts, execute,
}

module _ {S A : Type 0} (c : RetryConfig) (options : RetryOptions S) (fn : Attempt S A)
    (calls : S → ℕ) (counts : (s : S) → calls (fn s).1 ≡ calls s + 1)
    (hook_quiet : (x : RetryAttemptContext) (s : S) → calls (options.on_retry x s) ≡ calls s)
    (sleep_quiet : (n : ℕ) (s : S) → calls (options.sleep n s) ≡ calls s) where
  -- What holds of an outcome when `left` rounds were to go from the state `s`.
  pub record Outcome (left : ℕ) (s : S) (p : Result Thrown A × S) : Type 0 where
    pub called : calls s < calls p.1
    pub bounded : calls p.1 ≤ calls s + left
    pub last : (u : S) × (fn u ≡ p)
    pub stops : (e : Thrown) → p.0 ≡ err e → (is_retryable e ≡ false) ⊎ (calls p.1 ≡ calls s + left)

  calls-back_off :
      (attempt : ℕ) (e : Thrown) (s : S) → calls (back_off c options fn attempt e s) ≡ calls s
  unfolding back_off
  calls-back_off attempt e s = sleep_quiet _ _ ∙ hook_quiet _ _

  settle-Outcome :
      (left attempt : ℕ) (s : S) (r : Result Thrown A) (s' : S)
      (again : Thrown → Result Thrown A × S)
      → fn s ≡ (r, s')
      → attempt + left ≡ c.max_attempts
      → ((e : Thrown) → attempt ≢ c.max_attempts → Outcome left s' (again e))
      → Outcome (suc left) s (settle c options fn attempt r s' again)
  unfolding settle
  settle-Outcome left attempt s (ok a) s' again e m ih =
      let n : calls s' ≡ calls s + 1 = rw e at (counts s) in
      record { called = omega arith; bounded = omega arith; last = (s, e); stops = λ x q. cc }
  settle-Outcome left attempt s (err x) s' again e m ih =
      let n : calls s' ≡ calls s + 1 = rw e at (counts s) in
      elim (Bool-cases (is_retryable x)) [
        | inr fatal ↦ rw fatal (record {
          called = omega arith;
          bounded = omega arith;
          last = (s, e);
          stops = λ y q. inl (ground arith);
        })
        | inl transient ↦ rw transient (elim (Bool-cases (attempt == c.max_attempts)) [
          | inl done ↦ rw done (record {
            called = omega arith;
            bounded = omega arith;
            last = (s, e);
            stops = λ y q. inr (ground arith);
          })
          | inr more ↦ rw more (
              let o = ih x (λ q. ground arith) in
              record {
                called = omega (arith, o.called);
                bounded = omega (arith, o.bounded);
                last = o.last;
                stops = λ y q. elim (o.stops y q) [ inl f ↦ inl f | inr g ↦ inr (omega arith) ];
              })
        ])
      ]

  shift :
      {n : ℕ} {s t : S} {p : Result Thrown A × S}
      → calls s ≡ calls t
      → Outcome n s p
      → Outcome n t p
  shift e o = record {
    called = omega (arith, o.called);
    bounded = omega (arith, o.bounded);
    last = o.last;
    stops = λ y q. elim (o.stops y q) [ inl f ↦ inl f | inr g ↦ inr (omega arith) ];
  }

  attempts-Outcome :
      (left attempt : ℕ) (e : Thrown) (s : S)
      → attempt + left ≡ c.max_attempts
      → Outcome (suc left) s (attempts c options fn (suc left) attempt e s)
  unfolding attempts
  attempts-Outcome zero attempt e s m =
      settle-Outcome zero attempt s (fn s).0 (fn s).1 _ refl m (λ x ne. absurd (ne (omega arith)))
  attempts-Outcome (suc left) attempt e s m =
      settle-Outcome (suc left) attempt s (fn s).0 (fn s).1 _ refl m (λ x ne.
        shift (calls-back_off attempt x (fn s).1) (
          attempts-Outcome left (attempt + 1) x (back_off c options fn attempt x (fn s).1)
            (omega arith)))

  from_first :
      (n : ℕ) (s : S) → n ≡ c.max_attempts → 1 ≤ n → Outcome n s (attempts c options fn n 1 plain s)
  from_first zero s e h = absurd (omega arith)
  from_first (suc n) s e h = attempts-Outcome n 1 plain s (omega arith)

  -- With at least one attempt allowed, `execute` makes between one and `max_attempts` calls, ends
  -- as its last call ended, and throws only an error that is not to be tried again, or after
  -- all the attempts; here `calls` counts the calls, and neither the hook nor the wait makes one.
  pub execute_bounded :
      (s : S) → 1 ≤ c.max_attempts → Outcome c.max_attempts s (execute c options fn s)
  unfolding execute
  execute_bounded s h = from_first c.max_attempts s refl h

-- Each wait is shorter than the doubled base delay of its attempt and than the cap, or zero, where
-- `uniform` draws below its ceiling.
pub compute_delay_bounds :
    (c : RetryConfig) (attempt : ℕ)
    → ((a n : ℕ) → c.uniform a n ≤ n - 1)
    → (compute_delay c attempt ≤ c.base_delay_ms * 2 ^ (attempt - 1) - 1)
      × (compute_delay c attempt ≤ c.max_delay_ms - 1)
unfolding compute_delay
compute_delay_bounds c attempt h =
    let b = h attempt (min (c.base_delay_ms * 2 ^ (attempt - 1)) c.max_delay_ms) in
    (omega arith, omega arith)
