-- ===== src/Processing/Keeps.antt =====
-- Calls that keep a predicate of the state, whether they return or throw.
use high_throughput_transact.Base.{
  ℕ, zero, suc, ◌+◌, ◌≡◌, sym, ap, subst, inl, inr, Bool, true, false, List, [], ◌∷◌, ◌==◌,
  if◌then◌else◌, Bool-cases, Result, ok, err, Effect, pure, throw, catch, for_each, ◌>>=◌, ◌>>◌,
  Result-cases, bind_at, bind_err, catch_at, catch_err,
}
use high_throughput_transact.Domain.Errors.{Thrown, plain, Attempt}
use high_throughput_transact.Retry.{
  is_retryable, RetryConfig, RetryAttemptContext, RetryOptions, back_off, settle, attempts, execute,
}

module _ {S E : Type 0} (P : S → Type 0) where
  pub record Keeps {A : Type 0} (m : Effect S E A) : Type 0 where
    pub after : (s : S) → P s → P (m s).1

module _ {S E : Type 0} {P : S → Type 0} where
  pub Keeps-pure : {A : Type 0} (a : A) → Keeps {E = E} P (pure a)
  Keeps-pure a = record { after = λ s p. p }

  pub Keeps-throw : {A : Type 0} (e : E) → Keeps {E = E} P {A = A} (throw e)
  Keeps-throw e = record { after = λ s p. p }

  pub Keeps-bind :
      {A B : Type 0} {m : Effect S E A} {f : A → Effect S E B}
      → Keeps P m
      → ((a : A) (s : S) → (m s).0 ≡ ok a → Keeps P (f a))
      → Keeps P (m >>= f)
  Keeps-bind {A} {B} {m} {f} k l = record { after = bound }
    where
      bound : (s : S) → P s → P ((m >>= f) s).1
      bound s p = elim (Result-cases (m s).0) [
        | inl (a, e) ↦
            let same : m s ≡ (ok a, (m s).1) = ap (λ r. (r, (m s).1)) e in
            subst (λ (z : Result E B × S). P z.1) (sym (bind_at m f s same))
              ((l a s e).after (m s).1 (k.after s p))
        | inr (x, e) ↦
            let same : m s ≡ (err x, (m s).1) = ap (λ r. (r, (m s).1)) e in
            subst (λ (z : Result E B × S). P z.1) (sym (bind_err m f s same)) (k.after s p)
      ]

  pub Keeps-then :
      {B : Type 0} {m : Effect S E (Unit {0})} {n : Effect S E B}
      → Keeps P m
      → Keeps P n
      → Keeps P (m >> n)
  Keeps-then k l = Keeps-bind k (λ a s e. l)

  pub Keeps-catch :
      {A : Type 0} {m : Effect S E A} {handler : E → Effect S E A}
      → Keeps P m
      → ((e : E) → Keeps P (handler e))
      → Keeps P (catch m handler)
  Keeps-catch {A} {m} {handler} k l = record { after = caught }
    where
      caught : (s : S) → P s → P (catch m handler s).1
      caught s p = elim (Result-cases (m s).0) [
        | inl (a, e) ↦
            let same : m s ≡ (ok a, (m s).1) = ap (λ r. (r, (m s).1)) e in
            subst (λ (z : Result E A × S). P z.1) (sym (catch_at m handler s same)) (k.after s p)
        | inr (x, e) ↦
            let same : m s ≡ (err x, (m s).1) = ap (λ r. (r, (m s).1)) e in
            subst (λ (z : Result E A × S). P z.1) (sym (catch_err m handler s same))
              ((l x).after (m s).1 (k.after s p))
      ]

  pub Keeps-for_each :
      {A : Type 0} (xs : List A) {body : A → Effect S E (Unit {0})}
      → ((x : A) → Keeps P (body x))
      → Keeps P (for_each xs body)
  Keeps-for_each [] k = Keeps-pure tt
  Keeps-for_each (x ∷ xs) k = Keeps-then (k x) (Keeps-for_each xs k)

  pub Keeps-if :
      {A : Type 0} (b : Bool) {m n : Effect S E A}
      → Keeps P m
      → Keeps P n
      → Keeps P (if b then m else n)
  Keeps-if true k l = k
  Keeps-if false k l = l

-- A call that is tried again.
module _ {S A : Type 0} {P : S → Type 0} (c : RetryConfig) (options : RetryOptions S)
    (fn : Attempt S A) (k : Keeps P fn)
    (on_retry : (x : RetryAttemptContext) (s : S) → P s → P (options.on_retry x s))
    (sleep : (n : ℕ) (s : S) → P s → P (options.sleep n s)) where
  settled :
      (attempt : ℕ) (r : Result Thrown A) (s : S) (again : Thrown → Result Thrown A × S)
      → P s
      → ((e : Thrown) → P (again e).1)
      → P (settle c options fn attempt r s again).1
  unfolding settle
  settled attempt (ok a) s again p q = p
  settled attempt (err e) s again p q = elim (Bool-cases (is_retryable e)) [
    | inr fatal ↦ rw fatal p
    | inl transient ↦ elim (Bool-cases (attempt == c.max_attempts)) [
      | inl last ↦ rw (transient, last) p
      | inr more ↦ rw (transient, more) (q e)
    ]
  ]

  tried :
      (left attempt : ℕ) (last_error : Thrown) (s : S)
      → P s
      → P (attempts c options fn left attempt last_error s).1
  unfolding attempts back_off
  tried zero attempt last_error s p = p
  tried (suc left) attempt last_error s p =
      settled attempt (fn s).0 (fn s).1 _ (k.after s p)
        (λ e. tried left (attempt + 1) e _ (sleep _ _ (on_retry _ _ (k.after s p))))

  pub Keeps-retry : Keeps P (execute c options fn)
  unfolding execute
  Keeps-retry = record { after = λ s p. tried c.max_attempts 1 plain s p }
