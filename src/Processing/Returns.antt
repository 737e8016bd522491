-- ===== src/Processing/Returns.antt =====
-- What holds where a call returns: the rules that follow a call step by step.
use high_throughput_transact.Base.{◌≡◌, sym, ap, ◌∙◌, subst, Result, ok, err, Effect, ◌>>=◌}
use high_throughput_transact.Database.World.Atomicity.{bind-ok}

module _ {S E : Type 0} where
  pub record Returns {A : Type 0} (m : Effect S E A) (s : S) (Q : A → S → Type 0) : Type 0 where
    pub holds : (a : A) → (m s).0 ≡ ok a → Q a (m s).1

  pub Returns-bind :
      {A B : Type 0} {m : Effect S E A} {f : A → Effect S E B} {s : S} (Q : A → S → Type 0)
      {R : B → S → Type 0}
      → Returns m s Q
      → ((a : A) (s' : S) → Q a s' → Returns (f a) s' R)
      → Returns (m >>= f) s R
  Returns-bind {A} {B} {m} {f} {s} Q {R} first rest = record {
    holds = λ b h.
        let (a, e, k, p) = bind-ok m f s h in
        subst (λ (z : Result E B × S). R b z.1) (sym p)
          ((rest a (m s).1 (first.holds a e)).holds b k);
  }

  pub Returns-at :
      {A : Type 0} {m : Effect S E A} {s : S} {Q : A → S → Type 0} (a : A) (s' : S)
      → m s ≡ (ok a, s')
      → Q a s'
      → Returns m s Q
  Returns-at {A} {m} {s} {Q} a s' e q = record {
    holds = λ b h.
        let same : a ≡ b = cc in
        subst (λ b. Q b (m s).1) same (subst (λ (z : Result E A × S). Q a z.1) (sym e) q);
  }

  pub Returns-err :
      {A : Type 0} {m : Effect S E A} {s : S} {Q : A → S → Type 0} (e : E) (s' : S)
      → m s ≡ (err e, s')
      → Returns m s Q
  Returns-err {A} {m} {s} {Q} e s' p = record {
    holds = λ b h. let same : err e ≡ ok b = sym (ap (λ (z : Result E A × S). z.0) p) ∙ h in cc;
  }

  pub Returns-weaken :
      {A : Type 0} {m : Effect S E A} {s : S} {Q R : A → S → Type 0}
      → ((a : A) (s' : S) → Q a s' → R a s')
      → Returns m s Q
      → Returns m s R
  Returns-weaken k h = record { holds = λ a e. k a _ (h.holds a e) }
