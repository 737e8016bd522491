-- ===== src/Base/Effects.antt =====
-- A call that may throw, over a state: what an `async` method of the program does, run to its end.
-- The state comes back after a throw too, since what was written stays written.
use mathlib.Core.Path.{◌≡◌, refl, ap}
use mathlib.Core.Logic.{◌⊎◌, inl, inr}
use mathlib.Core.List.{List, [], ◌∷◌}

pub data Result (E A : Type 0) : Type 0 where
  ok : A → Result E A
  err : E → Result E A

abbrev pub Effect : Type 0 → Type 0 → Type 0 → Type 0
Effect S E A = S → Result E A × S

module _ {S E A : Type 0} where
  abbrev pub pure : A → Effect S E A
  pure a s = (ok a, s)

  abbrev pub throw : E → Effect S E A
  throw e s = (err e, s)

  -- `try { m } catch (err) { handler(err) }`
  abbrev pub catch : Effect S E A → (E → Effect S E A) → Effect S E A
  catch m handler s = let (r, s') = m s in elim r [ ok a ↦ (ok a, s') | err e ↦ handler e s' ]

abbrev pub modify : {S E : Type 0} → (S → S) → Effect S E (Unit {0})
modify f s = (ok tt, f s)

infixl 5 ◌>>=◌ ◌>>◌
unfoldable pub ◌>>=◌ : {S E A B : Type 0} → Effect S E A → (A → Effect S E B) → Effect S E B
◌>>=◌ m f s = let (r, s') = m s in elim r [ ok a ↦ f a s' | err e ↦ (err e, s') ]

abbrev pub ◌>>◌ : {S E B : Type 0} → Effect S E (Unit {0}) → Effect S E B → Effect S E B
m >> k = m >>= λ _. k

-- `for (const x of xs) await body(x)`
abbrev pub for_each :
    {S E A : Type 0} → List A → (A → Effect S E (Unit {0})) → Effect S E (Unit {0})
for_each [] body = pure tt
for_each (x ∷ xs) body = body x >> for_each xs body

pub Result-cases :
    {E A : Type 0} (r : Result E A) → ((a : A) × (r ≡ ok a)) ⊎ ((e : E) × (r ≡ err e))
Result-cases (ok a) = inl (a, refl)
Result-cases (err e) = inr (e, refl)

-- A sequence, and a `try`, where the outcome of the first call is known.
module _ {S E A : Type 0} where
  pub bind_at :
      {B : Type 0} (m : Effect S E A) (f : A → Effect S E B) (s : S) {a : A} {s' : S}
      → m s ≡ (ok a, s')
      → (m >>= f) s ≡ f a s'
  unfolding ◌>>=◌
  bind_at {B} m f s h =
      ap
        (λ (x : Result E A × S).
          let y : Result E B × S = elim x.0 [ ok a ↦ f a x.1 | err e ↦ (err e, x.1) ] in y)
        h

  pub bind_err :
      {B : Type 0} (m : Effect S E A) (f : A → Effect S E B) (s : S) {e : E} {s' : S}
      → m s ≡ (err e, s')
      → (m >>= f) s ≡ (err e, s')
  unfolding ◌>>=◌
  bind_err {B} m f s h =
      ap
        (λ (x : Result E A × S).
          let y : Result E B × S = elim x.0 [ ok a ↦ f a x.1 | err e ↦ (err e, x.1) ] in y)
        h

  pub catch_at :
      (m : Effect S E A) (k : E → Effect S E A) (s : S) {a : A} {s' : S}
      → m s ≡ (ok a, s')
      → catch m k s ≡ (ok a, s')
  catch_at m k s h =
      ap
        (λ (x : Result E A × S).
          let y : Result E A × S = elim x.0 [ ok a ↦ (ok a, x.1) | err e ↦ k e x.1 ] in y)
        h

  pub catch_err :
      (m : Effect S E A) (k : E → Effect S E A) (s : S) {e : E} {s' : S}
      → m s ≡ (err e, s')
      → catch m k s ≡ k e s'
  catch_err m k s h =
      ap
        (λ (x : Result E A × S).
          let y : Result E A × S = elim x.0 [ ok a ↦ (ok a, x.1) | err e ↦ k e x.1 ] in y)
        h
