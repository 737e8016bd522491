-- ===== src/Database/World/Contracts.antt =====
-- Contracts of database calls: what they keep of the tables, whatever the connection does, and
-- what holds of the values that they return.
use high_throughput_transact.Base.{
  catch, throw, ℕ, String, ◌≡◌, sym, ap, ◌∙◌, subst, ◌⊎◌, inl, inr, Bool, true, false,
  if◌then◌else◌, Result, ok, err, pure, ◌>>=◌, Result-cases,
}
use high_throughput_transact.Js.{Js}
use high_throughput_transact.Domain.Errors.{Thrown}
use high_throughput_transact.Database.World.{
  Tables, World, Db, Query, statement, transaction, wrapped, current_time,
}
use high_throughput_transact.Database.World.Atomicity.{
  statement-ok, statement-tables, transaction-ok, transaction-tables, wrapped-ok, wrapped-tables,
}

module _ {js : Js} (I : Tables js → Type 0) where
  pub record Ensures {A : Type 0} (m : Db js A) (Q : A → Type 0) : Type 1 where
    pub keeps : (w : World js) → I w.tables → I (m w).1.tables
    pub returns : (w : World js) → I w.tables → (a : A) → (m w).0 ≡ ok a → Q a

abbrev pub Any : {A : Type 0} → A → Type 0
Any a = Unit {0}

pub bind-cases :
    {js : Js} {A B : Type 0} (m : Db js A) (f : A → Db js B) (w : World js)
    → ((a : A) × ((m w).0 ≡ ok a) × ((m >>= f) w ≡ f a (m w).1))
      ⊎ ((x : Thrown) × ((m >>= f) w ≡ (err x, (m w).1)))
unfolding ◌>>=◌
bind-cases m f w = elim (Result-cases (m w).0) [
  | inl (a, e) ↦ inl (a, e, rw (e, ◌>>=◌))
  | inr (x, e) ↦ inr (x, rw (e, ◌>>=◌))
]

rethrown-world :
    {js : Js} {A : Type 0} (m : Db js A) (f : Thrown → Thrown) (w : World js)
    → (catch m (λ e. throw (f e)) w).1 ≡ (m w).1
rethrown-world m f w = elim (Result-cases (m w).0) [
  | inl (a, e) ↦ rw (e, catch)
  | inr (x, e) ↦ rw (e, catch)
]

rethrown-ok :
    {js : Js} {A : Type 0} (m : Db js A) (f : Thrown → Thrown) (w : World js) {a : A}
    → (catch m (λ e. throw (f e)) w).0 ≡ ok a
    → (m w).0 ≡ ok a
rethrown-ok m f w h = elim (Result-cases (m w).0) [
  | inl (b, e) ↦ rw e (rw (e, catch) at h)
  | inr (x, e) ↦ let q = rw (e, catch) at h in cc
]

module _ {js : Js} {I : Tables js → Type 0} where
  pub Ensures-pure : {A : Type 0} (a : A) (Q : A → Type 0) → Q a → Ensures I (pure a) Q
  Ensures-pure {A} a Q q = record {
    keeps = λ w i. i;
    returns = λ w i b e. subst Q (ok-injective e) q;
  }
    where
      ok-injective : {b c : A} → (let x : Result Thrown A = ok b in x ≡ ok c) → b ≡ c
      ok-injective e = cc

  pub Ensures-current_time : Ensures I current_time Any
  Ensures-current_time = record { keeps = λ w i. i; returns = λ w i b e. tt }

  pub Ensures-weaken :
      {A : Type 0} {m : Db js A} {Q R : A → Type 0}
      → ((a : A) → Q a → R a)
      → Ensures I m Q
      → Ensures I m R
  Ensures-weaken h e = record { keeps = e.keeps; returns = λ w i a q. h a (e.returns w i a q) }

  pub Ensures-statement :
      {A : Type 0} (q : Query js A) (Q : A → Type 0)
      → ((t : Tables js) → I t → I (q t).1)
      → ((t : Tables js) → I t → (a : A) → (q t).0 ≡ ok a → Q a)
      → Ensures I (statement q) Q
  Ensures-statement {A} q Q k r = record {
    keeps = kept;
    returns = λ w i a e.
        r w.tables i a (ap (λ (p : Result Thrown A × Tables js). p.0) (statement-ok q w e));
  }
    where
      kept : (w : World js) → I w.tables → I (statement q w).1.tables
      kept w i = elim (statement-tables q w) [
        | inl e ↦ subst I (sym e) i
        | inr e ↦ subst I (sym e) (k w.tables i)
      ]

  pub Ensures-bind :
      {A B : Type 0} (m : Db js A) (f : A → Db js B) (Q : A → Type 0) (R : B → Type 0)
      → Ensures I m Q
      → ((a : A) → Q a → Ensures I (f a) R)
      → Ensures I (m >>= f) R
  Ensures-bind {A} {B} m f Q R first rest = record { keeps = kept; returns = returned }
    where
      kept : (w : World js) → I w.tables → I ((m >>= f) w).1.tables
      kept w i = elim (bind-cases m f w) [
        | inl (a, e, p) ↦
            subst (λ (z : Result Thrown B × World js). I z.1.tables) (sym p)
              ((rest a (first.returns w i a e)).keeps (m w).1 (first.keeps w i))
        | inr (x, p) ↦
            subst (λ (z : Result Thrown B × World js). I z.1.tables) (sym p) (first.keeps w i)
      ]

      returned : (w : World js) → I w.tables → (b : B) → ((m >>= f) w).0 ≡ ok b → R b
      returned w i b h = elim (bind-cases m f w) [
        | inl (a, e, p) ↦
            (rest a (first.returns w i a e)).returns (m w).1 (first.keeps w i) b
              (sym (ap (λ (z : Result Thrown B × World js). z.0) p) ∙ h)
        | inr (x, p) ↦
            let c : err x ≡ ok b = sym (ap (λ (z : Result Thrown B × World js). z.0) p) ∙ h in cc
      ]

  pub Ensures-transaction :
      {A : Type 0} (m : Db js A) (Q : A → Type 0) → Ensures I m Q → Ensures I (transaction m) Q
  Ensures-transaction m Q e = record {
    keeps = kept;
    returns = λ w i a h. e.returns w i a (transaction-ok m w h).0;
  }
    where
      kept : (w : World js) → I w.tables → I (transaction m w).1.tables
      kept w i = elim (transaction-tables m w) [
        | inl same ↦ subst I (sym same) i
        | inr (a, r, t) ↦ subst I (sym t) (e.keeps w i)
      ]

  pub Ensures-wrapped :
      {A : Type 0} (operation : String) (m : Db js A) (Q : A → Type 0)
      → Ensures I m Q
      → Ensures I (wrapped operation m) Q
  Ensures-wrapped operation m Q e = record {
    keeps = λ w i.
        subst (λ (z : World js). I z.tables) (sym (wrapped-tables operation m w)) (e.keeps w i);
    returns = λ w i a h. e.returns w i a (wrapped-ok operation m w h);
  }

  pub Ensures-if :
      {A : Type 0} (b : Bool) {m n : Db js A} {Q : A → Type 0}
      → Ensures I m Q
      → Ensures I n Q
      → Ensures I (if b then m else n) Q
  Ensures-if true e f = e
  Ensures-if false e f = f

  -- A statement whose change of the tables keeps the invariant, and whose value does not matter.
  pub Ensures-update :
      {A : Type 0} (q : Query js A)
      → ((t : Tables js) → I t → I (q t).1)
      → Ensures I (statement q) Any
  Ensures-update q k = Ensures-statement q Any k (λ t i a e. tt)

  -- A call that reads the clock in the same statement.
  pub Ensures-clocked :
      {A : Type 0} (m : ℕ → Db js A) (Q : A → Type 0)
      → ((now : ℕ) → Ensures I (m now) Q)
      → Ensures I (λ w. m w.now w) Q
  Ensures-clocked m Q e = record {
    keeps = λ w i. (e w.now).keeps w i;
    returns = λ w i a h. (e w.now).returns w i a h;
  }

  -- A `catch` block that throws another error.
  pub Ensures-rethrow :
      {A : Type 0} (m : Db js A) (f : Thrown → Thrown) (Q : A → Type 0)
      → Ensures I m Q
      → Ensures I (catch m (λ e. throw (f e))) Q
  Ensures-rethrow m f Q e = record {
    keeps = λ w i. subst (λ (z : World js). I z.tables) (sym (rethrown-world m f w)) (e.keeps w i);
    returns = λ w i a h. e.returns w i a (rethrown-ok m f w h);
  }
