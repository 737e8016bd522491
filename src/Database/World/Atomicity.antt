-- ===== src/Database/World/Atomicity.antt =====
-- What a statement and a transaction leave in the tables, whatever the connection does.
use high_throughput_transact.Base.{
  sym, ap, ◌∙◌, String, ◌≡◌, refl, ◌⊎◌, inl, inr, List, [], ◌∷◌, arith, Result, ok, err, Effect,
  catch, ◌>>=◌, Result-cases,
}
use high_throughput_transact.Js.{Js}
use high_throughput_transact.Domain.Errors.{Thrown}
use high_throughput_transact.Database.World.{
  Tables, Reply, answered, refused, lost, World, Db, Query, deliver, statement, commit, conclude,
  transaction, wrapped,
}

module _ {js : Js} {A : Type 0} where
  deliver-ok :
      (rs : List Reply) (q : Query js A) (w : World js) {a : A}
      → (deliver rs q w).0 ≡ ok a
      → q w.tables ≡ (ok a, (deliver rs q w).1.tables)
  unfolding deliver
  deliver-ok [] q w h = ground arith
  deliver-ok (answered ∷ rs) q w h = ground arith
  deliver-ok (refused e ∷ rs) q w h = cc
  deliver-ok (lost e ∷ rs) q w h = cc

  -- A statement that returns has been carried out.
  pub statement-ok :
      (q : Query js A) (w : World js) {a : A}
      → (statement q w).0 ≡ ok a
      → q w.tables ≡ (ok a, (statement q w).1.tables)
  unfolding statement
  statement-ok q w h = deliver-ok w.replies q w h

  deliver-tables :
      (rs : List Reply) (q : Query js A) (w : World js)
      → ((deliver rs q w).1.tables ≡ w.tables) ⊎ ((deliver rs q w).1.tables ≡ (q w.tables).1)
  unfolding deliver
  deliver-tables [] q w = inr refl
  deliver-tables (answered ∷ rs) q w = inr refl
  deliver-tables (refused e ∷ rs) q w = inl refl
  deliver-tables (lost e ∷ rs) q w = inr refl

  -- It is carried out or it is not.
  pub statement-tables :
      (q : Query js A) (w : World js)
      → ((statement q w).1.tables ≡ w.tables) ⊎ ((statement q w).1.tables ≡ (q w.tables).1)
  unfolding statement
  statement-tables q w = deliver-tables w.replies q w

  commit-ok :
      (before : Tables js) (a : A) (rs : List Reply) (w : World js) {b : A}
      → (commit before a rs w).0 ≡ ok b
      → (a ≡ b) × ((commit before a rs w).1.tables ≡ w.tables)
  unfolding commit
  commit-ok before a [] w h = (cc, refl)
  commit-ok before a (answered ∷ rs) w h = (cc, refl)
  commit-ok before a (refused e ∷ rs) w h = cc
  commit-ok before a (lost e ∷ rs) w h = cc

  conclude-ok :
      (before : Tables js) (r : Result Thrown A) (w : World js) {b : A}
      → (conclude before r w).0 ≡ ok b
      → (r ≡ ok b) × ((conclude before r w).1.tables ≡ w.tables)
  unfolding conclude
  conclude-ok before (ok a) w h = let (e, t) = commit-ok before a w.replies w h in (cc, t)
  conclude-ok before (err e) w h = cc

  -- A transaction that returns has left what its body left.
  pub transaction-ok :
      (m : Db js A) (w : World js) {b : A}
      → (transaction m w).0 ≡ ok b
      → ((m w).0 ≡ ok b) × ((transaction m w).1.tables ≡ (m w).1.tables)
  unfolding transaction
  transaction-ok m w h = conclude-ok w.tables (m w).0 (m w).1 h

  commit-tables :
      (before : Tables js) (a : A) (rs : List Reply) (w : World js)
      → ((commit before a rs w).1.tables ≡ before) ⊎ ((commit before a rs w).1.tables ≡ w.tables)
  unfolding commit
  commit-tables before a [] w = inr refl
  commit-tables before a (answered ∷ rs) w = inr refl
  commit-tables before a (refused e ∷ rs) w = inl refl
  commit-tables before a (lost e ∷ rs) w = inr refl

  conclude-tables :
      (before : Tables js) (r : Result Thrown A) (w : World js)
      → ((conclude before r w).1.tables ≡ before)
        ⊎ ((a : A) × (r ≡ ok a) × ((conclude before r w).1.tables ≡ w.tables))
  unfolding conclude
  conclude-tables before (ok a) w = elim (commit-tables before a w.replies w) [
    | inl e ↦ inl e
    | inr e ↦ inr (a, refl, e)
  ]
  conclude-tables before (err e) w = inl refl

  -- All or nothing: the tables are as before, or the body returned and they are as it left them.
  pub transaction-tables :
      (m : Db js A) (w : World js)
      → ((transaction m w).1.tables ≡ w.tables)
        ⊎ ((a : A) × ((m w).0 ≡ ok a) × ((transaction m w).1.tables ≡ (m w).1.tables))
  unfolding transaction
  transaction-tables m w = conclude-tables w.tables (m w).0 (m w).1

not_ok : {E A : Type 0} {e : E} {a : A} → ¬ (err e ≡ ok a)
not_ok h = cc

-- A bind that returns.
pub >>=-ok :
    {S E A B : Type 0} (m : Effect S E A) (f : A → Effect S E B) (s : S) {b : B}
    → ((m >>= f) s).0 ≡ ok b
    → (a : A) × ((m s).0 ≡ ok a) × (((m >>= f) s) ≡ f a (m s).1)
unfolding ◌>>=◌
>>=-ok m f s h = elim (Result-cases (m s).0) [
  | inl (a, e) ↦ (a, e, rw (e, ◌>>=◌))
  | inr (x, e) ↦ absurd (not_ok (rw (e, ◌>>=◌) at h))
]

-- The same with what the rest of the call does.
pub bind-ok :
    {S E A B : Type 0} (m : Effect S E A) (f : A → Effect S E B) (s : S) {b : B}
    → ((m >>= f) s).0 ≡ ok b
    → (a : A) × ((m s).0 ≡ ok a) × ((f a (m s).1).0 ≡ ok b) × (((m >>= f) s) ≡ f a (m s).1)
bind-ok {E = E} {B = B} m f s h =
    let (a, e, p) = >>=-ok m f s h in (a, e, sym (ap (λ (z : Result E B × _). z.0) p) ∙ h, p)

-- What `wrapped` returns and leaves is what its body returns and leaves.
pub wrapped-tables :
    {js : Js} {A : Type 0} (operation : String) (m : Db js A) (w : World js)
    → (wrapped operation m w).1 ≡ (m w).1
unfolding wrapped
wrapped-tables operation m w = elim (Result-cases (m w).0) [
  | inl (a, e) ↦ rw (e, catch)
  | inr (x, e) ↦ rw (e, catch)
]

pub wrapped-ok :
    {js : Js} {A : Type 0} (operation : String) (m : Db js A) (w : World js) {a : A}
    → (wrapped operation m w).0 ≡ ok a
    → (m w).0 ≡ ok a
unfolding wrapped
wrapped-ok operation m w h = elim (Result-cases (m w).0) [
  | inl (b, e) ↦ rw e (rw (e, catch) at h)
  | inr (x, e) ↦ absurd (not_ok (rw (e, catch) at h))
]
