-- ===== src/Database/Table.antt =====
-- Tables: lists of rows, with the queries that the repositories make of them.
use high_throughput_transact.Base.{
  ℕ, suc, ◌≡◌, refl, ap, ◌∙◌, subst, ◌≢◌, inl, inr, Bool, true, Option, none, some, List, [], ◌∷◌,
  ◌++◌, arith, ◌==◌, if◌then◌else◌, ==_iff, Bool-cases, Option-cases, length, All, any, false,
}

module _ {R : Type 0} where
  -- `UPDATE ... SET f WHERE p`, and `updateMany`.
  unfoldable pub update_where : (R → Bool) → (R → R) → List R → List R
  update_where p f [] = []
  update_where p f (r ∷ rs) = (if p r then f r else r) ∷ update_where p f rs

  unfoldable pub count_where : (R → Bool) → List R → ℕ
  count_where p [] = 0
  count_where p (r ∷ rs) = if p r then suc (count_where p rs) else count_where p rs

  -- `findUnique`, and `findFirst` in the order of the table.
  unfoldable pub find_where : (R → Bool) → List R → Option R
  find_where p [] = none
  find_where p (r ∷ rs) = if p r then some r else find_where p rs

  pub length-update_where :
      (p : R → Bool) (f : R → R) (rs : List R) → length (update_where p f rs) ≡ length rs
  unfolding update_where
  length-update_where p f [] = refl
  length-update_where p f (r ∷ rs) = ap suc (length-update_where p f rs)

  -- An update that matches no row changes nothing.
  pub update_where-none :
      (p : R → Bool) (f : R → R) (rs : List R) → find_where p rs ≡ none → update_where p f rs ≡ rs
  unfolding update_where find_where
  update_where-none p f [] h = refl
  update_where-none p f (r ∷ rs) h = ground (arith, update_where-none p f rs)

  pub find_where-holds :
      (p : R → Bool) (rs : List R) {r : R} → find_where p rs ≡ some r → p r ≡ true
  unfolding find_where
  find_where-holds p [] h = cc
  find_where-holds p (x ∷ rs) {r} h = ground (arith, find_where-holds p rs {r = r})

  -- What holds of every row and is kept by the update holds after it.
  pub All-update_where :
      (P : R → Type 0) (p : R → Bool) (f : R → R) (rs : List R)
      → ((r : R) → p r ≡ true → P r → P (f r))
      → All P rs
      → All P (update_where p f rs)
  unfolding update_where
  All-update_where P p f [] k h = tt
  All-update_where P p f (r ∷ rs) k h = elim (Bool-cases (p r)) [
    | inl e ↦ rw e (k r e h.0, All-update_where P p f rs k h.1)
    | inr e ↦ rw e (h.0, All-update_where P p f rs k h.1)
  ]

  pub All-find_where :
      (P : R → Type 0) (p : R → Bool) (rs : List R) {r : R}
      → All P rs
      → find_where p rs ≡ some r
      → P r
  unfolding find_where
  All-find_where P p [] h e = cc
  All-find_where P p (x ∷ rs) {r} h e = elim (Bool-cases (p x)) [
    | inl q ↦ let same : x ≡ r = ground arith in subst P same h.0
    | inr q ↦ All-find_where P p rs h.1 (ground arith)
  ]

  -- A row that is appended to a table in which none passes the test.
  pub find_where-snoc :
      (p : R → Bool) (rs : List R) (r : R)
      → any p rs ≡ false
      → p r ≡ true
      → find_where p (rs ++ r ∷ []) ≡ some r
  unfolding find_where
  find_where-snoc p [] r h e = rw e
  find_where-snoc p (x ∷ rs) r h e = ground (arith, find_where-snoc p rs r)

  pub find_where-any : (p : R → Bool) (rs : List R) → any p rs ≡ false → find_where p rs ≡ none
  unfolding find_where
  find_where-any p [] h = refl
  find_where-any p (x ∷ rs) h = ground (arith, find_where-any p rs)

-- Tables with a primary key.
module _ {R : Type 0} (key : R → ℕ) where
  abbrev pub find : ℕ → List R → Option R
  find k = find_where (λ r. key r == k)

  -- No two rows have the same key.
  abbrev pub Keyed : List R → Type 0
  Keyed [] = Unit {0}
  Keyed (r ∷ rs) = (find (key r) rs ≡ none) × Keyed rs

  abbrev pub after_update : (R → Bool) → (R → R) → Option R → Option R
  after_update p f none = none
  after_update p f (some r) = some (if p r then f r else r)

  -- An update that keeps the keys is seen at each key by itself.
  pub find-update_where :
      (p : R → Bool) (f : R → R) (k : ℕ) (rs : List R)
      → ((r : R) → key (f r) ≡ key r)
      → find k (update_where p f rs) ≡ after_update p f (find k rs)
  unfolding update_where find_where
  find-update_where p f k [] h = refl
  find-update_where p f k (r ∷ rs) h = ground (arith, h r, find-update_where p f k rs h)

  pub Keyed-update_where :
      (p : R → Bool) (f : R → R) (rs : List R)
      → ((r : R) → key (f r) ≡ key r)
      → Keyed rs
      → Keyed (update_where p f rs)
  unfolding update_where find_where
  Keyed-update_where p f [] h u = tt
  Keyed-update_where p f (r ∷ rs) h u =
      let e = find-update_where p f (key r) rs h in
      ground (arith, h r, e, Keyed-update_where p f rs h u.1)

  -- A row that a test finds is the row of its key.
  pub find-find_where :
      (p : R → Bool) (rs : List R) {r : R}
      → Keyed rs
      → find_where p rs ≡ some r
      → find (key r) rs ≡ some r
  unfolding find_where
  find-find_where p [] u e = cc
  find-find_where p (x ∷ rs) {r} u e = elim (Bool-cases (p x)) [
    | inl q ↦ ground arith
    | inr q ↦ let ih = find-find_where p rs {r = r} u.1 (ground arith) in ground arith
  ]

  -- `INSERT`: the new row stands at the end.
  pub find-snoc :
      (k : ℕ) (r : R) (rs : List R)
      → find k (rs ++ r ∷ [])
        ≡ elim (find k rs) [ some x ↦ some x | none ↦ if key r == k then some r else none ]
  unfolding find_where
  find-snoc k r [] = refl
  find-snoc k r (x ∷ rs) = ground (arith, find-snoc k r rs)

  pub Keyed-snoc : (r : R) (rs : List R) → find (key r) rs ≡ none → Keyed rs → Keyed (rs ++ r ∷ [])
  unfolding find_where
  Keyed-snoc r [] h u = (refl, tt)
  Keyed-snoc r (x ∷ rs) h u = ground (arith, find-snoc (key x) r rs, Keyed-snoc r rs)

  -- An update of the row with one key.
  pub find-update_ne :
      (n k : ℕ) (f : R → R) (rs : List R)
      → ((r : R) → key (f r) ≡ key r)
      → k ≢ n
      → find k (update_where (λ r. key r == n) f rs) ≡ find k rs
  find-update_ne n k f rs h ne = elim (Option-cases (find k rs)) [
    | inl e ↦ find-update_where _ f k rs h ∙ rw e
    | inr (r, e) ↦
        let at_k : key r ≡ k = (==_iff (key r) k).0 (find_where-holds (λ r. key r == k) rs e) in
        find-update_where _ f k rs h ∙ rw e (ground arith)
  ]

  pub find-update_self :
      (n : ℕ) (f : R → R) (rs : List R) {r : R}
      → ((r : R) → key (f r) ≡ key r)
      → find n rs ≡ some r
      → find n (update_where (λ r. key r == n) f rs) ≡ some (f r)
  find-update_self n f rs {r} h e =
      let at_n : (key r == n) ≡ true = find_where-holds (λ r. key r == n) rs e in
      find-update_where _ f n rs h ∙ rw e (rw at_n)
