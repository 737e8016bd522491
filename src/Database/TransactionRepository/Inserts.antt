-- ===== src/Database/TransactionRepository/Inserts.antt =====
-- What the insert of a batch does to the table of transactions.
use high_throughput_transact.Base.{
  ℕ, suc, ◌+◌, ◌≤◌, ◌≡◌, refl, sym, ◌∙◌, inl, inr, Bool, true, false, ◌&&◌, ◌||◌, List, [], ◌∷◌,
  ◌++◌, arith, ◌==◌, if◌then◌else◌, Bool-cases, length, All,
}
use mathlib.Core.List.{append-nil, append_assoc}
use mathlib.Core.Path.{ap₂}
use high_throughput_transact.Js.{Js}
use high_throughput_transact.Js.Strings.{Text, text_eq}
use high_throughput_transact.Js.Strings.Laws.{text_eq_iff}
use high_throughput_transact.Database.Table.{count_where}
use high_throughput_transact.Database.World.{
  ScoredTransaction, TransactionRow, RejectedRecordInput, RejectedRow,
}
use high_throughput_transact.Database.TransactionRepository.{
  same_key, is_stored, insert_new, number_rejections,
}

text_eq_refl : (s : Text) → text_eq s s ≡ true
text_eq_refl s = (text_eq_iff s s).1 refl

text_eq_comm : (s t : Text) → text_eq s t ≡ text_eq t s
text_eq_comm [] [] = refl
text_eq_comm [] (y ∷ t) = refl
text_eq_comm (x ∷ s) [] = refl
text_eq_comm (x ∷ s) (y ∷ t) = ground (arith, text_eq_comm s t)

pub count_where-append :
    {R : Type 0} (p : R → Bool) (xs ys : List R)
    → count_where p (xs ++ ys) ≡ count_where p xs + count_where p ys
unfolding count_where
count_where-append p [] ys = omega arith
count_where-append p (x ∷ xs) ys = ground (arith, count_where-append p xs ys)

-- The rejections of a batch count for its import and for no other.
pub count_where-number_rejections :
    (import_id : ℕ) (uuid : ℕ → ℕ) (drawn now k : ℕ) (rs : List RejectedRecordInput)
    → count_where
        (λ (r : RejectedRow). r.import_id == k)
        (number_rejections import_id uuid drawn now rs)
      ≡ (if import_id == k then length rs else 0)
unfolding count_where number_rejections
count_where-number_rejections import_id uuid drawn now k [] = ground arith
count_where-number_rejections import_id uuid drawn now k (r ∷ rs) =
    ground (arith, count_where-number_rejections import_id uuid (drawn + 1) now k rs)

module _ {js : Js} where
  same_key_refl : (s : ScoredTransaction js) → same_key s s ≡ true
  same_key_refl s =
      ground (arith, text_eq_refl s.transaction.provider, text_eq_refl s.transaction.transaction_id)

  same_key_comm : (s t : ScoredTransaction js) → same_key s t ≡ same_key t s
  same_key_comm s t =
      ap₂ ◌&&◌ (text_eq_comm s.transaction.provider t.transaction.provider)
        (text_eq_comm s.transaction.transaction_id t.transaction.transaction_id)

  is_stored-append :
      (s : ScoredTransaction js) (xs ys : List (TransactionRow js))
      → is_stored s (xs ++ ys) ≡ (is_stored s xs || is_stored s ys)
  unfolding is_stored
  is_stored-append s [] ys = refl
  is_stored-append s (x ∷ xs) ys = ground (arith, is_stored-append s xs ys)

  -- No two rows have the same provider and transaction id.
  abbrev pub Distinct : List (TransactionRow js) → Type 0
  Distinct [] = Unit {0}
  Distinct (r ∷ rs) = (is_stored r.scored rs ≡ false) × Distinct rs

  Distinct-snoc :
      (r : TransactionRow js) (rs : List (TransactionRow js))
      → is_stored r.scored rs ≡ false
      → Distinct rs
      → Distinct (rs ++ r ∷ [])
  unfolding is_stored
  Distinct-snoc r [] h d = (refl, tt)
  Distinct-snoc r (x ∷ rs) h d = ground (
    arith,
    is_stored-append x.scored rs (r ∷ []),
    same_key_comm x.scored r.scored,
    Distinct-snoc r rs,
  )

  abbrev pub of_import : ℕ → TransactionRow js → Bool
  of_import k r = r.import_id == k

  -- The insert as a whole: the rows stay in front, what is added is counted and is of the import,
  -- no key comes twice, and afterwards every record of the batch is stored.
  pub record Inserted (import_id : ℕ) (ss : List (ScoredTransaction js))
      (rows : List (TransactionRow js)) (p : ℕ × List (TransactionRow js)) : Type 0 where
    pub bounded : p.0 ≤ length ss
    pub kept : (s : ScoredTransaction js) → is_stored s rows ≡ true → is_stored s p.1 ≡ true
    pub added : (new : List (TransactionRow js)) × (p.1 ≡ rows ++ new) × (length new ≡ p.0)
    pub counted :
        (k : ℕ)
        → count_where (of_import k) p.1
          ≡ count_where (of_import k) rows + (if import_id == k then p.0 else 0)
    pub distinct : Distinct rows → Distinct p.1
    pub stored : All (λ (s : ScoredTransaction js). is_stored s p.1 ≡ true) ss

  insert_one :
      (import_id : ℕ) (s : ScoredTransaction js) (ss : List (ScoredTransaction js))
      (rows : List (TransactionRow js)) (p : ℕ × List (TransactionRow js))
      → is_stored s rows ≡ false
      → Inserted import_id ss (rows ++ record { import_id = import_id; scored = s } ∷ []) p
      → Inserted import_id (s ∷ ss) rows (suc p.0, p.1)
  unfolding is_stored count_where
  insert_one import_id s ss rows p h i =
      let row : TransactionRow js = record { import_id = import_id; scored = s } in
      record {
        bounded = omega (arith, i.bounded);
        kept = λ x e. i.kept x (ground (arith, is_stored-append x rows (row ∷ [])));
        added =
            let (new, e, l) = i.added in
            (row ∷ new, e ∙ append_assoc rows (row ∷ []) new, omega arith);
        counted =
            λ k. ground (arith, i.counted k, count_where-append (of_import k) rows (row ∷ []));
        distinct = λ d. i.distinct (Distinct-snoc row rows h d);
        stored = (
          i.kept s (ground (arith, is_stored-append s rows (row ∷ []), same_key_refl s)),
          i.stored,
        );
      }

  pub insert_new-Inserted :
      (import_id : ℕ) (ss : List (ScoredTransaction js)) (rows : List (TransactionRow js))
      → Inserted import_id ss rows (insert_new import_id ss rows)
  unfolding insert_new
  insert_new-Inserted import_id [] rows = record {
    bounded = omega arith;
    kept = λ s e. e;
    added = ([], sym (append-nil rows), refl);
    counted = λ k. ground arith;
    distinct = λ d. d;
    stored = tt;
  }
  insert_new-Inserted import_id (s ∷ ss) rows = elim (Bool-cases (is_stored s rows)) [
    | inr new ↦ rw new (
        insert_one import_id s ss rows _ new (
          insert_new-Inserted import_id ss
            (rows ++ record { import_id = import_id; scored = s } ∷ [])))
    | inl old ↦
        let i = insert_new-Inserted import_id ss rows in
        rw old (record {
          bounded = omega (arith, i.bounded);
          kept = i.kept;
          added = i.added;
          counted = i.counted;
          distinct = i.distinct;
          stored = (i.kept s old, i.stored);
        })
  ]

  -- A batch that is stored already inserts nothing.
  pub insert_new-stored :
      (import_id : ℕ) (ss : List (ScoredTransaction js)) (rows : List (TransactionRow js))
      → All (λ (s : ScoredTransaction js). is_stored s rows ≡ true) ss
      → insert_new import_id ss rows ≡ (0, rows)
  unfolding insert_new
  insert_new-stored import_id [] rows h = refl
  insert_new-stored import_id (s ∷ ss) rows h = rw h.0 (insert_new-stored import_id ss rows h.1)
