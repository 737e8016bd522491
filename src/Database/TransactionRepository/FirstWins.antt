-- ===== src/Database/TransactionRepository/FirstWins.antt =====
-- The transactions as a map from provider and transaction id to what was stored first, and
-- `persistBatch` of src/infrastructure/repository/transaction.repository.ts against it.
use high_throughput_transact.Base.{
  ℕ, ◌≡◌, refl, sym, ap, ◌∙◌, ◌⊎◌, inl, inr, Bool, true, false, ◌&&◌, Option, none, some, List, [],
  ◌∷◌, ◌++◌, arith, if◌then◌else◌, Bool-cases, ok, err, ◌≢◌, Result-cases,
}
use high_throughput_transact.Js.{Js}
use high_throughput_transact.Js.Strings.{Text, text_eq}
use high_throughput_transact.Js.Strings.Laws.{text_eq_iff}
use high_throughput_transact.Database.World.{ScoredTransaction, TransactionRow, Tables, World}
use high_throughput_transact.Database.TransactionRepository.{
  PersistBatchInput, BatchPersistResult, persist_batch, insert_new, is_stored, same_key,
}
use high_throughput_transact.Database.TransactionRepository.Statements.{Persisted}
use high_throughput_transact.Database.TransactionRepository.Batches.{batch_ok, persist_batch-atomic}

-- What is known under a provider and a transaction id.
abbrev pub Registry : Js → Type 0
Registry js = Text → Text → Option (ScoredTransaction js)

abbrev pub or_else : {A : Type 0} → Option A → Option A → Option A
or_else none o = o
or_else (some x) o = some x

or_else-none : {A : Type 0} (a : Option A) → or_else a none ≡ a
or_else-none none = refl
or_else-none (some x) = refl

or_else_assoc : {A : Type 0} (a b c : Option A) → or_else (or_else a b) c ≡ or_else a (or_else b c)
or_else_assoc none b c = refl
or_else_assoc (some x) b c = refl

module _ {js : Js} where
  abbrev pub matches : Text → Text → ScoredTransaction js → Bool
  matches provider id s =
      text_eq provider s.transaction.provider && text_eq id s.transaction.transaction_id

  abbrev pub first_of : List (ScoredTransaction js) → Registry js
  first_of [] provider id = none
  first_of (s ∷ ss) provider id = if matches provider id s then some s else first_of ss provider id

  -- The abstract operation: what is known stays, and of the new records the first one counts.
  abbrev pub register : List (ScoredTransaction js) → Registry js → Registry js
  register ss m provider id = or_else (m provider id) (first_of ss provider id)

  -- The view of a table, which forgets its order and the imports.
  abbrev pub view : List (TransactionRow js) → Registry js
  view [] provider id = none
  view (r ∷ rs) provider id =
      if matches provider id r.scored then some r.scored else view rs provider id

  view-snoc :
      (rows : List (TransactionRow js)) (row : TransactionRow js) (provider id : Text)
      → view (rows ++ row ∷ []) provider id ≡ register (row.scored ∷ []) (view rows) provider id
  view-snoc [] row provider id = refl
  view-snoc (r ∷ rows) row provider id = elim (Bool-cases (matches provider id r.scored)) [
    | inl e ↦ rw e refl
    | inr e ↦ rw e (view-snoc rows row provider id)
  ]

  -- A record that the insert skips is known.
  stored-view :
      (s : ScoredTransaction js) (rows : List (TransactionRow js)) (provider id : Text)
      → matches provider id s ≡ true
      → is_stored s rows ≡ true
      → (t : ScoredTransaction js) × (view rows provider id ≡ some t)
  unfolding is_stored
  stored-view s [] provider id m h = cc
  stored-view s (r ∷ rows) provider id m h = elim (Bool-cases (matches provider id r.scored)) [
    | inl e ↦ (r.scored, rw e refl)
    | inr e ↦
        let p : provider ≡ s.transaction.provider =
          (text_eq_iff provider s.transaction.provider).0 (ground (arith, m)) in
        let i : id ≡ s.transaction.transaction_id =
          (text_eq_iff id s.transaction.transaction_id).0 (ground (arith, m)) in
        let k : same_key s r.scored ≡ false = rw (sym p, sym i) e in
        let (t, q) = stored-view s rows provider id m (rw k at h) in (t, rw e q)
  ]

  first_of-cons :
      (s : ScoredTransaction js) (ss : List (ScoredTransaction js)) (provider id : Text)
      → or_else (first_of (s ∷ []) provider id) (first_of ss provider id)
        ≡ first_of (s ∷ ss) provider id
  first_of-cons s ss provider id = elim (Bool-cases (matches provider id s)) [
    | inl e ↦ rw e refl
    | inr e ↦ rw e refl
  ]

  register-known :
      (s : ScoredTransaction js) (ss : List (ScoredTransaction js))
      (rows : List (TransactionRow js)) (provider id : Text)
      → is_stored s rows ≡ true
      → register ss (view rows) provider id ≡ register (s ∷ ss) (view rows) provider id
  register-known s ss rows provider id h = elim (Bool-cases (matches provider id s)) [
    | inl e ↦ let (t, q) = stored-view s rows provider id e h in rw q refl
    | inr e ↦ rw e refl
  ]

  insert_new-register :
      (import_id : ℕ) (ss : List (ScoredTransaction js)) (rows : List (TransactionRow js))
      (provider id : Text)
      → view (insert_new import_id ss rows).1 provider id ≡ register ss (view rows) provider id
  unfolding insert_new
  insert_new-register import_id [] rows provider id = sym (or_else-none (view rows provider id))
  insert_new-register import_id (s ∷ ss) rows provider id = elim (Bool-cases (is_stored s rows)) [
    | inl old ↦ rw old (
        insert_new-register import_id ss rows provider id
        ∙ register-known s ss rows provider id old)
    | inr new ↦
        let row : TransactionRow js = record { import_id = import_id; scored = s } in
        rw new (
          insert_new-register import_id ss (rows ++ row ∷ []) provider id
          ∙ ap (λ o. or_else o (first_of ss provider id)) (view-snoc rows row provider id)
          ∙ or_else_assoc (view rows provider id) (first_of (s ∷ []) provider id) _
          ∙ ap (or_else (view rows provider id)) (first_of-cons s ss provider id))
  ]

  -- Whatever the connection does, a call of `persistBatch` either changes nothing or registers its
  -- records: under each provider and transaction id what was known stays, and otherwise the first of
  -- the records of the batch is known. A call that returns has registered them.
  pub persist_batch-refines :
      (input : PersistBatchInput js) (w : World js)
      → let before = view w.tables.transactions in
        let (result, after) = persist_batch input w in
        (((provider id : Text) → view after.tables.transactions provider id ≡ before provider id)
          × ((r : BatchPersistResult) → result ≢ ok r))
        ⊎ ((provider id : Text)
            → view after.tables.transactions provider id ≡ register input.scored before provider id)
  persist_batch-refines input w = elim (Result-cases (persist_batch input w).0) [
    | inl (r, e) ↦ inr (registered r (batch_ok input w e))
    | inr (x, e) ↦ elim (persist_batch-atomic input w) [
      | inl same ↦ inl (
        λ provider id. ap (λ (t : Tables js). view t.transactions provider id) same,
        λ r h. let c : err x ≡ ok r = sym e ∙ h in cc,
      )
      | inr (r, p) ↦ inr (registered r p)
    ]
  ]
    where
      registered :
          (r : BatchPersistResult)
          → Persisted input w.tables r (persist_batch input w).1.tables
          → (provider id : Text)
          → view (persist_batch input w).1.tables.transactions provider id
            ≡ register input.scored (view w.tables.transactions) provider id
      registered r p provider id =
          ap (λ rows. view rows provider id) p.transactions
          ∙ insert_new-register input.import_id input.scored w.tables.transactions provider id
