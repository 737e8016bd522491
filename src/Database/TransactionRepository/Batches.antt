-- ===== src/Database/TransactionRepository/Batches.antt =====
-- What `persistBatch` of src/infrastructure/repository/transaction.repository.ts leaves in the
-- database, whatever the connection does.
use high_throughput_transact.Base.{
  ℕ, ◌+◌, ◌≡◌, sym, ap, ◌∙◌, subst, ◌⊎◌, inl, inr, Bool, true, List, [], ◌∷◌, arith, ◌==◌,
  if◌then◌else◌, length, All, ok,
}
use high_throughput_transact.Js.{Js}
use high_throughput_transact.Database.Table.{update_where, count_where}
use high_throughput_transact.Database.World.{
  ImportRow, ScoredTransaction, TransactionRow, Tables, World, transaction,
}
use high_throughput_transact.Database.World.Atomicity.{
  transaction-ok, transaction-tables, wrapped-tables, wrapped-ok,
}
use high_throughput_transact.Database.TransactionRepository.{
  PersistBatchInput, BatchPersistResult, count_batch, persist_rows, persist_batch, is_stored,
}
use high_throughput_transact.Database.TransactionRepository.Inserts.{
  Distinct, of_import, insert_new-Inserted, insert_new-stored, count_where-append,
  count_where-number_rejections,
}
use high_throughput_transact.Database.TransactionRepository.Statements.{
  has_id, rejection_of, Persisted, persist_rows-Persisted,
}

module _ {js : Js} where
  pub batch_ok :
      (input : PersistBatchInput js) (w : World js) {r : BatchPersistResult}
      → (persist_batch input w).0 ≡ ok r
      → Persisted input w.tables r (persist_batch input w).1.tables
  unfolding persist_batch
  batch_ok input w {r} h =
      let body = persist_rows input in
      let outer = wrapped-tables "TransactionRepository.persistBatch" (transaction body) w in
      let (k, t) =
        transaction-ok body w
          (wrapped-ok "TransactionRepository.persistBatch" (transaction body) w h) in
      subst (Persisted input w.tables r) (sym (ap (λ (z : World js). z.tables) outer ∙ t))
        (persist_rows-Persisted input w k)

  -- Whatever the connection does to the statements and to the commit of `persistBatch`, the tables
  -- are afterwards as they were, or the whole batch has been carried out: the new records stored,
  -- the rejections appended, and the import counted, all from the tables before.
  pub persist_batch-atomic :
      (input : PersistBatchInput js) (w : World js)
      → ((persist_batch input w).1.tables ≡ w.tables)
        ⊎ ((r : BatchPersistResult) × Persisted input w.tables r (persist_batch input w).1.tables)
  unfolding persist_batch
  persist_batch-atomic input w =
      let body = persist_rows input in
      let outer =
        ap (λ (z : World js). z.tables)
          (wrapped-tables "TransactionRepository.persistBatch" (transaction body) w) in
      elim (transaction-tables body w) [
        | inl same ↦ inl (outer ∙ same)
        | inr (r, k, t) ↦ inr (
          r,
          subst (Persisted input w.tables r) (sym (outer ∙ t)) (persist_rows-Persisted input w k),
        )
      ]

  pub All-stored :
      (input : PersistBatchInput js) (w : World js) {r : BatchPersistResult}
      → (persist_batch input w).0 ≡ ok r
      → All
          (λ (s : ScoredTransaction js).
            is_stored s (persist_batch input w).1.tables.transactions ≡ true)
          input.scored
  All-stored input w h =
      let i = insert_new-Inserted input.import_id input.scored w.tables.transactions in
      subst (λ rows. All (λ (s : ScoredTransaction js). is_stored s rows ≡ true) input.scored)
        (sym (batch_ok input w h).transactions) i.stored

  -- A batch that returns splits its scored records into inserted ones and duplicates, all of them
  -- are stored afterwards, it counts every rejection, and still no provider and transaction id comes
  -- twice in the table, in which none did before.
  pub persist_batch_complete :
      (input : PersistBatchInput js) (w : World js) (r : BatchPersistResult)
      → Distinct w.tables.transactions
      → (persist_batch input w).0 ≡ ok r
      → let after = (persist_batch input w).1.tables.transactions in
        (r.inserted_count + r.duplicate_count ≡ length input.scored)
        × (r.rejected_count ≡ length input.rejected)
        × All (λ (s : ScoredTransaction js). is_stored s after ≡ true) input.scored
        × Distinct after
  persist_batch_complete input w r d h =
      let p = batch_ok input w h in
      let i = insert_new-Inserted input.import_id input.scored w.tables.transactions in
      (
        omega (arith, p.inserted, p.duplicates, i.bounded),
        p.rejected,
        All-stored input w h,
        subst Distinct (sym p.transactions) (i.distinct d),
      )

  -- A batch that has returned inserts nothing when it is sent again, in any later state that still
  -- has the same transactions: all its scored records count as duplicates.
  pub persist_batch-replay :
      (input : PersistBatchInput js) (w v : World js) (r s : BatchPersistResult)
      → (persist_batch input w).0 ≡ ok r
      → v.tables.transactions ≡ (persist_batch input w).1.tables.transactions
      → (persist_batch input v).0 ≡ ok s
      → ((persist_batch input v).1.tables.transactions ≡ v.tables.transactions)
        × (s.inserted_count ≡ 0)
        × (s.duplicate_count ≡ length input.scored)
  persist_batch-replay input w v r s h same k =
      let p = batch_ok input v k in
      let stored = All-stored input w h in
      let nothing = insert_new-stored input.import_id input.scored v.tables.transactions (
        subst (λ rows. All (λ (s : ScoredTransaction js). is_stored s rows ≡ true) input.scored)
          (sym same) stored) in
      let none_new : s.inserted_count ≡ 0 =
        p.inserted ∙ ap (λ (z : ℕ × List (TransactionRow js)). z.0) nothing in
      (
        p.transactions ∙ ap (λ (z : ℕ × List (TransactionRow js)). z.1) nothing,
        none_new,
        omega (arith, p.duplicates, none_new),
      )

  -- The counters of an import agree with the stored rows.
  unfoldable pub Balanced : Tables js → ImportRow → Type 0
  Balanced t r =
      (r.accepted_count ≡ count_where (of_import r.id) t.transactions)
      × (r.rejected_count ≡ count_where (rejection_of r.id) t.rejections)
      × (r.processed_count ≡ r.accepted_count + r.duplicate_count + r.rejected_count)

  Balanced-rows :
      (t after : Tables js) (p : ImportRow → Bool) (f : ImportRow → ImportRow) (rs : List ImportRow)
      → ((r : ImportRow) → Balanced t r → Balanced after (if p r then f r else r))
      → All (Balanced t) rs
      → All (Balanced after) (update_where p f rs)
  unfolding update_where
  Balanced-rows t after p f [] h b = tt
  Balanced-rows t after p f (r ∷ rs) h b = (h r b.0, Balanced-rows t after p f rs h b.1)

  Balanced-row :
      (input : PersistBatchInput js) (t after : Tables js) (s : BatchPersistResult) (now : ℕ)
      (r : ImportRow)
      → input.processed_delta ≡ length input.scored + length input.rejected
      → Persisted input t s after
      → Balanced t r
      → Balanced after (
          if has_id input.import_id r
          then count_batch s.inserted_count s.duplicate_count s.rejected_count input.processed_delta
              now r
          else r)
  unfolding Balanced count_batch
  Balanced-row input t after s now r d p b =
      let i = insert_new-Inserted input.import_id input.scored t.transactions in
      let (uuid, drawn, started, e) = p.rejections in
      let stored : count_where (of_import r.id) after.transactions
          ≡ count_where (of_import r.id) t.transactions
            + (if input.import_id == r.id then s.inserted_count else 0) =
        ap (count_where (of_import r.id)) p.transactions ∙ rw p.inserted (i.counted r.id) in
      let rejected : count_where (rejection_of r.id) after.rejections
          ≡ count_where (rejection_of r.id) t.rejections
            + (if input.import_id == r.id then length input.rejected else 0) =
        ap (count_where (rejection_of r.id)) e
        ∙ count_where-append (rejection_of r.id) t.rejections _
        ∙ ap (λ n. count_where (rejection_of r.id) t.rejections + n)
            (count_where-number_rejections input.import_id uuid drawn started r.id
              input.rejected) in
      ground (arith, stored, rejected, d, p.inserted, p.duplicates, p.rejected, i.bounded, b)

  -- Where the caller gives the number of records of the batch, valid and rejected, as the processed
  -- ones, and the accounts of all imports are balanced before, they are balanced afterwards, whatever
  -- the connection does: the accepted counter is the number of stored transactions of the import, the
  -- rejected counter that of its stored rejections, and the processed counter is the sum of accepted,
  -- duplicate and rejected.
  pub persist_batch-Balanced :
      (input : PersistBatchInput js) (w : World js)
      → input.processed_delta ≡ length input.scored + length input.rejected
      → All (Balanced w.tables) w.tables.imports
      → All (Balanced (persist_batch input w).1.tables) (persist_batch input w).1.tables.imports
  persist_batch-Balanced input w d b = elim (persist_batch-atomic input w) [
    | inl same ↦ subst (λ (t : Tables js). All (Balanced t) t.imports) (sym same) b
    | inr (s, p) ↦
        let (now, e) = p.imports in
        let after = (persist_batch input w).1.tables in
        subst (All (Balanced after)) (sym e) (
          Balanced-rows w.tables after (has_id input.import_id) _ w.tables.imports
            (λ r. Balanced-row input w.tables after s now r d p) b)
  ]
