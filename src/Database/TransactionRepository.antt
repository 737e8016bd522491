-- ===== src/Database/TransactionRepository.antt =====
-- src/infrastructure/repository/transaction.repository.ts: a batch of scored and rejected records is
-- stored and counted in one transaction.
pub mod Inserts
pub mod Statements
pub mod Batches
pub mod FirstWins
mod Examples
use high_throughput_transact.Base.{
  ℕ, suc, ◌+◌, ◌-◌, Bool, false, ◌&&◌, ◌||◌, none, some, List, [], ◌∷◌, ◌++◌, map, ◌==◌,
  if◌then◌else◌, length, any, keep, ok, err, pure, ◌>>=◌, ◌>>◌,
}
use high_throughput_transact.Js.{Js}
use high_throughput_transact.Js.Strings.{Text, text_eq}
use high_throughput_transact.Database.Table.{update_where, find}
use high_throughput_transact.Database.World.{
  ImportRow, ScoredTransaction, TransactionRow, RejectedRecordInput, RejectedRow, Db, Query,
  statement, transaction, wrapped, current_time, record_not_found,
}

pub record PersistBatchInput (js : Js) : Type 0 where
  pub import_id : ℕ
  pub scored : List (ScoredTransaction js)
  pub rejected : List RejectedRecordInput
  pub processed_delta : ℕ

pub record BatchPersistResult : Type 0 where
  pub inserted_count : ℕ
  pub duplicate_count : ℕ
  pub rejected_count : ℕ

-- The rows that `createMany` writes, with ids from the source.
unfoldable pub number_rejections : ℕ → (ℕ → ℕ) → ℕ → ℕ → List RejectedRecordInput → List RejectedRow
number_rejections import_id uuid drawn now [] = []
number_rejections import_id uuid drawn now (r ∷ rs) =
    record { id = uuid drawn; import_id = import_id; content = r; created_at = now }
    ∷ number_rejections import_id uuid (drawn + 1) now rs

-- The four increments on the import.
unfoldable pub count_batch :
    (inserted duplicates rejected processed now : ℕ) → ImportRow → ImportRow
count_batch inserted duplicates rejected processed now r = record r {
  processed_count = r.processed_count + processed;
  accepted_count = r.accepted_count + inserted;
  duplicate_count = r.duplicate_count + duplicates;
  rejected_count = r.rejected_count + rejected;
  updated_at = now;
}

module _ {js : Js} where
  -- The unique key `(provider, "transactionId")`.
  abbrev pub same_key : ScoredTransaction js → ScoredTransaction js → Bool
  same_key a b =
      text_eq a.transaction.provider b.transaction.provider
      && text_eq a.transaction.transaction_id b.transaction.transaction_id

  unfoldable pub is_stored : ScoredTransaction js → List (TransactionRow js) → Bool
  is_stored s [] = false
  is_stored s (r ∷ rs) = same_key s r.scored || is_stored s rs

  -- `INSERT ... ON CONFLICT (provider, "transactionId") DO NOTHING RETURNING id`: the number of
  -- rows returned, and the table.
  unfoldable pub insert_new :
      ℕ → List (ScoredTransaction js) → List (TransactionRow js) → ℕ × List (TransactionRow js)
  unfolding is_stored
  insert_new import_id [] rows = (0, rows)
  insert_new import_id (s ∷ ss) rows =
      let stored = is_stored s rows in
      let (n, out) =
        insert_new import_id ss
          (if stored then rows else rows ++ record { import_id = import_id; scored = s } ∷ []) in
      ((if stored then n else suc n), out)

  unfoldable pub insert_query : ℕ → List (ScoredTransaction js) → Query js ℕ
  unfolding insert_new
  insert_query import_id ss t =
      let (n, rows) = insert_new import_id ss t.transactions in
      (ok n, record t { transactions = rows })

  unfoldable pub insert_scored : ℕ → List (ScoredTransaction js) → Db js ℕ
  unfolding insert_query
  insert_scored import_id [] = pure 0
  insert_scored import_id (s ∷ ss) = statement (insert_query import_id (s ∷ ss))

  unfoldable pub reject_query : List RejectedRow → Query js (Unit {0})
  reject_query rows t = (ok tt, record t { rejections = t.rejections ++ rows })

  unfoldable pub insert_rejected : ℕ → List RejectedRecordInput → Db js (Unit {0})
  unfolding reject_query number_rejections
  insert_rejected import_id [] = pure tt
  insert_rejected import_id (r ∷ rs) = λ w.
      statement (reject_query (number_rejections import_id w.uuid w.drawn w.now (r ∷ rs)))
        (record w { drawn = w.drawn + length (r ∷ rs) })

  unfoldable pub count_query : ℕ → (ImportRow → ImportRow) → Query js (Unit {0})
  count_query import_id f t = elim (find (λ (r : ImportRow). r.id) import_id t.imports) [
    | none ↦ (err record_not_found, t)
    | some r ↦ (
      ok tt,
      record t { imports = update_where (λ (r : ImportRow). r.id == import_id) f t.imports },
    )
  ]

  -- The body of the transaction.
  unfoldable pub persist_rows : PersistBatchInput js → Db js BatchPersistResult
  unfolding insert_scored insert_rejected count_query count_batch
  persist_rows input = do
    now ← current_time
    inserted ← insert_scored input.import_id input.scored
    insert_rejected input.import_id input.rejected
    statement (
        count_query input.import_id (
          count_batch inserted (length input.scored - inserted) (length input.rejected)
            input.processed_delta now))
    pure (record {
      inserted_count = inserted;
      duplicate_count = length input.scored - inserted;
      rejected_count = length input.rejected;
    })

  unfoldable pub persist_batch : PersistBatchInput js → Db js BatchPersistResult
  unfolding persist_rows
  persist_batch input =
      wrapped "TransactionRepository.persistBatch" (transaction (persist_rows input))

  pub is_wanted : List (Text × Text) → TransactionRow js → Bool
  is_wanted keys r =
      any
        (λ (k : Text × Text).
          text_eq k.0 r.scored.transaction.provider
          && text_eq k.1 r.scored.transaction.transaction_id)
        keys

  fingerprint_entry : TransactionRow js → Text × Text
  fingerprint_entry r = (
    r.scored.transaction.provider ++ b':' ∷ r.scored.transaction.transaction_id,
    r.scored.fingerprint,
  )

  -- `findFingerprints`, with the entries of the map in the order in which they are set.
  pub find_fingerprints : List (Text × Text) → Db js (List (Text × Text))
  unfolding is_wanted fingerprint_entry
  find_fingerprints [] = pure []
  find_fingerprints (k ∷ keys) =
      wrapped "TransactionRepository.findFingerprints" (
        statement λ t. (ok (map fingerprint_entry (keep (is_wanted (k ∷ keys)) t.transactions)), t))
