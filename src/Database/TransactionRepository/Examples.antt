-- ===== src/Database/TransactionRepository/Examples.antt =====
-- A batch of two equal records and a rejection.
use high_throughput_transact.Base.{length, ◌≢◌}
use high_throughput_transact.Js.Strings.{Text}
use high_throughput_transact.Database.TransactionRepository.FirstWins.{
  view, register, persist_batch-refines,
}
use high_throughput_transact.Base.{◌+◌, ◌≡◌, refl, ◌⊎◌, true, none, [], ◌∷◌, All, ok, ◌>>=◌}
use high_throughput_transact.Js.Sample.{sample_js}
use high_throughput_transact.Domain.ParseLine.{invalid_json}
use high_throughput_transact.Database.World.{
  low, ScoredTransaction, line_error, World, answered, lost,
}
use high_throughput_transact.Domain.Errors.{plain}
use high_throughput_transact.Database.TransactionRepository.{
  PersistBatchInput, BatchPersistResult, persist_batch, is_stored,
}
use high_throughput_transact.Database.TransactionRepository.Inserts.{Distinct}
use high_throughput_transact.Database.TransactionRepository.Statements.{Persisted}
use high_throughput_transact.Database.TransactionRepository.Batches.{
  Balanced, persist_batch-atomic, persist_batch_complete, persist_batch-replay,
  persist_batch-Balanced,
}
use high_throughput_transact.Database.Sample.{busy}
use high_throughput_transact.Database.Table.{find_where, update_where, count_where}
use high_throughput_transact.Database.World.{
  deliver, statement, wrapped, transaction, conclude, commit,
}
use high_throughput_transact.Database.TransactionRepository.{
  number_rejections, count_batch, insert_new, insert_query, insert_scored, reject_query,
  insert_rejected, count_query, persist_rows,
}

abbrev payment : ScoredTransaction sample_js
payment = record {
  transaction = record {
    provider = 112 ∷ [];
    transaction_id = 49 ∷ [];
    account_id = 97 ∷ [];
    merchant_id = 109 ∷ [];
    amount = 5;
    currency = 85 ∷ 83 ∷ 68 ∷ [];
    timestamp = 7;
    description = none;
  };
  fingerprint = 102 ∷ [];
  risk_score = 10;
  risk_level = low;
}

abbrev batch : PersistBatchInput sample_js
batch = record {
  import_id = 1;
  scored = payment ∷ payment ∷ [];
  rejected =
      record {
        line_number = 3;
        error_code = line_error invalid_json;
        message = "Unexpected token";
        raw_value_truncated = 120 ∷ [];
      }
      ∷ [];
  processed_delta = 3;
}

abbrev first : BatchPersistResult
first = record { inserted_count = 1; duplicate_count = 1; rejected_count = 1 }

abbrev again : BatchPersistResult
again = record { inserted_count = 0; duplicate_count = 2; rejected_count = 1 }

busy-persist : (persist_batch batch busy).0 ≡ ok first
unfolding persist_batch persist_rows insert_scored insert_query insert_new is_stored insert_rejected
    reject_query number_rejections count_query count_batch find_where deliver statement wrapped
    transaction conclude commit ◌>>=◌
busy-persist = refl

busy-persist_again : (persist_batch batch (persist_batch batch busy).1).0 ≡ ok again
unfolding persist_batch persist_rows insert_scored insert_query insert_new is_stored insert_rejected
    reject_query number_rejections count_query count_batch find_where update_where deliver statement
    wrapped transaction conclude commit ◌>>=◌
busy-persist_again = refl

persist_batch_complete_example :
    let after = (persist_batch batch busy).1.tables.transactions in
    (first.inserted_count + first.duplicate_count ≡ length batch.scored)
    × (first.rejected_count ≡ length batch.rejected)
    × All (λ (s : ScoredTransaction sample_js). is_stored s after ≡ true) batch.scored
    × Distinct after
persist_batch_complete_example = persist_batch_complete batch busy first tt busy-persist

persist_batch-replay_example :
    let v = (persist_batch batch busy).1 in
    ((persist_batch batch v).1.tables.transactions ≡ v.tables.transactions)
    × (again.inserted_count ≡ 0)
    × (again.duplicate_count ≡ length batch.scored)
persist_batch-replay_example =
    persist_batch-replay batch busy (persist_batch batch busy).1 first again busy-persist refl
      busy-persist_again

abbrev shaky : World sample_js
shaky = record busy { replies = answered ∷ answered ∷ answered ∷ lost plain ∷ [] }

persist_batch-atomic_example :
    ((persist_batch batch shaky).1.tables ≡ shaky.tables)
    ⊎ ((r : BatchPersistResult) × Persisted batch shaky.tables r
          (persist_batch batch shaky).1.tables)
persist_batch-atomic_example = persist_batch-atomic batch shaky

shaky-Balanced : All (Balanced shaky.tables) shaky.tables.imports
unfolding Balanced count_where
shaky-Balanced = ((refl, refl, refl), tt)

persist_batch-Balanced_example :
    All (Balanced (persist_batch batch shaky).1.tables) (persist_batch batch shaky).1.tables.imports
persist_batch-Balanced_example = persist_batch-Balanced batch shaky refl shaky-Balanced

persist_batch-refines_example :
    let before = view shaky.tables.transactions in
    let (result, after) = persist_batch batch shaky in
    (((provider id : Text) → view after.tables.transactions provider id ≡ before provider id)
      × ((r : BatchPersistResult) → result ≢ ok r))
    ⊎ ((provider id : Text)
        → view after.tables.transactions provider id ≡ register batch.scored before provider id)
persist_batch-refines_example = persist_batch-refines batch shaky
