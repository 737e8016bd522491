-- ===== src/Database/ImportSummary/Examples.antt =====
-- The summary of an import with two stored transactions.
use high_throughput_transact.Base.{
  ℕ, ◌≡◌, refl, true, none, some, ◌>>=◌, [], ◌∷◌, All, arith, ltb, if◌then◌else◌,
}
use high_throughput_transact.Js.Sample.{sample_js}
use high_throughput_transact.Database.Table.{count_where, find_where}
use high_throughput_transact.Database.World.{
  ImportRow, TransactionRow, RiskLevel, World, statement, wrapped,
}
use high_throughput_transact.Database.Sample.{busy, an_import}
use high_throughput_transact.Database.TransactionRepository.Batches.{Balanced}
use high_throughput_transact.Database.ImportSummary.{
  Aggregates, ImportSummary, get_summary, currency_groups, level_groups, merchant_groups, summarise,
  rows_of_import,
}
use high_throughput_transact.Database.ImportSummary.Totals.{AddsUp, get_summary-AddsUp}

abbrev stored : ℕ → TransactionRow sample_js
stored unit = record {
  import_id = 1;
  scored = record {
    transaction = record {
      provider = [];
      transaction_id = unit ∷ [];
      account_id = [];
      merchant_id = [];
      amount = 5;
      currency = unit ∷ [];
      timestamp = 0;
      description = none;
    };
    fingerprint = [];
    risk_score = 3;
    risk_level = RiskLevel.low;
  };
}

-- The last three queries run after another client has stored one more transaction.
abbrev aggregates : Aggregates sample_js
aggregates = record {
  sum = λ ns. 0;
  earliest = λ ts. none;
  latest = λ ts. none;
  text_le = λ a b. true;
  seen = λ n t. if ltb n 2 then t else record t { transactions = stored 67 ∷ t.transactions };
}

abbrev counted : ImportRow
counted = record an_import { accepted_count = 2; processed_count = 2 }

abbrev two_stored : World sample_js
two_stored = record busy {
  tables = record (busy.tables) {
    imports = counted ∷ [];
    transactions = stored 65 ∷ stored 66 ∷ [];
  };
}

two_stored-Balanced : All (Balanced two_stored.tables) two_stored.tables.imports
unfolding Balanced count_where
two_stored-Balanced = omega arith

abbrev the_summary : ImportSummary sample_js
the_summary =
    let rows = rows_of_import 1 two_stored.tables in
    let later = stored 67 ∷ rows in
    summarise aggregates 1 (some counted) rows (currency_groups aggregates later)
      (level_groups later) (merchant_groups later)

get_summary-AddsUp_example :
    AddsUp aggregates 1 (65 ∷ []) two_stored.tables the_summary
    × ((get_summary aggregates 1 two_stored).1.tables ≡ two_stored.tables)
unfolding get_summary wrapped statement find_where ◌>>=◌
get_summary-AddsUp_example =
    get_summary-AddsUp aggregates 1 (65 ∷ []) two_stored two_stored-Balanced refl refl
