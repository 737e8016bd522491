-- ===== src/Database/ImportSummary.antt =====
-- `getSummary` of src/infrastructure/repository/import-query.ts. GROUP BY makes one group for each key that
-- occurs; sums, extremes and the order of texts are PostgreSQL's.
pub mod Groups
pub mod Totals
mod Examples
use high_throughput_transact.Base.{
  ℕ, Bool, true, false, Option, none, some, List, [], ◌∷◌, map, leb, ◌==◌, if◌then◌else◌, length,
  take, keep, ok, pure, ◌>>=◌,
}
use high_throughput_transact.Js.{Js}
use high_throughput_transact.Js.Strings.{Text, text_eq}
use high_throughput_transact.Database.World.{
  ImportRow, TransactionRow, RiskLevel, Tables, Db, statement, wrapped,
}
use high_throughput_transact.Database.ImportRepository.{find_import}

-- `sum` is of `amount` in decimal, as a number; zero where there is no row. `seen n` are the tables
-- that the n-th of the five queries reads: they run at the same time and outside a transaction, so
-- each may see a different committed state.
pub record Aggregates (js : Js) : Type 0 where
  pub sum : List js.Number → js.Number
  pub earliest : List js.Time → Option js.Time
  pub latest : List js.Time → Option js.Time
  pub text_le : Text → Text → Bool
  pub seen : ℕ → Tables js → Tables js

pub record TotalSummary : Type 0 where
  pub accepted : ℕ
  pub rejected : ℕ
  pub duplicated : ℕ

pub record CurrencyBreakdown (js : Js) : Type 0 where
  pub currency : Text
  pub count : ℕ
  pub total_amount : js.Number

pub record RiskBreakdown : Type 0 where
  pub risk_level : RiskLevel
  pub count : ℕ

pub record MerchantBreakdown (js : Js) : Type 0 where
  pub merchant_id : Text
  pub count : ℕ
  pub total_amount : js.Number

pub record ImportSummary (js : Js) : Type 0 where
  pub import_id : ℕ
  pub total_transactions : ℕ
  pub total_amount : js.Number
  pub earliest_transaction : Option js.Time
  pub latest_transaction : Option js.Time
  pub totals : TotalSummary
  pub by_currency : List (CurrencyBreakdown js)
  pub by_risk_level : List RiskBreakdown
  pub top_merchants : List (MerchantBreakdown js)

pub record Group (K R : Type 0) : Type 0 where
  pub key : K
  pub rows : List R

module _ {K R : Type 0} (same : K → K → Bool) (key_of : R → K) where
  unfoldable pub add_to_group : R → List (Group K R) → List (Group K R)
  add_to_group r [] = record { key = key_of r; rows = r ∷ [] } ∷ []
  add_to_group r (g ∷ gs) =
      if same g.key (key_of r) then record g { rows = r ∷ g.rows } ∷ gs else g ∷ add_to_group r gs

  unfoldable pub group_by : List R → List (Group K R)
  unfolding add_to_group
  group_by [] = []
  group_by (r ∷ rs) = add_to_group r (group_by rs)

-- `ORDER BY`
module _ {A : Type 0} (before : A → A → Bool) where
  unfoldable pub insert_by : A → List A → List A
  insert_by x [] = x ∷ []
  insert_by x (y ∷ ys) = if before x y then x ∷ y ∷ ys else y ∷ insert_by x ys

  unfoldable pub sort_by : List A → List A
  unfolding insert_by
  sort_by [] = []
  sort_by (x ∷ xs) = insert_by x (sort_by xs)

abbrev pub same_level : RiskLevel → RiskLevel → Bool
same_level RiskLevel.low b = elim b [ RiskLevel.low ↦ true | _ ↦ false ]
same_level RiskLevel.medium b = elim b [ RiskLevel.medium ↦ true | _ ↦ false ]
same_level RiskLevel.high b = elim b [ RiskLevel.high ↦ true | _ ↦ false ]

abbrev pub top_merchants_limit : ℕ
top_merchants_limit = 10

unfoldable pub import_totals : Option ImportRow → TotalSummary
import_totals none = record { accepted = 0; rejected = 0; duplicated = 0 }
import_totals (some r) = record {
  accepted = r.accepted_count;
  rejected = r.rejected_count;
  duplicated = r.duplicate_count;
}

module _ {js : Js} where
  abbrev pub currency_of : TransactionRow js → Text
  currency_of r = r.scored.transaction.currency

  abbrev pub merchant_of : TransactionRow js → Text
  merchant_of r = r.scored.transaction.merchant_id

  abbrev pub level_of : TransactionRow js → RiskLevel
  level_of r = r.scored.risk_level

  abbrev amounts : List (TransactionRow js) → List js.Number
  amounts = map λ (r : TransactionRow js). r.scored.transaction.amount

  abbrev timestamps : List (TransactionRow js) → List js.Time
  timestamps = map λ (r : TransactionRow js). r.scored.transaction.timestamp

  abbrev pub of_import : ℕ → TransactionRow js → Bool
  of_import import_id r = r.import_id == import_id

  -- `orderBy: { _count: { merchantId: 'desc' } }, take: TOP_MERCHANTS_LIMIT`
  unfoldable pub merchant_groups : List (TransactionRow js) → List (Group Text (TransactionRow js))
  unfolding sort_by group_by
  merchant_groups rows =
      take top_merchants_limit
        (sort_by (λ g h. leb (length h.rows) (length g.rows)) (group_by text_eq merchant_of rows))

  unfoldable pub level_groups :
      List (TransactionRow js) → List (Group RiskLevel (TransactionRow js))
  unfolding group_by
  level_groups rows = group_by same_level level_of rows

  abbrev pub rows_of_import : ℕ → Tables js → List (TransactionRow js)
  rows_of_import import_id t = keep (of_import import_id) t.transactions

module _ {js : Js} (db : Aggregates js) where
  -- `orderBy: { currency: 'asc' }`
  unfoldable pub currency_groups : List (TransactionRow js) → List (Group Text (TransactionRow js))
  unfolding sort_by group_by
  currency_groups rows = sort_by (λ g h. db.text_le g.key h.key) (group_by text_eq currency_of rows)

  -- The five queries on the tables, and what is made of their results.
  unfoldable pub summarise :
      ℕ
      → Option ImportRow
      → List (TransactionRow js)
      → List (Group Text (TransactionRow js))
      → List (Group RiskLevel (TransactionRow js))
      → List (Group Text (TransactionRow js))
      → ImportSummary js
  unfolding import_totals
  summarise import_id found rows currencies levels merchants = record {
    import_id = import_id;
    total_transactions = length rows;
    total_amount = db.sum (amounts rows);
    earliest_transaction = db.earliest (timestamps rows);
    latest_transaction = db.latest (timestamps rows);
    totals = import_totals found;
    by_currency =
        map
          (λ g. record {
            currency = g.key;
            count = length g.rows;
            total_amount = db.sum (amounts g.rows);
          })
          currencies;
    by_risk_level = map (λ g. record { risk_level = g.key; count = length g.rows }) levels;
    top_merchants =
        map
          (λ g. record {
            merchant_id = g.key;
            count = length g.rows;
            total_amount = db.sum (amounts g.rows);
          })
          merchants;
  }

  unfoldable pub get_summary : ℕ → Db js (ImportSummary js)
  unfolding summarise currency_groups level_groups merchant_groups
  get_summary import_id = wrapped "ImportQuery.getSummary" (do
    found ← statement (λ t. (ok (find_import import_id (db.seen 0 t).imports), t))
    rows ← statement (λ t. (ok (rows_of_import import_id (db.seen 1 t)), t))
    currencies ← statement (λ t. (ok (currency_groups (rows_of_import import_id (db.seen 2 t))), t))
    levels ← statement (λ t. (ok (level_groups (rows_of_import import_id (db.seen 3 t))), t))
    merchants ← statement (λ t. (ok (merchant_groups (rows_of_import import_id (db.seen 4 t))), t))
    pure (summarise import_id found rows currencies levels merchants))
