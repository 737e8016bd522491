-- ===== src/Database/ImportSummary/Totals.antt =====
-- The summary against the stored rows and against the counters of the import.
use high_throughput_transact.Base.{
  ℕ, ◌+◌, ◌≤◌, ◌≡◌, refl, sym, ap, ◌∙◌, subst, ◌↔◌, Bool, true, false, ◌||◌, some, List, [], ◌∷◌,
  map, arith, if◌then◌else◌, length, length-take-le, length-map, Result, ok, All, ==_iff,
}
use high_throughput_transact.Js.{Js}
use high_throughput_transact.Js.Strings.{Text, text_eq}
use high_throughput_transact.Js.Strings.Laws.{text_eq_iff}
use high_throughput_transact.Domain.Errors.{Thrown}
use high_throughput_transact.Database.Table.{count_where, All-find_where, find_where-holds}
use high_throughput_transact.Database.World.{
  ImportRow, TransactionRow, RiskLevel, Tables, World, statement,
}
use high_throughput_transact.Database.World.Contracts.{
  Ensures, Ensures-pure, Ensures-statement, Ensures-bind, Ensures-wrapped,
}
use high_throughput_transact.Database.ImportRepository.{find_import}
use high_throughput_transact.Database.TransactionRepository.Batches.{Balanced}
use high_throughput_transact.Database.TransactionRepository.Statements.{rejection_of}
use high_throughput_transact.Database.ImportSummary.{
  Aggregates, CurrencyBreakdown, RiskBreakdown, ImportSummary, Group, group_by, currency_of,
  level_of, same_level, of_import, import_totals, currency_groups, merchant_groups, level_groups,
  summarise, rows_of_import, get_summary, top_merchants_limit,
}
use high_throughput_transact.Database.ImportSummary.Groups.{
  length-keep, tally, has_key, Unrepeated, Unrepeated-sort_by, Unrepeated-group_by, tally-sort_by,
  tally-group_by, total-group_by,
}

same_level_iff : (a b : RiskLevel) → (same_level a b ≡ true) ↔ (a ≡ b)
same_level_iff a b = ground arith

-- What a breakdown says of a currency, and of all.
pub count_of : {js : Js} → Text → List (CurrencyBreakdown js) → ℕ
count_of c [] = 0
count_of c (b ∷ bs) = (if text_eq b.currency c then b.count else 0) + count_of c bs

abbrev listed : {js : Js} → Text → List (CurrencyBreakdown js) → Bool
listed c [] = false
listed c (b ∷ bs) = text_eq b.currency c || listed c bs

-- No currency has two lines.
abbrev pub Once : {js : Js} → List (CurrencyBreakdown js) → Type 0
Once [] = Unit {0}
Once (b ∷ bs) = (listed b.currency bs ≡ false) × Once bs

pub sum_currencies : {js : Js} → List (CurrencyBreakdown js) → ℕ
sum_currencies [] = 0
sum_currencies (b ∷ bs) = b.count + sum_currencies bs

pub sum_levels : List RiskBreakdown → ℕ
sum_levels [] = 0
sum_levels (b ∷ bs) = b.count + sum_levels bs

ok_injective : {A : Type 0} {a b : A} → (let x : Result Thrown A = ok a in x ≡ ok b) → a ≡ b
ok_injective e = cc

module _ {js : Js} (db : Aggregates js) where
  -- The transactions of the import that the n-th query sees.
  abbrev pub seen_rows : ℕ → Tables js → ℕ → List (TransactionRow js)
  seen_rows import_id t n = rows_of_import import_id (db.seen n t)

  -- The summary of what the five queries see.
  abbrev summary_of : ℕ → Tables js → ImportSummary js
  summary_of import_id t =
      let rows = seen_rows import_id t in
      summarise db import_id (find_import import_id (db.seen 0 t).imports) (rows 1)
        (currency_groups db (rows 2)) (level_groups (rows 3)) (merchant_groups (rows 4))

  read-Ensures :
      {A : Type 0} (t : Tables js) (f : Tables js → A)
      → Ensures (λ u. u ≡ t) (statement (λ (u : Tables js). (ok (f u), u))) (λ a. a ≡ f t)
  read-Ensures t f = Ensures-statement _ _ (λ u i. i) (λ u i a e. ok_injective (sym e) ∙ ap f i)

  -- `getSummary` reads and writes nothing.
  get_summary-Ensures :
      (import_id : ℕ) (t : Tables js)
      → Ensures (λ u. u ≡ t) (get_summary db import_id) (λ s. s ≡ summary_of import_id t)
  unfolding get_summary
  get_summary-Ensures import_id t =
      let rows = seen_rows import_id t in
      Ensures-wrapped _ _ _ (
        Ensures-bind _ _ (λ a. a ≡ find_import import_id (db.seen 0 t).imports) _ (read-Ensures t _)
          λ found h.
            Ensures-bind _ _ (λ a. a ≡ rows 1) _ (read-Ensures t _)
              λ a ha.
                Ensures-bind _ _ (λ b. b ≡ currency_groups db (rows 2)) _ (read-Ensures t _)
                  λ b hb.
                    Ensures-bind _ _ (λ c. c ≡ level_groups (rows 3)) _ (read-Ensures t _)
                      λ c hc.
                        Ensures-bind _ _ (λ d. d ≡ merchant_groups (rows 4)) _ (read-Ensures t _)
                          λ d hd. Ensures-pure _ _ (rw (h, ha, hb, hc, hd)))

  abbrev currency_lines : List (Group Text (TransactionRow js)) → List (CurrencyBreakdown js)
  currency_lines = map λ g. record {
    currency = g.key;
    count = length g.rows;
    total_amount = db.sum (map (λ (r : TransactionRow js). r.scored.transaction.amount) g.rows);
  }

  count_of-lines :
      (c : Text) (gs : List (Group Text (TransactionRow js)))
      → count_of c (currency_lines gs) ≡ tally (λ g. text_eq g.key c) gs
  unfolding count_of tally
  count_of-lines c [] = refl
  count_of-lines c (g ∷ gs) = ground (arith, count_of-lines c gs)

  listed-lines :
      (c : Text) (gs : List (Group Text (TransactionRow js)))
      → listed c (currency_lines gs) ≡ has_key text_eq c gs
  unfolding has_key
  listed-lines c [] = refl
  listed-lines c (g ∷ gs) = ap (λ b. text_eq g.key c || b) (listed-lines c gs)

  lines-Once :
      (gs : List (Group Text (TransactionRow js)))
      → Unrepeated text_eq gs
      → Once (currency_lines gs)
  lines-Once [] u = tt
  lines-Once (g ∷ gs) u = (listed-lines g.key gs ∙ u.0, lines-Once gs u.1)

  sum_currencies-lines :
      (gs : List (Group Text (TransactionRow js)))
      → sum_currencies (currency_lines gs) ≡ tally (λ g. true) gs
  unfolding sum_currencies tally
  sum_currencies-lines [] = refl
  sum_currencies-lines (g ∷ gs) = ground (arith, sum_currencies-lines gs)

  sum_levels-lines :
      (gs : List (Group RiskLevel (TransactionRow js)))
      → sum_levels (map (λ g. record { risk_level = g.key; count = length g.rows }) gs)
        ≡ tally (λ g. true) gs
  unfolding sum_levels tally
  sum_levels-lines [] = refl
  sum_levels-lines (g ∷ gs) = ground (arith, sum_levels-lines gs)

  -- Transactions of an import in a currency.
  abbrev pub in_currency : Text → TransactionRow js → Bool
  in_currency c r = text_eq (currency_of r) c

  -- A summary agrees with what its queries saw of the tables `t`.
  pub record AddsUp (import_id : ℕ) (c : Text) (t : Tables js) (s : ImportSummary js) : Type 0 where
    pub accepted : s.totals.accepted ≡ count_where (of_import import_id) (db.seen 0 t).transactions
    pub rejected : s.totals.rejected ≡ count_where (rejection_of import_id) (db.seen 0 t).rejections
    pub total : s.total_transactions ≡ count_where (of_import import_id) (db.seen 1 t).transactions
    pub by_currency :
        count_of c s.by_currency ≡ count_where (in_currency c) (seen_rows import_id t 2)
    pub once : Once s.by_currency
    pub currencies :
        sum_currencies s.by_currency ≡ count_where (of_import import_id) (db.seen 2 t).transactions
    pub levels :
        sum_levels s.by_risk_level ≡ count_where (of_import import_id) (db.seen 3 t).transactions
    pub top : length s.top_merchants ≤ top_merchants_limit

  summary_of-AddsUp :
      (import_id : ℕ) (c : Text) (t : Tables js) (r : ImportRow)
      → let first = db.seen 0 t in
        All (Balanced first) first.imports
        → find_import import_id first.imports ≡ some r
        → AddsUp import_id c t (summary_of import_id t)
  unfolding summarise currency_groups level_groups merchant_groups import_totals Balanced
  summary_of-AddsUp import_id c t r b found =
      let first = db.seen 0 t in
      let grouped = group_by text_eq currency_of (seen_rows import_id t 2) in
      let counted = λ (n : ℕ). length-keep (of_import import_id) (db.seen n t).transactions in
      let (accepted, rejected, p) : Balanced first r =
        All-find_where (Balanced first) _ first.imports b found in
      let same_id : r.id ≡ import_id =
        (==_iff r.id import_id).0 (find_where-holds _ first.imports found) in
      record {
        accepted =
            rw found (accepted ∙ ap (λ n. count_where (of_import n) first.transactions) same_id);
        rejected =
            rw found (rejected ∙ ap (λ n. count_where (rejection_of n) first.rejections) same_id);
        total = counted 1;
        by_currency =
            count_of-lines c _
            ∙ tally-sort_by _ _ grouped
            ∙ tally-group_by text_eq text_eq_iff currency_of c (seen_rows import_id t 2);
        once = lines-Once _ (
            Unrepeated-sort_by text_eq text_eq_iff currency_of _ grouped
              (Unrepeated-group_by text_eq text_eq_iff currency_of (seen_rows import_id t 2)));
        currencies =
            sum_currencies-lines _
            ∙ tally-sort_by _ _ grouped
            ∙ total-group_by text_eq text_eq_iff currency_of (seen_rows import_id t 2)
            ∙ counted 2;
        levels =
            sum_levels-lines _
            ∙ total-group_by same_level same_level_iff level_of (seen_rows import_id t 3)
            ∙ counted 3;
        top = rw (length-map _ _) (length-take-le top_merchants_limit _);
      }

  -- Each of the five queries of a summary may see a committed state of its own. Where the one that
  -- reads the import sees it stored, and the counters of the imports balanced, a summary that is
  -- returned has as accepted and rejected counters the numbers of the import's transactions and
  -- rejections in that state; its total is the number of the import's transactions that the second
  -- query sees; by currency it counts, in one line per currency, those that the third sees, and they
  -- sum up to their number; its counts by risk level sum up to the number that the fourth sees; and
  -- it names at most ten merchants. Nothing is written.
  pub get_summary-AddsUp :
      (import_id : ℕ) (c : Text) (w : World js) {r : ImportRow} {s : ImportSummary js}
      → let first = db.seen 0 w.tables in
        All (Balanced first) first.imports
        → find_import import_id first.imports ≡ some r
        → (get_summary db import_id w).0 ≡ ok s
        → AddsUp import_id c w.tables s × ((get_summary db import_id w).1.tables ≡ w.tables)
  get_summary-AddsUp import_id c w {r} {s} b found h =
      let k = get_summary-Ensures import_id w.tables in
      (
        subst (AddsUp import_id c w.tables) (sym (k.returns w refl s h))
            (summary_of-AddsUp import_id c w.tables r b found),
        k.keeps w refl,
      )
