-- ===== src/Database/TransactionRepository/Statements.antt =====
-- What the four statements of `persistBatch` of src/infrastructure/repository/transaction.repository.ts
-- leave in the tables where they return.
use high_throughput_transact.Base.{
  ℕ, ◌+◌, ◌-◌, ◌≡◌, refl, sym, ap, ◌∙◌, subst, inl, inr, Bool, List, [], ◌∷◌, ◌++◌, ◌==◌,
  Option-cases, length, Result, ok,
}
use mathlib.Core.List.{append-nil}
use high_throughput_transact.Js.{Js}
use high_throughput_transact.Domain.Errors.{Thrown}
use high_throughput_transact.Database.Table.{update_where, find}
use high_throughput_transact.Database.World.{
  ImportRow, ScoredTransaction, RejectedRecordInput, RejectedRow, Tables, World, statement,
  current_time,
}
use high_throughput_transact.Database.World.Atomicity.{statement-ok, bind-ok}
use high_throughput_transact.Database.TransactionRepository.{
  PersistBatchInput, BatchPersistResult, number_rejections, count_batch, insert_new, insert_query,
  insert_scored, reject_query, insert_rejected, count_query, persist_rows,
}

abbrev pub has_id : ℕ → ImportRow → Bool
has_id id r = r.id == id

abbrev pub rejection_of : ℕ → RejectedRow → Bool
rejection_of k r = r.import_id == k

module _ {js : Js} where
  insert_scored-ok :
      (import_id : ℕ) (ss : List (ScoredTransaction js)) (w : World js) {n : ℕ}
      → (insert_scored import_id ss w).0 ≡ ok n
      → let p = insert_new import_id ss w.tables.transactions in
        (n ≡ p.0)
        × ((insert_scored import_id ss w).1.tables ≡ record (w.tables) { transactions = p.1 })
  unfolding insert_scored insert_query insert_new
  insert_scored-ok import_id [] w h = (cc, refl)
  insert_scored-ok import_id (s ∷ ss) w h =
      let e = statement-ok (insert_query import_id (s ∷ ss)) w h in (cc, cc)

  insert_rejected-ok :
      (import_id : ℕ) (rs : List RejectedRecordInput) (w : World js) {u : Unit {0}}
      → (insert_rejected import_id rs w).0 ≡ ok u
      → (insert_rejected import_id rs w).1.tables ≡ record (w.tables) {
        rejections = w.tables.rejections ++ number_rejections import_id w.uuid w.drawn w.now rs;
      }
  unfolding insert_rejected reject_query number_rejections
  insert_rejected-ok import_id [] w h =
      ap (λ z. record (w.tables) { rejections = z }) (sym (append-nil w.tables.rejections))
  insert_rejected-ok import_id (r ∷ rs) w h =
      let e =
        statement-ok (reject_query (number_rejections import_id w.uuid w.drawn w.now (r ∷ rs)))
          (record w { drawn = w.drawn + length (r ∷ rs) }) h in
      sym (ap (λ (p : Result Thrown (Unit {0}) × Tables js). p.1) e)

  count_query-ok :
      (import_id : ℕ) (f : ImportRow → ImportRow) (w : World js) {u : Unit {0}}
      → (statement (count_query import_id f) w).0 ≡ ok u
      → (statement (count_query import_id f) w).1.tables
        ≡ record (w.tables) { imports = update_where (has_id import_id) f w.tables.imports }
  unfolding count_query
  count_query-ok import_id f w h =
      let e = statement-ok (count_query import_id f) w h in
      elim (Option-cases (find (λ (r : ImportRow). r.id) import_id w.tables.imports)) [
        | inl n ↦ let x = rw (n, count_query) at e in cc
        | inr (r, s) ↦ let x = rw (s, count_query) at e in cc
      ]

  -- What a batch leaves that is carried out on the tables `t`.
  pub record Persisted (input : PersistBatchInput js) (t : Tables js) (r : BatchPersistResult)
      (after : Tables js) : Type 0 where
    pub inserted : r.inserted_count ≡ (insert_new input.import_id input.scored t.transactions).0
    pub duplicates : r.duplicate_count ≡ length input.scored - r.inserted_count
    pub rejected : r.rejected_count ≡ length input.rejected
    pub transactions :
        after.transactions ≡ (insert_new input.import_id input.scored t.transactions).1
    pub rejections :
        (uuid : ℕ → ℕ) × (drawn : ℕ) × (now : ℕ) × (after.rejections
          ≡ t.rejections ++ number_rejections input.import_id uuid drawn now input.rejected)
    pub imports :
        (now : ℕ) × (after.imports
          ≡ update_where
              (has_id input.import_id)
              (count_batch r.inserted_count r.duplicate_count r.rejected_count input.processed_delta
                now)
              t.imports)
    pub jobs : after.jobs ≡ t.jobs

  abbrev result_of : PersistBatchInput js → ℕ → BatchPersistResult
  result_of input n = record {
    inserted_count = n;
    duplicate_count = length input.scored - n;
    rejected_count = length input.rejected;
  }

  three_statements :
      (input : PersistBatchInput js) (uuid : ℕ → ℕ) (drawn started now n : ℕ)
      (t t1 t2 t3 : Tables js)
      → let p = insert_new input.import_id input.scored t.transactions in
        n ≡ p.0
        → t1 ≡ record t { transactions = p.1 }
        → t2 ≡ record t1 {
          rejections =
              t1.rejections ++ number_rejections input.import_id uuid drawn started input.rejected;
        }
        → t3 ≡ record t2 {
          imports =
              update_where
                (has_id input.import_id)
                (count_batch n
                  (length input.scored - n)
                  (length input.rejected)
                  input.processed_delta
                  now)
                t2.imports;
        }
        → Persisted input t (result_of input n) t3
  three_statements input uuid drawn started now n t t1 t2 t3 e e1 e2 e3 = record {
    inserted = e;
    duplicates = refl;
    rejected = refl;
    transactions = cc;
    rejections = (uuid, drawn, started, cc);
    imports = (now, cc);
    jobs = cc;
  }

  pub persist_rows-Persisted :
      (input : PersistBatchInput js) (w : World js) {r : BatchPersistResult}
      → (persist_rows input w).0 ≡ ok r
      → Persisted input w.tables r (persist_rows input w).1.tables
  unfolding persist_rows
  persist_rows-Persisted input w {r} h =
      let (now, h0, k0, e0) = bind-ok current_time _ w h in
      let (n, h1, k1, e1) = bind-ok (insert_scored input.import_id input.scored) _ w k0 in
      let w1 = (insert_scored input.import_id input.scored w).1 in
      let (u, h2, k2, e2) = bind-ok (insert_rejected input.import_id input.rejected) _ w1 k1 in
      let w2 = (insert_rejected input.import_id input.rejected w1).1 in
      let count =
        count_batch n (length input.scored - n) (length input.rejected) input.processed_delta now in
      let (v, h3, k3, e3) = bind-ok (statement (count_query input.import_id count)) _ w2 k2 in
      let (i1, t1) = insert_scored-ok input.import_id input.scored w h1 in
      let t2 = insert_rejected-ok input.import_id input.rejected w1 h2 in
      let t3 = count_query-ok input.import_id count w2 h3 in
      let t =
        ap (λ (z : Result Thrown BatchPersistResult × World js). z.1.tables) (e0 ∙ e1 ∙ e2 ∙ e3) in
      let same : result_of input n ≡ r = cc in
      subst (λ r. Persisted input w.tables r (persist_rows input w).1.tables) same
        (three_statements input w1.uuid w1.drawn w1.now now n w.tables w1.tables w2.tables
          (persist_rows input w).1.tables i1 t1 t2 (t ∙ t3))
