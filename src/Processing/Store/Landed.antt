-- ===== src/Processing/Store/Landed.antt =====
-- What is in the tables of the batches that `persistBatch` has acknowledged.
use high_throughput_transact.Base.{
  ℕ, ◌+◌, ◌≡◌, refl, sym, ap, ◌∙◌, subst, ◌⊎◌, inl, inr, Bool, true, ◌||◌, ◌&&◌, List, [], ◌∷◌,
  ◌++◌, map, All, All-append, All-map, any, Result, ok, err,
}
use high_throughput_transact.Js.{Js}
use high_throughput_transact.Js.Strings.{text_eq}
use high_throughput_transact.Domain.Errors.{Thrown}
use high_throughput_transact.Database.World.{
  ScoredTransaction, RejectedRecordInput, RejectedRow, TransactionRow, Tables, World,
}
use high_throughput_transact.Database.TransactionRepository.{
  PersistBatchInput, BatchPersistResult, persist_batch, is_stored, same_key, number_rejections,
}
use high_throughput_transact.Database.TransactionRepository.Inserts.{insert_new-Inserted}
use high_throughput_transact.Database.TransactionRepository.Statements.{Persisted}
use high_throughput_transact.Database.TransactionRepository.Batches.{
  persist_batch-atomic, All-stored, batch_ok,
}
use high_throughput_transact.Processing.Ports.{ScoringInput}
use high_throughput_transact.Processing.ImportFile.Steps.{strip}
use high_throughput_transact.Processing.ImportFile.Sent.{scored_of, rejected_of, Whole}
use high_throughput_transact.Processing.Store.Contracts.{AfterPersist, Sound}

-- The rejection is stored for the import.
abbrev pub HasRejection : ℕ → List RejectedRow → RejectedRecordInput → Type 0
HasRejection import_id [] r = ⊥
HasRejection import_id (row ∷ rows) r =
    ((row.import_id ≡ import_id) × (row.content ≡ r)) ⊎ HasRejection import_id rows r

HasRejection-append :
    (import_id : ℕ) (rows more : List RejectedRow) (r : RejectedRecordInput)
    → HasRejection import_id rows r ⊎ HasRejection import_id more r
    → HasRejection import_id (rows ++ more) r
HasRejection-append import_id [] more r (inl h) = absurd h
HasRejection-append import_id [] more r (inr h) = h
HasRejection-append import_id (row ∷ rows) more r (inl (inl h)) = inl h
HasRejection-append import_id (row ∷ rows) more r (inl (inr h)) =
    inr (HasRejection-append import_id rows more r (inl h))
HasRejection-append import_id (row ∷ rows) more r (inr h) =
    inr (HasRejection-append import_id rows more r (inr h))

numbered :
    (import_id : ℕ) (uuid : ℕ → ℕ) (drawn now : ℕ) (rs : List RejectedRecordInput)
    → All (HasRejection import_id (number_rejections import_id uuid drawn now rs)) rs
unfolding number_rejections
numbered import_id uuid drawn now [] = tt
numbered import_id uuid drawn now (r ∷ rs) =
    (inl (refl, refl), All-map (λ x h. inr h) rs (numbered import_id uuid (drawn + 1) now rs))

module _ {js : Js} where
  -- A row with the provider and the transaction id of a record.
  abbrev pub has_row : ScoringInput js → List (TransactionRow js) → Bool
  has_row x rows =
      any
        (λ (r : TransactionRow js).
          text_eq x.transaction.provider r.scored.transaction.provider
          && text_eq x.transaction.transaction_id r.scored.transaction.transaction_id)
        rows

  has_row-strip :
      (x : ScoredTransaction js) (rows : List (TransactionRow js))
      → has_row (strip x) rows ≡ is_stored x rows
  unfolding is_stored
  has_row-strip x [] = refl
  has_row-strip x (r ∷ rows) = ap (λ b. same_key x r.scored || b) (has_row-strip x rows)

  -- The records of a batch are in the tables.
  pub record Landed (t : Tables js) (b : PersistBatchInput js) : Type 0 where
    pub stored : All (λ (x : ScoredTransaction js). is_stored x t.transactions ≡ true) b.scored
    pub rejected : All (HasRejection b.import_id t.rejections) b.rejected

  abbrev pub AllLanded : List (PersistBatchInput js) → Tables js → Type 0
  AllLanded sent t = All (Landed t) sent

  -- `persistBatch` removes nothing.
  Landed-Persisted :
      (i b : PersistBatchInput js) (t u : Tables js) {r : BatchPersistResult}
      → Persisted i t r u
      → Landed t b
      → Landed u b
  Landed-Persisted i b t u p l =
      let (uuid, drawn, now, e) = p.rejections in
      record {
        stored =
            subst (λ rows. All (λ (x : ScoredTransaction js). is_stored x rows ≡ true) b.scored)
              (sym p.transactions)
              (All-map (insert_new-Inserted i.import_id i.scored t.transactions).kept b.scored
                l.stored);
        rejected =
            subst (λ rows. All (HasRejection b.import_id rows) b.rejected) (sym e)
              (All-map (λ x h. HasRejection-append b.import_id t.rejections _ x (inl h)) b.rejected
                l.rejected);
      }

  persist_batch-AllLanded :
      (i : PersistBatchInput js) (sent : List (PersistBatchInput js)) (w : World js)
      → AllLanded sent w.tables
      → AllLanded sent (persist_batch i w).1.tables
  persist_batch-AllLanded i sent w h = elim (persist_batch-atomic i w) [
    | inl same ↦ subst (AllLanded sent) (sym same) h
    | inr (r, p) ↦ All-map (λ b l. Landed-Persisted i b _ _ p l) sent h
  ]

  -- The batch itself, where the call returns.
  batch-Landed :
      (i : PersistBatchInput js) (w : World js) (r : BatchPersistResult)
      → (persist_batch i w).0 ≡ ok r
      → Landed (persist_batch i w).1.tables i
  batch-Landed i w r e =
      let p = batch_ok i w e in
      let (uuid, drawn, now, q) = p.rejections in
      record {
        stored = All-stored i w e;
        rejected =
            subst (λ rows. All (HasRejection i.import_id rows) i.rejected) (sym q)
              (All-map (λ x h. HasRejection-append i.import_id w.tables.rejections _ x (inr h))
                i.rejected (numbered i.import_id uuid drawn now i.rejected));
      }

  persisted :
      (sent : List (PersistBatchInput js)) (i : PersistBatchInput js)
      (x : Result Thrown BatchPersistResult × World js)
      → AllLanded sent x.1.tables
      → ((r : BatchPersistResult) → x.0 ≡ ok r → Landed x.1.tables i)
      → AfterPersist AllLanded sent i x
  persisted sent i (ok r, w) old new =
      All-append (Landed w.tables) sent (i ∷ []) old (new r refl, tt)
  persisted sent i (err e, w) old new = old

  pub AllLanded-Sound : Sound AllLanded
  AllLanded-Sound = record {
    settled = λ sent. record {
      jobs =
          λ t rows h. All-map (λ b l. record { stored = l.stored; rejected = l.rejected }) sent h;
      imports = λ t p f same h.
          All-map (λ b l. record { stored = l.stored; rejected = l.rejected }) sent h;
    };
    persists = λ sent i w d h.
        persisted sent i (persist_batch i w) (persist_batch-AllLanded i sent w h)
          (batch-Landed i w);
  }

  pub landed_scores :
      (sent : List (PersistBatchInput js)) (t : Tables js)
      → AllLanded sent t
      → All (λ (x : ScoringInput js). has_row x t.transactions ≡ true) (scored_of sent)
  landed_scores [] t h = tt
  landed_scores (b ∷ sent) t h =
      All-append (λ (x : ScoringInput js). has_row x t.transactions ≡ true) (map strip b.scored)
        (scored_of sent) (stripped b.scored (h.0).stored) (landed_scores sent t h.1)
    where
      stripped :
          (xs : List (ScoredTransaction js))
          → All (λ (x : ScoredTransaction js). is_stored x t.transactions ≡ true) xs
          → All (λ (x : ScoringInput js). has_row x t.transactions ≡ true) (map strip xs)
      stripped [] k = tt
      stripped (x ∷ xs) k = (has_row-strip x t.transactions ∙ k.0, stripped xs k.1)

  pub landed_rejects :
      (import_id bound : ℕ) (sent : List (PersistBatchInput js)) (t : Tables js)
      → All (Whole import_id bound) sent
      → AllLanded sent t
      → All (HasRejection import_id t.rejections) (rejected_of sent)
  landed_rejects import_id bound [] t w h = tt
  landed_rejects import_id bound (b ∷ sent) t w h =
      All-append (HasRejection import_id t.rejections) b.rejected (rejected_of sent)
        (subst (λ id. All (HasRejection id t.rejections) b.rejected) (w.0).of_import (h.0).rejected)
        (landed_rejects import_id bound sent t w.1 h.1)
