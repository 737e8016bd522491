-- ===== src/Processing/ImportFile/Sent.antt =====
-- The history of the batches that src/application/use-cases/process-import-file.use-case.ts has sent,
-- against what the lines came to, and what `flush` does to both.
use high_throughput_transact.Base.{
  ℕ, ◌+◌, ◌≤◌, max, ◌≡◌, refl, sym, ap, ◌∙◌, Bool, List, [], ◌∷◌, ◌++◌, map, arith, length, All,
  length-map, All-append,
}
use high_throughput_transact.Js.{Js}
use high_throughput_transact.Js.Strings.{Text}
use high_throughput_transact.Database.World.{ScoredTransaction, RejectedRecordInput}
use high_throughput_transact.Database.JobRepository.{ClaimedJob}
use high_throughput_transact.Database.TransactionRepository.{PersistBatchInput}
use high_throughput_transact.Processing.Ports.{ScoringInput, Ports, Settings}
use high_throughput_transact.Processing.Progress.{
  Entry, skipped, to_reject, to_score, classify_line, pending_size,
}
use high_throughput_transact.Processing.Returns.{Returns, Returns-weaken}
use mathlib.Core.List.{append-nil, append_assoc}
use high_throughput_transact.Processing.ImportFile.{Run, clear, flush}
use high_throughput_transact.Processing.ImportFile.Steps.{Observed, Steady, strip}
use high_throughput_transact.Processing.ImportFile.Flush.{
  Idle, batch_of, Flushed, nothing, acknowledged, flush-Flushed,
}

module _ {js : Js} where
  -- The lines, each with its number, the first after `n` others.
  abbrev pub entries : Text → ℕ → List Text → List (Entry js)
  entries fallback_provider n [] = []
  entries fallback_provider n (l ∷ ls) =
      classify_line js l (n + 1) fallback_provider ∷ entries fallback_provider (n + 1) ls

  abbrev pub scores : List (Entry js) → List (ScoringInput js)
  scores [] = []
  scores (to_score s ∷ es) = s ∷ scores es
  scores (skipped ∷ es) = scores es
  scores (to_reject r ∷ es) = scores es

  abbrev pub rejects : List (Entry js) → List RejectedRecordInput
  rejects [] = []
  rejects (to_reject r ∷ es) = r ∷ rejects es
  rejects (skipped ∷ es) = rejects es
  rejects (to_score s ∷ es) = rejects es

  pub scores-append : (xs ys : List (Entry js)) → scores (xs ++ ys) ≡ scores xs ++ scores ys
  scores-append [] ys = refl
  scores-append (skipped ∷ xs) ys = scores-append xs ys
  scores-append (to_reject r ∷ xs) ys = scores-append xs ys
  scores-append (to_score s ∷ xs) ys = ap (λ z. s ∷ z) (scores-append xs ys)

  pub rejects-append : (xs ys : List (Entry js)) → rejects (xs ++ ys) ≡ rejects xs ++ rejects ys
  rejects-append [] ys = refl
  rejects-append (skipped ∷ xs) ys = rejects-append xs ys
  rejects-append (to_score s ∷ xs) ys = rejects-append xs ys
  rejects-append (to_reject r ∷ xs) ys = ap (λ z. r ∷ z) (rejects-append xs ys)

  -- What a history of batches holds.
  abbrev pub scored_of : List (PersistBatchInput js) → List (ScoringInput js)
  scored_of [] = []
  scored_of (b ∷ bs) =
      map
        (λ (t : ScoredTransaction js). record {
          transaction = t.transaction;
          fingerprint = t.fingerprint;
        })
        b.scored
      ++ scored_of bs

  abbrev pub rejected_of : List (PersistBatchInput js) → List RejectedRecordInput
  rejected_of [] = []
  rejected_of (b ∷ bs) = b.rejected ++ rejected_of bs

  scored_of-append :
      (xs ys : List (PersistBatchInput js)) → scored_of (xs ++ ys) ≡ scored_of xs ++ scored_of ys
  scored_of-append [] ys = refl
  scored_of-append (x ∷ xs) ys =
      ap (λ z. map strip x.scored ++ z) (scored_of-append xs ys)
      ∙ sym (append_assoc _ (scored_of xs) (scored_of ys))

  rejected_of-append :
      (xs ys : List (PersistBatchInput js))
      → rejected_of (xs ++ ys) ≡ rejected_of xs ++ rejected_of ys
  rejected_of-append [] ys = refl
  rejected_of-append (x ∷ xs) ys =
      ap (λ z. x.rejected ++ z) (rejected_of-append xs ys)
      ∙ sym (append_assoc x.rejected (rejected_of xs) (rejected_of ys))

  -- A batch of the import, of at most `cap` records, that counts the records that it carries.
  pub record Whole (import_id cap : ℕ) (b : PersistBatchInput js) : Type 0 where
    pub of_import : b.import_id ≡ import_id
    pub counted : b.processed_delta ≡ length b.scored + length b.rejected
    pub capped : length b.scored + length b.rejected ≤ cap

module _ {js : Js} {S : Type 0} (ports : Ports js S) (sent : S → List (PersistBatchInput js))
    (o : Observed ports sent) (job : ClaimedJob) (settings : Settings) where
  abbrev pub cap : ℕ
  cap = max settings.batch_size 1

  abbrev pub Quiet : Run js S → Run js S → Type 0
  Quiet r = Steady ports sent o job settings (sent r.outer) r.progress

  -- Where the loop stands: `past` is what the lines read so far came to, `n` is their number.
  pub record Held (past : List (Entry js)) (n : ℕ) (c : Bool) (r : Run js S) : Type 0 where
    pub scored : scored_of (sent r.outer) ++ r.progress.pending_scoring ≡ scores past
    pub rejected : rejected_of (sent r.outer) ++ r.progress.pending_rejected ≡ rejects past
    pub counted : r.progress.pending_line_count ≡ pending_size r.progress
    pub batches : All (Whole job.import_id cap) (sent r.outer)
    pub idle : Idle ports sent o job settings r.progress.limiter
    pub line_number : r.progress.line_number ≡ n
    pub cancelled : r.progress.was_cancelled ≡ c

  pub Steady-Held :
      {past : List (Entry js)} {n : ℕ} {c : Bool} {r s : Run js S}
      → Held past n c r
      → Quiet r s
      → Held past n c s
  unfolding pending_size
  Steady-Held i q = record {
    scored = rw (q.history, q.scoring) i.scored;
    rejected = rw (q.history, q.rejected) i.rejected;
    counted = rw (q.line_count, q.scoring, q.rejected) i.counted;
    batches = rw q.history i.batches;
    idle = rw q.limiter i.idle;
    line_number = q.line_number ∙ i.line_number;
    cancelled = q.cancelled ∙ i.cancelled;
  }

  -- What was pending stands at the end of the history.
  appended : {A : Type 0} (h b p : List A) → b ≡ p → (h ++ (b ++ [])) ++ [] ≡ h ++ p
  appended h b p e = append-nil _ ∙ ap (λ z. h ++ z) (append-nil b ∙ e)

  acknowledged-Held :
      {past : List (Entry js)} {n : ℕ} {c : Bool} {r s : Run js S}
      (ts : List (ScoredTransaction js))
      → Held past n c r
      → pending_size r.progress ≤ cap
      → map strip ts ≡ r.progress.pending_scoring
      → Steady ports sent o job settings
          (sent r.outer ++ batch_of ports sent o job settings r.progress ts ∷ [])
          (clear ports settings job r.progress)
          s
      → Held past n c s
  unfolding clear pending_size
  acknowledged-Held {past} {n} {c} {r} {s} ts i size e q =
      let b = batch_of ports sent o job settings r.progress ts in
      let many : length ts ≡ length r.progress.pending_scoring =
        sym (length-map strip ts) ∙ ap length e in
      record {
        scored =
            rw (q.history, q.scoring)
              (ap (λ z. z ++ []) (scored_of-append (sent r.outer) (b ∷ []))
                ∙ appended (scored_of (sent r.outer)) (map strip ts) r.progress.pending_scoring e
                ∙ i.scored);
        rejected =
            rw (q.history, q.rejected)
              (ap (λ z. z ++ []) (rejected_of-append (sent r.outer) (b ∷ []))
                ∙ appended (rejected_of (sent r.outer)) r.progress.pending_rejected
                    r.progress.pending_rejected refl
                ∙ i.rejected);
        counted = rw (q.line_count, q.scoring, q.rejected) (omega arith);
        batches = rw q.history (
            All-append (Whole job.import_id cap) (sent r.outer) (b ∷ []) i.batches (
              record {
                of_import = refl;
                counted = omega (arith, i.counted, many);
                capped = omega (arith, size, many);
              },
              tt,
            ));
        idle = rw q.limiter i.idle;
        line_number = q.line_number ∙ i.line_number;
        cancelled = q.cancelled ∙ i.cancelled;
      }

  pub flush-Held :
      {past : List (Entry js)} {n : ℕ} {c : Bool} {r : Run js S}
      → Held past n c r
      → pending_size r.progress ≤ cap
      → Returns (flush ports settings job) r (λ a s.
        Held past n c s × (s.progress.pending_scoring ≡ []) × (s.progress.pending_rejected ≡ []))
  unfolding clear
  flush-Held {past} {n} {c} {r} i size =
      Returns-weaken settled (flush-Flushed ports sent o job settings r i.idle)
    where
      settled :
          (a : Unit {0}) (s : Run js S)
          → Flushed ports sent o job settings (sent r.outer) r.progress s
          → Held past n c s × (s.progress.pending_scoring ≡ []) × (s.progress.pending_rejected ≡ [])
      settled a s (nothing e f q) = (Steady-Held i q, q.scoring ∙ e, q.rejected ∙ f)
      settled a s (acknowledged ts e q) = (acknowledged-Held ts i size e q, q.scoring, q.rejected)
