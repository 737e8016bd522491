-- ===== src/Processing/ImportFile/Steps.antt =====
-- What the steps of `persist` in src/application/use-cases/process-import-file.use-case.ts leave alone.
use high_throughput_transact.Base.{ℕ, ◌≡◌, refl, ap, ◌∙◌, List, [], ◌∷◌, ◌++◌, ok, err, for_each}
use high_throughput_transact.Js.{Js}
use high_throughput_transact.Domain.Errors.{Thrown, Attempt}
use high_throughput_transact.Retry.{RetryAttemptContext, RetryOptions}
use high_throughput_transact.Retry
use high_throughput_transact.Retry.History.{execute-history}
use high_throughput_transact.Database.World.{ScoredTransaction, RejectedRecordInput}
use high_throughput_transact.Database.JobRepository.{ClaimedJob}
use high_throughput_transact.Database.TransactionRepository.{PersistBatchInput, BatchPersistResult}
use high_throughput_transact.Processing.Ports.{ScoringInput, Signal, Ports, Settings}
use high_throughput_transact.Processing.Progress.{Progress}
use high_throughput_transact.Processing.Returns.{Returns, Returns-bind, Returns-at}
use high_throughput_transact.Processing.ImportFile.{
  Run, lift, advance, emit, time, retry_options, count_result, emit_rejected, persist, score,
}

-- The ports, with the history of the batches that `persistBatch` has acknowledged: a call of it
-- that returns adds its batch, and nothing else does.
pub record Observed {js : Js} {S : Type 0} (ports : Ports js S)
    (sent : S → List (PersistBatchInput js)) : Type 0 where
  pub persisted :
      (i : PersistBatchInput js) (s : S) (r : BatchPersistResult)
      → (ports.persist_batch i s).0 ≡ ok r
      → sent (ports.persist_batch i s).1 ≡ sent s ++ i ∷ []
  pub not_persisted :
      (i : PersistBatchInput js) (s : S) (e : Thrown)
      → (ports.persist_batch i s).0 ≡ err e
      → sent (ports.persist_batch i s).1 ≡ sent s
  pub scoring : (is : List (ScoringInput js)) (s : S) → sent (ports.score_batch is s).1 ≡ sent s
  pub renewing : (a b c : ℕ) (s : S) → sent (ports.renew_lease a b c s).1 ≡ sent s
  pub looking : (a : ℕ) (s : S) → sent (ports.get_status a s).1 ≡ sent s
  pub sleeping : (n : ℕ) (s : S) → sent (ports.sleep n s) ≡ sent s
  pub signalling : (x : Signal) (s : S) → sent (ports.signal x s) ≡ sent s

-- A stored transaction without its score.
abbrev pub strip : {js : Js} → ScoredTransaction js → ScoringInput js
strip t = record { transaction = t.transaction; fingerprint = t.fingerprint }

module _ {js : Js} {S : Type 0} (ports : Ports js S) (sent : S → List (PersistBatchInput js))
    (o : Observed ports sent) (job : ClaimedJob) (settings : Settings) where
  -- The history is `h`, and the variables of the loop are those of `p`; the totals are left open.
  pub record Steady (h : List (PersistBatchInput js)) (p : Progress js) (r : Run js S)
      : Type 0 where
    pub history : sent r.outer ≡ h
    pub scoring : r.progress.pending_scoring ≡ p.pending_scoring
    pub rejected : r.progress.pending_rejected ≡ p.pending_rejected
    pub line_count : r.progress.pending_line_count ≡ p.pending_line_count
    pub line_number : r.progress.line_number ≡ p.line_number
    pub limiter : r.progress.limiter ≡ p.limiter
    pub cancelled : r.progress.was_cancelled ≡ p.was_cancelled

  pub Steady-outer :
      {h k : List (PersistBatchInput js)} {p : Progress js} {r : Run js S} (s : S)
      → sent s ≡ k
      → Steady h p r
      → Steady k p (record r { outer = s })
  Steady-outer s e i = record {
    history = e;
    scoring = i.scoring;
    rejected = i.rejected;
    line_count = i.line_count;
    line_number = i.line_number;
    limiter = i.limiter;
    cancelled = i.cancelled;
  }

  module _ {h : List (PersistBatchInput js)} {p : Progress js} where
    pub emit-Steady :
        (x : Signal) {r : Run js S}
        → Steady h p r
        → Returns (emit ports settings job x) r (λ a. Steady h p)
    unfolding emit
    emit-Steady x {r} i =
        Returns-at tt (record r { outer = ports.signal x r.outer }) refl
          (Steady-outer (ports.signal x r.outer) (o.signalling x r.outer ∙ i.history) i)

    pub time-Steady :
        {r : Run js S} → Steady h p r → Returns (time ports settings job) r (λ a. Steady h p)
    unfolding time
    time-Steady {r} i = Returns-at (ports.date_now r.outer) r refl i

    count-Steady :
        (x : BatchPersistResult) {r : Run js S}
        → Steady h p r
        → Returns (advance (count_result ports settings job x)) r (λ a. Steady h p)
    unfolding advance count_result
    count-Steady x {r} i =
        Returns-at tt (record r { progress = count_result ports settings job x r.progress }) refl
          (record {
            history = i.history;
            scoring = i.scoring;
            rejected = i.rejected;
            line_count = i.line_count;
            line_number = i.line_number;
            limiter = i.limiter;
            cancelled = i.cancelled;
          })

    pub lift-Steady :
        {A : Type 0} (m : Attempt S A) (k : List (PersistBatchInput js)) {r : Run js S}
        → Steady h p r
        → ((a : A) → (m r.outer).0 ≡ ok a → sent (m r.outer).1 ≡ k)
        → Returns (lift m) r (λ a. Steady k p)
    unfolding lift
    lift-Steady m k {r} i q = record { holds = λ a e. Steady-outer (m r.outer).1 (q a e) i }

    rejects-Steady :
        (rs : List RejectedRecordInput) {r : Run js S}
        → Steady h p r
        → Returns (for_each rs (emit_rejected ports settings job)) r (λ a. Steady h p)
    unfolding emit_rejected
    rejects-Steady [] {r} i = Returns-at tt r refl i
    rejects-Steady (x ∷ rs) {r} i =
        Returns-bind (λ a. Steady h p) (emit-Steady _ i) (λ a s j. rejects-Steady rs j)

    pub score-Steady :
        (is : List (ScoringInput js)) {r : Run js S}
        → Steady h p r
        → Returns (score ports settings job is) r (λ a. Steady h p)
    unfolding score
    score-Steady [] {r} i = Returns-at [] r refl i
    score-Steady (x ∷ is) {r} i =
        Returns-bind (λ a. Steady h p) (time-Steady i)
          λ started s j.
            Returns-bind (λ a. Steady h p)
              (lift-Steady (ports.score_batch (x ∷ is)) h j
                (λ a e. o.scoring (x ∷ is) _ ∙ j.history))
              λ scored s j.
                Returns-bind (λ a. Steady h p) (time-Steady j)
                  λ now s j.
                    Returns-bind (λ a. Steady h p) (emit-Steady _ j)
                      λ u s j. Returns-at scored s refl j

    persist_call :
        (input : PersistBatchInput js) {r : Run js S}
        → Steady h p r
        → Returns
            (lift (
              Retry.execute ports.retry
                (retry_options ports settings job)
                (ports.persist_batch input)))
            r
            (λ a. Steady (h ++ input ∷ []) p)
    unfolding retry_options
    persist_call input i = lift-Steady _ (h ++ input ∷ []) i λ a e.
        execute-history ports.retry (retry_options ports settings job) (ports.persist_batch input)
          sent (λ k. k ++ input ∷ []) (o.persisted input) (o.not_persisted input)
          (λ x s. o.signalling _ _ ∙ o.signalling _ s) o.sleeping _ a e
        ∙ ap (λ k. k ++ input ∷ []) i.history

  pub persist-Steady :
      {h : List (PersistBatchInput js)} {p : Progress js} (input : PersistBatchInput js) (start : ℕ)
      {r : Run js S}
      → Steady h p r
      → Returns (persist ports settings job input start) r (λ a. Steady (h ++ input ∷ []) p)
  unfolding persist
  persist-Steady {h} {p} input start i =
      let after = Steady (h ++ input ∷ []) p in
      Returns-bind (λ a. after) (persist_call input i)
        λ result s j.
          Returns-bind (λ a. after) (count-Steady result j)
            λ u s j.
              Returns-bind (λ a. after) (time-Steady j)
                λ now s j.
                  Returns-bind (λ a. after) (emit-Steady _ j)
                    λ u s j.
                      Returns-bind (λ a. after) (emit-Steady _ j)
                        λ u s j.
                          Returns-bind (λ a. after) (emit-Steady _ j)
                            λ u s j. rejects-Steady input.rejected j
