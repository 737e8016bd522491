-- ===== src/Processing/ImportFile/Flush.antt =====
-- What `flush` of src/application/use-cases/process-import-file.use-case.ts sends, and the limiter that it
-- finds idle and leaves idle.
use high_throughput_transact.Base.{
  ◌+◌, ◌-◌, ◌<◌, ◌≡◌, refl, ap, ◌∙◌, inl, inr, true, ◌&&◌, some, List, [], ◌∷◌, ◌++◌, map, arith,
  ltb, Bool-cases, Option-cases, null,
}
use high_throughput_transact.Js.{Js}
use high_throughput_transact.Domain.Errors.{Attempt}
use high_throughput_transact.Concurrency.Semaphore.{Semaphore, acquire, release}
use high_throughput_transact.Database.World.{ScoredTransaction}
use high_throughput_transact.Database.JobRepository.{ClaimedJob}
use high_throughput_transact.Database.TransactionRepository.{PersistBatchInput}
use high_throughput_transact.Processing.Ports.{ScoringInput, ScoringOutput, Ports, Settings}
use high_throughput_transact.Processing.Progress.{Progress}
use high_throughput_transact.Processing.Returns.{
  Returns, Returns-bind, Returns-at, Returns-err, Returns-weaken,
}
use high_throughput_transact.Processing.ImportFile.{
  Run, assemble, advance, limited, with_permit, type_error, assembled, persist, clear, flush_batch,
  flush,
}
use high_throughput_transact.Processing.ImportFile.Steps.{strip, Steady, persist-Steady, Observed}
use high_throughput_transact.Processing.ImportFile.Steps.{score-Steady, time-Steady}

module _ {js : Js} {S : Type 0} (ports : Ports js S) (sent : S → List (PersistBatchInput js))
    (o : Observed ports sent) (job : ClaimedJob) (settings : Settings) where
  -- No one holds a permit or waits for one, and there is one to be had.
  pub record Idle (l : Semaphore) : Type 0 where
    pub free : 0 < l.available
    pub unqueued : l.waiters ≡ []

  abbrev taken : Semaphore → Semaphore
  taken l = record l { available = l.available - 1 }

  acquire-Idle : (l : Semaphore) → Idle l → acquire 0 l ≡ (taken l, true)
  unfolding acquire
  acquire-Idle l i = let e : ltb 0 l.available ≡ true = ground (arith, i.free) in rw e

  release-taken : (l : Semaphore) → Idle l → (release (taken l)).0 ≡ l
  unfolding release
  release-taken l i =
      let e : l.available - 1 + 1 ≡ l.available = omega (arith, i.free) in
      rw (i.unqueued) (ap (λ n. record l { available = n; waiters = [] }) e)

  module _ {A : Type 0} {h k : List (PersistBatchInput js)} {p : Progress js}
      (m : Attempt (Run js S) A) where
    permit-Steady :
        {r : Run js S}
        → Idle p.limiter
        → ((s : Run js S)
            → Steady ports sent o job settings h (record p { limiter = taken p.limiter }) s
            → Returns m s
                (λ a. Steady ports sent o job settings k (record p { limiter = taken p.limiter })))
        → Steady ports sent o job settings h p r
        → Returns
            (with_permit m (taken p.limiter, true))
            r
            (λ a. Steady ports sent o job settings k p)
    unfolding with_permit
    permit-Steady {r} idle q i =
        let s : Run js S = record r {
          progress = record (r.progress) { limiter = taken p.limiter };
        } in
        let i' : Steady ports sent o job settings h (record p { limiter = taken p.limiter }) s =
          record {
            history = i.history;
            scoring = i.scoring;
            rejected = i.rejected;
            line_count = i.line_count;
            line_number = i.line_number;
            limiter = refl;
            cancelled = i.cancelled;
          } in
        record {
          holds = λ a e.
              let j = (q s i').holds a e in
              record {
                history = j.history;
                scoring = j.scoring;
                rejected = j.rejected;
                line_count = j.line_count;
                line_number = j.line_number;
                limiter = ap (λ l. (release l).0) j.limiter ∙ release-taken p.limiter idle;
                cancelled = j.cancelled;
              };
        }

    limited-Steady :
        {r : Run js S}
        → Idle p.limiter
        → ((s : Run js S)
            → Steady ports sent o job settings h (record p { limiter = taken p.limiter }) s
            → Returns m s
                (λ a. Steady ports sent o job settings k (record p { limiter = taken p.limiter })))
        → Steady ports sent o job settings h p r
        → Returns (limited m) r (λ a. Steady ports sent o job settings k p)
    unfolding limited
    limited-Steady {r} idle q i =
        let e : acquire 0 r.progress.limiter ≡ (taken p.limiter, true) =
          ap (acquire 0) i.limiter ∙ acquire-Idle p.limiter idle in
        record { holds = λ a. rw e ((permit-Steady idle q i).holds a) }

  assemble-strip :
      (is : List (ScoringInput js)) (os : List (ScoringOutput js))
      {ts : List (ScoredTransaction js)}
      → assemble is os ≡ some ts
      → map strip ts ≡ is
  unfolding assemble
  assemble-strip [] os {ts} h = let e : [] ≡ ts = cc in rw⁻¹ e
  assemble-strip (i ∷ is) [] h = cc
  assemble-strip (i ∷ is) (x ∷ os) {ts} h = elim (Option-cases (assemble is os)) [
    | inl e ↦ let q = rw e at h in cc
    | inr (us, e) ↦
        let q = rw e at h in
        let t : ScoredTransaction js = record {
          transaction = i.transaction;
          fingerprint = i.fingerprint;
          risk_score = x.score;
          risk_level = x.level;
        } in
        let f : t ∷ us ≡ ts = cc in rw⁻¹ f (ap (λ is. i ∷ is) (assemble-strip is os e))
  ]

  assembled-Steady :
      {h : List (PersistBatchInput js)} {p : Progress js} (is : List (ScoringInput js))
      (os : List (ScoringOutput js)) {r : Run js S}
      → Steady ports sent o job settings h p r
      → Returns
          (assembled is os)
          r
          (λ ts s. (map strip ts ≡ is) × Steady ports sent o job settings h p s)
  unfolding assembled
  assembled-Steady is os {r} i = elim (Option-cases (assemble is os)) [
    | inl e ↦ Returns-err type_error r (rw (e, assembled))
    | inr (ts, e) ↦ Returns-at ts r (rw (e, assembled)) (assemble-strip is os e, i)
  ]

  abbrev pub batch_of : Progress js → List (ScoredTransaction js) → PersistBatchInput js
  batch_of p ts = record {
    import_id = job.import_id;
    scored = ts;
    rejected = p.pending_rejected;
    processed_delta = p.pending_line_count;
  }

  -- Nothing was pending, or the batch of what was pending has been acknowledged.
  pub data Flushed (h : List (PersistBatchInput js)) (p : Progress js) (r : Run js S) : Type 0 where
    nothing :
        p.pending_scoring ≡ []
        → p.pending_rejected ≡ []
        → Steady ports sent o job settings h p r
        → Flushed h p r
    acknowledged :
        (ts : List (ScoredTransaction js))
        → map strip ts ≡ p.pending_scoring
        → Steady ports sent o job settings (h ++ batch_of p ts ∷ []) (clear ports settings job p) r
        → Flushed h p r

  flush_batch-Flushed :
      {h : List (PersistBatchInput js)} (p : Progress js) {r : Run js S}
      → Idle p.limiter
      → Steady ports sent o job settings h p r
      → Returns
          (flush_batch ports settings job p.pending_scoring p.pending_rejected p.pending_line_count)
          r
          (λ a. Flushed h p)
  unfolding flush_batch clear advance
  flush_batch-Flushed {h} p {r} idle i =
      let after = clear ports settings job p in
      Returns-bind (λ a. Steady ports sent o job settings h after)
        (Returns-at tt (record r { progress = clear ports settings job r.progress }) refl
          (record {
            history = i.history;
            scoring = refl;
            rejected = refl;
            line_count = refl;
            line_number = i.line_number;
            limiter = i.limiter;
            cancelled = i.cancelled;
          }))
        λ u s j.
          Returns-bind (λ a. Steady ports sent o job settings h after)
            (score-Steady ports sent o job settings p.pending_scoring j)
            λ scored s j.
              Returns-bind
                (λ ts s.
                  (map strip ts ≡ p.pending_scoring) × Steady ports sent o job settings h after s)
                (assembled-Steady p.pending_scoring scored j)
                λ ts s (e, j).
                  Returns-bind (λ a. Steady ports sent o job settings h after)
                    (time-Steady ports sent o job settings j)
                    λ start s j.
                      Returns-weaken (λ a s k. acknowledged ts e k)
                        (limited-Steady {k = h ++ batch_of p ts ∷ []}
                          (persist ports settings job (batch_of p ts) start) idle
                          (λ s j. persist-Steady ports sent o job settings (batch_of p ts) start j)
                          j)

  null_iff : {A : Type 0} (xs : List A) → null xs ≡ true → xs ≡ []
  null_iff [] h = refl
  null_iff (x ∷ xs) h = cc

  pub flush-Flushed :
      (r : Run js S)
      → Idle r.progress.limiter
      → Returns (flush ports settings job) r (λ a. Flushed (sent r.outer) r.progress)
  unfolding flush
  flush-Flushed r idle =
      let p = r.progress in
      let i : Steady ports sent o job settings (sent r.outer) p r = record {
        history = refl;
        scoring = refl;
        rejected = refl;
        line_count = refl;
        line_number = refl;
        limiter = refl;
        cancelled = refl;
      } in
      elim (Bool-cases (null p.pending_scoring && null p.pending_rejected)) [
        | inl e ↦ Returns-at tt r (rw (e, flush)) (
            nothing (null_iff p.pending_scoring (ground arith))
              (null_iff p.pending_rejected (ground arith)) i)
        | inr e ↦ record { holds = λ a. rw (e, flush) ((flush_batch-Flushed p idle i).holds a) }
      ]
