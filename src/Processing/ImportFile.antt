-- ===== src/Processing/ImportFile.antt =====
-- src/application/use-cases/process-import-file.use-case.ts. The local variables stand in the state
-- beside the ports' own, since the `catch` block reads them. `flush` is awaited wherever it is
-- called, so that when `Promise.all` is reached every promise of `inFlightPersists` has settled.
pub mod Steps
pub mod Flush
pub mod Sent
pub mod Between
pub mod Conservation
pub mod Keeps
mod Examples
use high_throughput_transact.Base.{
  ℕ, ◌+◌, ◌-◌, ◌*◌, ◌%◌, String, Bool, true, false, ◌&&◌, ◌||◌, Option, none, some, List, [], ◌∷◌,
  ltb, leb, ◌==◌, if◌then◌else◌, null, ok, err, pure, throw, ◌>>=◌, ◌>>◌, for_each,
}
use high_throughput_transact.Base.{catch}
use high_throughput_transact.Domain.Errors.{domain, prisma_known, shutdown_interrupted, message}
use high_throughput_transact.Concurrency.Semaphore.{Semaphore, create}
use high_throughput_transact.Processing.Ports.{FileLocation, info, error}
use high_throughput_transact.Processing.Progress.{begin}
use high_throughput_transact.Js.{Js}
use high_throughput_transact.Js.Strings.{Text}
use high_throughput_transact.Domain.Errors.{Thrown, Attempt, plain, object}
use high_throughput_transact.Domain.ParseLine.{line_too_long, invalid_json}
use high_throughput_transact.Domain.Validate.{
  missing_field, invalid_amount, invalid_currency, invalid_timestamp, description_too_long,
  invalid_type,
}
use high_throughput_transact.Concurrency.Semaphore.{acquire, release, in_flight, queue_depth}
use high_throughput_transact.Retry.{RetryOptions}
use high_throughput_transact.Retry
use high_throughput_transact.Database.World.{
  JobStatus, ScoredTransaction, RejectedRecordInput, RejectionCode, line_error, record_error,
}
use high_throughput_transact.Database.JobRepository.{ClaimedJob}
use high_throughput_transact.Database.TransactionRepository.{PersistBatchInput, BatchPersistResult}
use high_throughput_transact.Processing.Ports.{
  ScoringInput, ScoringOutput, Signal, counter, histogram, gauge, warn, Ports, Settings,
}
use high_throughput_transact.Processing.Progress.{
  Progress, Entry, skipped, classify_line, take_in, pending_size,
}

-- `HEARTBEAT_INTERVAL_MS`, `LEASE_DURATION_MS` and `CANCELLATION_CHECK_INTERVAL`
abbrev pub heartbeat_interval_ms : ℕ
heartbeat_interval_ms = 30000

abbrev pub lease_duration_ms : ℕ
lease_duration_ms = 2 * 60 * 1000

abbrev pub cancellation_check_interval : ℕ
cancellation_check_interval = 500

error_code_name : RejectionCode → String
error_code_name (line_error line_too_long) = "LINE_TOO_LONG"
error_code_name (line_error invalid_json) = "INVALID_JSON"
error_code_name (record_error missing_field) = "MISSING_FIELD"
error_code_name (record_error invalid_amount) = "INVALID_AMOUNT"
error_code_name (record_error invalid_currency) = "INVALID_CURRENCY"
error_code_name (record_error invalid_timestamp) = "INVALID_TIMESTAMP"
error_code_name (record_error description_too_long) = "DESCRIPTION_TOO_LONG"
error_code_name (record_error invalid_type) = "INVALID_TYPE"

pub is_cancelling : Option JobStatus → Bool
is_cancelling (some JobStatus.cancelling) = true
is_cancelling _ = false

-- What reading a property of `undefined` throws.
abbrev pub type_error : Thrown
type_error = object none none (some "Cannot read properties of undefined (reading 'score')") plain

pub record Run (js : Js) (S : Type 0) : Type 0 where
  pub outer : S
  pub progress : Progress js

-- `scoringBatch.map((input, i) => ...)`; `none` where `scored[i]` is undefined.
pub assemble :
    {js : Js}
    → List (ScoringInput js)
    → List (ScoringOutput js)
    → Option (List (ScoredTransaction js))
assemble [] outputs = some []
assemble (i ∷ inputs) [] = none
assemble (i ∷ inputs) (o ∷ outputs) = elim (assemble inputs outputs) [
  | none ↦ none
  | some ss ↦ some (
      record {
        transaction = i.transaction;
        fingerprint = i.fingerprint;
        risk_score = o.score;
        risk_level = o.level;
      }
      ∷ ss)
]

module _ {js : Js} {S : Type 0} where
  pub lift : {A : Type 0} → Attempt S A → Attempt (Run js S) A
  lift m r = let (a, s) = m r.outer in (a, record r { outer = s })

  pub advance : (Progress js → Progress js) → Attempt (Run js S) (Unit {0})
  advance f r = (ok tt, record r { progress = f r.progress })

  with_permit : {A : Type 0} → Attempt (Run js S) A → Semaphore × Bool → Attempt (Run js S) A
  with_permit m (l, true) r =
      let (a, r') = m (record r { progress = record (r.progress) { limiter = l } }) in
      (
        a,
        record r' { progress = record (r'.progress) { limiter = (release r'.progress.limiter).0 } },
      )
  with_permit m (l, false) r =
      (err plain, record r { progress = record (r.progress) { limiter = l } })

  -- `persistLimiter.run(fn)`. A caller that is queued is resumed by the `release` of another run;
  -- there is none here, so that branch stands for a promise that does not settle.
  pub limited : {A : Type 0} → Attempt (Run js S) A → Attempt (Run js S) A
  unfolding with_permit
  limited m r = with_permit m (acquire 0 r.progress.limiter) r

  -- `scored[i].score` throws where the pool returned too few.
  pub assembled :
      List (ScoringInput js)
      → List (ScoringOutput js)
      → Attempt (Run js S) (List (ScoredTransaction js))
  assembled inputs outputs = elim (assemble inputs outputs) [
    | some ss ↦ pure ss
    | none ↦ throw type_error
  ]

module _ {js : Js} {S : Type 0} (ports : Ports js S) (settings : Settings) (job : ClaimedJob) where
  pub emit : Signal → Attempt (Run js S) (Unit {0})
  emit s r = (ok tt, record r { outer = ports.signal s r.outer })

  pub time : Attempt (Run js S) ℕ
  time r = (ok (ports.date_now r.outer), r)

  retry_options : RetryOptions S
  retry_options = record {
    operation = "persistBatch";
    on_retry = λ x s.
        ports.signal (warn "Retrying batch persistence after transient failure")
          (ports.signal (counter "retry_attempts_total" (some "persistBatch") 1) s);
    sleep = ports.sleep;
  }

  pub count_result : BatchPersistResult → Progress js → Progress js
  count_result result p = record p {
    inserted = p.inserted + result.inserted_count;
    duplicates = p.duplicates + result.duplicate_count;
    rejected = p.rejected + result.rejected_count;
  }

  emit_rejected : RejectedRecordInput → Attempt (Run js S) (Unit {0})
  emit_rejected r = emit (counter "records_rejected_total" (some (error_code_name r.error_code)) 1)

  -- What runs under the limiter.
  pub persist : PersistBatchInput js → ℕ → Attempt (Run js S) (Unit {0})
  unfolding retry_options emit_rejected
  persist input persist_start = do
    result ← lift (Retry.execute ports.retry retry_options (ports.persist_batch input))
    advance (count_result result)
    now ← time
    emit (histogram "batch_persist_duration_seconds" (now - persist_start))
    emit (counter "records_processed_total" none input.processed_delta)
    emit (counter "records_duplicate_total" none result.duplicate_count)
    for_each input.rejected emit_rejected

  pub score : List (ScoringInput js) → Attempt (Run js S) (List (ScoringOutput js))
  score [] = pure []
  score (i ∷ inputs) = do
    started ← time
    scored ← lift (ports.score_batch (i ∷ inputs))
    now ← time
    emit (histogram "scoring_batch_duration_seconds" (now - started))
    pure scored

  pub clear : Progress js → Progress js
  clear p = record p { pending_scoring = []; pending_rejected = []; pending_line_count = 0 }

  flush_batch :
      List (ScoringInput js) → List RejectedRecordInput → ℕ → Attempt (Run js S) (Unit {0})
  unfolding clear score
  flush_batch scoring_batch rejected_batch processed_delta = do
    advance clear
    scored ← score scoring_batch
    transactions ← assembled scoring_batch scored
    persist_start ← time
    limited (
        persist
          (record {
            import_id = job.import_id;
            scored = transactions;
            rejected = rejected_batch;
            processed_delta = processed_delta;
          })
          persist_start)

  unfoldable pub flush : Attempt (Run js S) (Unit {0})
  unfolding flush_batch
  flush r =
      let p = r.progress in
      if null p.pending_scoring && null p.pending_rejected
      then (ok tt, r)
      else flush_batch p.pending_scoring p.pending_rejected p.pending_line_count r

  flush_if_full : Attempt (Run js S) (Unit {0})
  flush_if_full r =
      let l = r.progress.limiter in
      if leb settings.batch_size (pending_size r.progress)
      then (do
        (if ltb 0 (queue_depth l) || leb settings.max_concurrent_persists (in_flight l)
            then emit (counter "backpressure_waits_total" none 1)
            else pure tt)
        emit (gauge "persist_queue_depth" (queue_depth l))
        flush)
          r
      else (ok tt, r)

  pub take_entry : Entry js → Attempt (Run js S) (Unit {0})
  unfolding flush_if_full
  take_entry skipped = pure tt
  take_entry e = advance (take_in e) >> flush_if_full

  pub heartbeat : Attempt (Run js S) (Unit {0})
  heartbeat r =
      if ltb heartbeat_interval_ms (ports.date_now r.outer - r.progress.last_heartbeat)
      then (do
        lift (ports.renew_lease job.id job.worker_id lease_duration_ms)
        now ← time
        advance (λ p. record p { last_heartbeat = now }))
          r
      else (ok tt, r)

  -- Whether the loop stops at this line.
  pub check_cancelled : Attempt (Run js S) Bool
  check_cancelled r =
      if r.progress.line_number % cancellation_check_interval == 0
      then (lift (ports.get_status job.id) >>= λ s. pure (is_cancelling s)) r
      else (ok false, r)

  settle_line : Text → Text → Bool → Attempt (Run js S) Bool
  unfolding take_entry
  settle_line fallback_provider raw_line true =
      advance (λ p. record p { was_cancelled = true }) >> pure true
  settle_line fallback_provider raw_line false = λ r.
      (take_entry (classify_line js raw_line r.progress.line_number fallback_provider)
          >> pure false)
        r

  -- One turn of the `for await`; the result tells whether it breaks.
  read_line : Text → Text → Attempt (Run js S) Bool
  unfolding heartbeat check_cancelled settle_line
  read_line fallback_provider raw_line = do
    advance (λ p. record p { line_number = p.line_number + 1 })
    heartbeat
    stop ← check_cancelled
    settle_line fallback_provider raw_line stop

  pub read_lines : Text → Option Thrown → List Text → Attempt (Run js S) (Unit {0})
  unfolding read_line
  read_lines fallback_provider none [] = pure tt
  read_lines fallback_provider (some e) [] = throw e
  read_lines fallback_provider failure (l ∷ ls) = read_line fallback_provider l >>= λ stop.
      elim stop [ true ↦ pure tt | false ↦ read_lines fallback_provider failure ls ]

  -- After the loop and the last flush.
  conclude : Attempt (Run js S) (Unit {0})
  conclude r =
      (if r.progress.was_cancelled
          then (do
            lift (ports.mark_cancelled job.id job.import_id)
            emit (counter "imports_completed_total" (some "cancelled") 1)
            emit (info "Finished processing import file"))
          else (do
            lift (ports.mark_completed job.id job.import_id)
            emit (counter "imports_completed_total" (some "completed") 1)
            emit (info "Finished processing import file")))
        r

  -- The loop and the last flush.
  unfoldable pub import_lines : FileLocation → Attempt (Run js S) (Unit {0})
  unfolding read_lines
  import_lines file = do
    read_lines (elim file.provider [ none ↦ [] | some p ↦ p ])
        (ports.line_failure file.storage_path) (ports.lines file.storage_path)
    flush

  -- `err instanceof Error ? err.message : 'Unknown processing error.'`
  error_text : Thrown → String
  error_text plain = "Unknown processing error."
  error_text (domain e cause) = message e
  error_text (object c o (some m) cause) = m
  error_text (object c o none cause) = "Unknown processing error."
  error_text (prisma_known c target fields) = ports.prisma_message c

  fail_job : Thrown → Attempt (Run js S) (Unit {0})
  unfolding error_text
  fail_job e = do
    emit (error "Unexpected error while processing import file")
    lift (ports.mark_failed job.id job.import_id (error_text e))
    emit (counter "imports_completed_total" (some "failed") 1)

  -- The `catch` block.
  handle : Thrown → Attempt (Run js S) (Unit {0})
  unfolding fail_job
  handle (domain (shutdown_interrupted component) cause) =
      emit (info "Processing interrupted by shutdown; job will be retried")
      >> throw (domain (shutdown_interrupted component) cause)
  handle e = fail_job e

  -- The `try` statement, from the state in which the variables are set up.
  unfoldable pub process : FileLocation → Attempt (Run js S) (Unit {0})
  unfolding import_lines conclude handle
  process file = catch (import_lines file >> conclude) handle

  start : FileLocation → Option Semaphore → Attempt S (Unit {0})
  unfolding process
  start file none s = (err (object none none (some "Semaphore limit must be at least 1.") plain), s)
  start file (some limiter) s =
      let (r, run) =
        process file (record { outer = s; progress = begin limiter (ports.date_now s) }) in
      (r, run.outer)

  process_found : Option FileLocation → Attempt S (Unit {0})
  unfolding start
  process_found none = ports.mark_failed job.id job.import_id "Import file record not found."
  process_found (some file) = do
    total_records ← ports.count_lines file.storage_path
    ports.mark_processing job.id job.import_id total_records
    start file (create settings.max_concurrent_persists)

  unfoldable pub execute : Attempt S (Unit {0})
  unfolding process_found
  execute = ports.find_file job.import_id >>= process_found
