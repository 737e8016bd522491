-- ===== src/Processing/Store.antt =====
-- The ports of src/application/use-cases/process-import-file.use-case.ts as src/worker.main.ts fills
-- them: with the repositories over the database. What is not in the repository, and the scoring, is
-- a parameter.
pub mod Contracts
pub mod Accounts
pub mod Landed
pub mod Stored
use high_throughput_transact.Base.{ℕ, ◌+◌, String, Option, List, [], ◌∷◌, ◌++◌, Result, ok, err}
use high_throughput_transact.Js.{Js}
use high_throughput_transact.Js.Strings.{Text}
use high_throughput_transact.Domain.Errors.{Thrown, Attempt}
use high_throughput_transact.Database.World.{World, Db}
use high_throughput_transact.Database.JobRepository.{
  mark_processing, mark_completed, mark_cancelled, mark_failed, renew_lease, get_status,
}
use high_throughput_transact.Database.ImportFileRepository.{find_by_import_id}
use high_throughput_transact.Database.TransactionRepository.{
  PersistBatchInput, BatchPersistResult, persist_batch,
}
use high_throughput_transact.Retry.{RetryConfig}
use high_throughput_transact.Storage.CountLines.{count_lines}
use high_throughput_transact.Processing.Ports.{ScoringInput, ScoringOutput, Signal, Ports}

-- The database, with the batches that it has acknowledged and the signals sent, which the code does
-- not keep.
pub record Store (js : Js) : Type 0 where
  pub world : World js
  pub sent : List (PersistBatchInput js)
  pub signals : List Signal

-- The bytes of a file with what its stream throws, the lines that node:readline makes of them, what
-- the scoring pool answers, the time that a call takes, and the retries.
pub record Outside (js : Js) : Type 0 where
  pub chunks : String → Result Thrown (List (List ℕ))
  pub lines : String → List Text
  pub line_failure : String → Option Thrown
  pub score_batch : Store js → List (ScoringInput js) → Result Thrown (List (ScoringOutput js))
  pub takes : Store js → ℕ
  pub retry : RetryConfig
  pub prisma_message : String → String

-- `countLines` of a stream that may fail.
unfoldable pub counted_lines : Result Thrown (List (List ℕ)) → Result Thrown ℕ
counted_lines (ok chunks) = ok (count_lines chunks)
counted_lines (err e) = err e

module _ {js : Js} (outside : Outside js) where
  unfoldable pub spend : ℕ → Store js → Store js
  spend n s = record s { world = record (s.world) { now = s.world.now + n } }

  -- A call of a repository.
  unfoldable pub on_world : {A : Type 0} → Db js A → Attempt (Store js) A
  unfolding spend
  on_world m s = let (r, w) = m s.world in (r, spend (outside.takes s) (record s { world = w }))

  unfoldable pub note_sent :
      Result Thrown BatchPersistResult → PersistBatchInput js → Store js → Store js
  note_sent (ok r) i s = record s { sent = s.sent ++ i ∷ [] }
  note_sent (err e) i s = s

  unfoldable pub persist_on_world : PersistBatchInput js → Attempt (Store js) BatchPersistResult
  unfolding on_world note_sent
  persist_on_world i s = let (r, s') = on_world (persist_batch i) s in (r, note_sent r i s')

  unfoldable pub store_ports : Ports js (Store js)
  unfolding on_world persist_on_world counted_lines spend
  store_ports = record {
    find_file = λ id. on_world (find_by_import_id id);
    count_lines = λ path s. (counted_lines (outside.chunks path), s);
    lines = outside.lines;
    line_failure = outside.line_failure;
    mark_processing = λ job import_id total. on_world (mark_processing job import_id total);
    mark_completed = λ job import_id. on_world (mark_completed job import_id);
    mark_cancelled = λ job import_id. on_world (mark_cancelled job import_id);
    mark_failed = λ job import_id reason. on_world (mark_failed job import_id reason);
    renew_lease = λ job worker lease. on_world (renew_lease job worker lease);
    get_status = λ job. on_world (get_status job);
    score_batch = λ is s. (outside.score_batch s is, spend (outside.takes s) s);
    persist_batch = persist_on_world;
    retry = outside.retry;
    sleep = spend;
    date_now = λ s. s.world.now;
    signal = λ x s. record s { signals = x ∷ s.signals };
    prisma_message = outside.prisma_message;
  }
