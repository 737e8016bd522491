-- ===== src/Processing/ImportFile/Examples.antt =====
-- A file of a valid, a blank and a broken line, with ports that keep the acknowledged batches.
use high_throughput_transact.Base.{
  ◌≡◌, refl, none, some, List, [], ◌∷◌, ◌++◌, arith, length, ok, pure, ◌>>=◌,
}
use high_throughput_transact.Base.{◌>>=◌, ◌+◌, ◌<◌, All, true, false, ◌⊎◌}
use high_throughput_transact.Js.Strings.{Text}
use high_throughput_transact.Database.Table.{count_where, find_where, update_where}
use high_throughput_transact.Database.World.{
  wrapped, transaction, conclude, commit, statement, deliver,
}
use high_throughput_transact.Database.Sample.{a_job, with_jobs}
use high_throughput_transact.Database.TransactionRepository.{
  persist_batch, persist_rows, insert_scored, insert_query, insert_new, is_stored, insert_rejected,
  reject_query, number_rejections, count_query, count_batch,
}
use high_throughput_transact.Database.TransactionRepository.Batches.{Balanced}
use high_throughput_transact.Processing.ImportFile.{execute}
use high_throughput_transact.Processing.ImportFile.Sent.{entries, scores, rejects}
use high_throughput_transact.Processing.Store.{
  Store, Outside, store_ports, persist_on_world, on_world, note_sent, spend,
}
use high_throughput_transact.Processing.Store.Accounts.{execute-Balanced}
use high_throughput_transact.Processing.Store.Landed.{has_row, HasRejection}
use high_throughput_transact.Processing.Store.Stored.{import_lines-stored}
use high_throughput_transact.Js.{get}
use high_throughput_transact.Js.Strings.{
  is_high, is_low, unit_bytes, bytes_after, byte_length, trim, trim_start, trim_end, strip_control,
  is_space, is_control, to_upper,
}
use high_throughput_transact.Domain.Validate.{
  is_letter, matches_currency, clean_string, normalize_required_string, present, or_else,
  year_in_range, round_amount, normalize_amount, normalize_timestamp, date_of, check_year, require,
  check, describe, validate_record, validate_transaction,
}
use high_throughput_transact.Domain.ParseLine.{parse_json, parse_trimmed, parse_ndjson_line}
use high_throughput_transact.Processing.Progress.{
  classify_validated, classify_parsed, classify_line, take_in, pending_size,
}
use high_throughput_transact.Processing.ImportFile.{
  assemble, lift, advance, with_permit, limited, assembled, emit, time, retry_options, count_result,
  emit_rejected, persist, score, clear, flush_batch, flush, flush_if_full, take_entry, heartbeat,
  check_cancelled, settle_line, read_line, read_lines, is_cancelling,
}
use high_throughput_transact.Concurrency.Semaphore.{acquire, release, hand_on}
use high_throughput_transact.Retry
use high_throughput_transact.Js.Sample.{sample_js}
use high_throughput_transact.Database.World.{JobStatus, low}
use high_throughput_transact.Database.JobRepository.{ClaimedJob}
use high_throughput_transact.Database.TransactionRepository.{PersistBatchInput}
use high_throughput_transact.Processing.Ports.{
  FileLocation, ScoringInput, ScoringOutput, Ports, Settings,
}
use high_throughput_transact.Processing.Progress.{begin}
use high_throughput_transact.Processing.ImportFile.{Run, import_lines}
use high_throughput_transact.Processing.ImportFile.Steps.{Observed}
use high_throughput_transact.Processing.ImportFile.Conservation.{Imported, import_lines-conserves}

abbrev History : Type 0
History = List (PersistBatchInput sample_js)

abbrev score_low : List (ScoringInput sample_js) → List (ScoringOutput sample_js)
score_low [] = []
score_low (i ∷ is) = record { score = 5; level = low; fingerprint = i.fingerprint } ∷ score_low is

abbrev sample_ports : Ports sample_js History
sample_ports = record {
  find_file = λ id. pure none;
  count_lines = λ path. pure 3;
  lines = λ path. (123 ∷ 125 ∷ []) ∷ [] ∷ (120 ∷ []) ∷ [];
  line_failure = λ path. none;
  mark_processing = λ a b c. pure tt;
  mark_completed = λ a b. pure tt;
  mark_cancelled = λ a b. pure tt;
  mark_failed = λ a b c. pure tt;
  renew_lease = λ a b c. pure tt;
  get_status = λ id. pure (some JobStatus.processing);
  score_batch = λ is. pure (score_low is);
  persist_batch = λ i s. (
    ok (record {
      inserted_count = length i.scored;
      duplicate_count = 0;
      rejected_count = length i.rejected;
    }),
    s ++ i ∷ [],
  );
  retry = record { max_attempts = 3; base_delay_ms = 200; max_delay_ms = 2000; uniform = λ a n. 0 };
  sleep = λ n s. s;
  date_now = λ s. 0;
  signal = λ x s. s;
  prisma_message = λ c. c;
}

sample_ports-Observed : Observed sample_ports (λ s. s)
sample_ports-Observed = record {
  persisted = λ i s r h. refl;
  not_persisted = λ i s e h. cc;
  scoring = λ is s. refl;
  renewing = λ a b c s. refl;
  looking = λ a s. refl;
  sleeping = λ n s. refl;
  signalling = λ x s. refl;
}

abbrev job : ClaimedJob
job = record { id = 2; import_id = 1; status = JobStatus.claimed; attempt_count = 1; worker_id = 9 }

abbrev settings : Settings
settings = record { batch_size = 500; max_concurrent_persists = 2 }

abbrev file : FileLocation
file = record { storage_path = "uploads/1"; provider = some (112 ∷ []) }

abbrev start : Run sample_js History
start = record {
  outer = [];
  progress = begin (record { limit = 2; available = 2; waiters = [] }) 0;
}

returns : (import_lines sample_ports settings job file start).0 ≡ ok tt
unfolding ◌>>=◌ get is_letter matches_currency clean_string normalize_required_string present
    or_else year_in_range round_amount normalize_amount normalize_timestamp date_of check_year
    require check describe validate_record validate_transaction parse_json parse_trimmed
    parse_ndjson_line is_high is_low unit_bytes bytes_after byte_length trim trim_start trim_end
    strip_control is_space is_control to_upper classify_validated classify_parsed classify_line
    take_in pending_size begin assemble lift advance with_permit limited assembled emit time
    retry_options count_result emit_rejected persist score clear flush_batch flush flush_if_full
    take_entry heartbeat check_cancelled settle_line read_line read_lines import_lines is_cancelling
    Retry.settle Retry.attempts Retry.execute acquire release hand_on
returns = refl

import_lines-conserves_example :
    Imported sample_ports
      (λ s. s)
      sample_ports-Observed
      job
      settings
      (112 ∷ [])
      (sample_ports.lines "uploads/1")
      (import_lines sample_ports settings job file start).1
import_lines-conserves_example =
    import_lines-conserves sample_ports (λ s. s) sample_ports-Observed job settings file 2 0 []
      (omega arith) refl returns

-- The same file over a database of one import.
abbrev outside : Outside sample_js
outside = record {
  chunks = λ path. ok ((123 ∷ 125 ∷ 10 ∷ 10 ∷ 120 ∷ []) ∷ []);
  lines = sample_ports.lines;
  line_failure = λ path. none;
  score_batch = λ s is. ok (score_low is);
  takes = λ s. 1;
  retry = sample_ports.retry;
  prisma_message = λ c. c;
}

abbrev a_store : Store sample_js
a_store = record {
  world = with_jobs (a_job 2 JobStatus.claimed none ∷ []);
  sent = [];
  signals = [];
}

abbrev store_start : Run sample_js (Store sample_js)
store_start = record {
  outer = a_store;
  progress = begin (record { limit = 2; available = 2; waiters = [] }) 0;
}

store-Balanced : All (Balanced a_store.world.tables) a_store.world.tables.imports
unfolding Balanced count_where
store-Balanced = ((refl, refl, refl), tt)

store_returns : (import_lines (store_ports outside) settings job file store_start).0 ≡ ok tt
unfolding ◌>>=◌ get is_letter matches_currency clean_string normalize_required_string present
    or_else year_in_range round_amount normalize_amount normalize_timestamp date_of check_year
    require check describe validate_record validate_transaction parse_json parse_trimmed
    parse_ndjson_line is_high is_low unit_bytes bytes_after byte_length trim trim_start trim_end
    strip_control is_space is_control to_upper classify_validated classify_parsed classify_line
    take_in pending_size begin assemble lift advance with_permit limited assembled emit time
    retry_options count_result emit_rejected persist score clear flush_batch flush flush_if_full
    take_entry heartbeat check_cancelled settle_line read_line read_lines import_lines is_cancelling
    Retry.settle Retry.attempts Retry.execute acquire release hand_on store_ports persist_on_world
    on_world note_sent spend persist_batch persist_rows insert_scored insert_query insert_new
    is_stored insert_rejected reject_query number_rejections count_query count_batch wrapped
    transaction conclude commit statement deliver find_where update_where
store_returns = refl

execute-Balanced_example :
    let after = (execute (store_ports outside) settings job a_store).1.world.tables in
    All (Balanced after) after.imports
execute-Balanced_example = execute-Balanced outside settings job a_store store-Balanced

import_lines-stored_example :
    let end = (import_lines (store_ports outside) settings job file store_start).1 in
    (read : List Text) × (unread : List Text) × (read ++ unread ≡ outside.lines "uploads/1")
    × (((end.progress.was_cancelled ≡ false)
          × (unread ≡ [])
          × (end.progress.line_number ≡ length read))
        ⊎ ((end.progress.was_cancelled ≡ true)
            × (0 < length unread)
            × (end.progress.line_number ≡ length read + 1)))
    × All
        (λ (x : ScoringInput sample_js). has_row x end.outer.world.tables.transactions ≡ true)
        (scores (entries (112 ∷ []) 0 read))
    × All
        (HasRejection 1 end.outer.world.tables.rejections)
        (rejects (entries {js = sample_js} (112 ∷ []) 0 read))
import_lines-stored_example =
    import_lines-stored outside settings job file 2 0 a_store (omega arith) refl store_returns
