-- ===== src/Database/Sample.antt =====
-- A small database: one import, its key, and jobs.
use high_throughput_transact.Base.{ℕ, ◌+◌, Option, none, some, List, [], ◌∷◌}
use high_throughput_transact.Js.Sample.{sample_js}
use high_throughput_transact.Domain.ImportStatus.{ImportStatus}
use high_throughput_transact.Database.World.{JobStatus, ImportRow, KeyRow, JobRow, World}

abbrev pub an_import : ImportRow
an_import = record {
  id = 1;
  provider = none;
  status = ImportStatus.pending;
  total_records = 0;
  processed_count = 0;
  accepted_count = 0;
  rejected_count = 0;
  duplicate_count = 0;
  started_at = none;
  completed_at = none;
  failure_reason = none;
  created_at = 0;
  updated_at = 0;
}

abbrev pub a_job : ℕ → JobStatus → Option ℕ → JobRow
a_job id status leased_until = record {
  id = id;
  import_id = 1;
  status = status;
  attempt_count = 0;
  leased_by = none;
  leased_until = leased_until;
  last_error = none;
  created_at = 5;
  updated_at = 5;
}

abbrev pub a_key : KeyRow
a_key = record { key = "k"; import_id = 1 }

abbrev pub with_jobs : List JobRow → World sample_js
with_jobs jobs = record {
  tables = record {
    imports = an_import ∷ [];
    keys = a_key ∷ [];
    files = [];
    jobs = jobs;
    transactions = [];
    rejections = [];
  };
  replies = [];
  now = 100;
  uuid = λ n. n + 10;
  drawn = 0;
}

-- Job 2 is pending, job 3 is leased until 200, job 4 is being cancelled.
abbrev pub busy : World sample_js
busy = with_jobs (
    a_job 2 JobStatus.pending none
    ∷ a_job 3 JobStatus.processing (some 200)
    ∷ a_job 4 JobStatus.cancelling none
    ∷ [])
