-- ===== src/Database/JobRepository.antt =====
-- src/infrastructure/repository/job.repository.ts: the job queue in the database.
pub mod Claims
pub mod Leases
pub mod Marks
pub mod Recovery
pub mod Cancellation
mod Examples
use high_throughput_transact.Base.{
  ℕ, ◌+◌, ◌*◌, ◌/◌, max, String, Bool, true, false, ◌&&◌, ◌||◌, Option, none, some, List, [], ◌∷◌,
  ltb, leb, ◌==◌, if◌then◌else◌, Result, ok, err, ◌>>=◌, ◌>>◌,
}
use high_throughput_transact.Js.{Js}
use high_throughput_transact.Domain.ImportStatus.{ImportStatus}
use high_throughput_transact.Domain.Errors.{Thrown}
use high_throughput_transact.Database.Table.{update_where, find}
use high_throughput_transact.Database.World.{
  JobStatus, pending, claimed, processing, completed, failed, cancelled, ImportRow, JobRow, Tables,
  Db, Query, statement, wrapped, current_time, record_not_found,
}

pub record ClaimedJob : Type 0 where
  pub id : ℕ
  pub import_id : ℕ
  pub status : JobStatus
  pub attempt_count : ℕ
  pub worker_id : ℕ

-- `Math.max(1, Math.ceil(leaseDurationMs / 1000))`
pub lease_seconds : ℕ → ℕ
lease_seconds lease_duration_ms = max 1 ((lease_duration_ms + 999) / 1000)

-- `"leasedUntil" < now()`: a null is not less.
pub is_expired : ℕ → Option ℕ → Bool
is_expired now none = false
is_expired now (some until) = ltb until now

-- `status IN ('CLAIMED', 'PROCESSING')`
pub is_leased : JobStatus → Bool
is_leased claimed = true
is_leased processing = true
is_leased _ = false

pub is_pending : JobStatus → Bool
is_pending pending = true
is_pending _ = false

-- The `WHERE` of the inner select of `claimNext`.
pub is_claimable : ℕ → JobRow → Bool
unfolding is_expired is_leased is_pending
is_claimable now j = is_pending j.status || (is_leased j.status && is_expired now j.leased_until)

older : JobRow → Option JobRow → JobRow
older j none = j
older j (some k) = if leb j.created_at k.created_at then j else k

-- `ORDER BY "createdAt" LIMIT 1` among the rows that pass a test.
pub oldest : (JobRow → Bool) → List JobRow → Option JobRow
unfolding older
oldest p [] = none
oldest p (j ∷ js) = if p j then some (older j (oldest p js)) else oldest p js

-- The `SET` of `claimNext`.
pub claim_row : ℕ → ℕ → ℕ → JobRow → JobRow
claim_row worker_id lease_ms now j = record j {
  status = claimed;
  leased_by = some worker_id;
  leased_until = some (now + lease_seconds lease_ms * 1000);
  attempt_count = j.attempt_count + 1;
  updated_at = now;
}

abbrev pub has_id : ℕ → JobRow → Bool
has_id id j = j.id == id

abbrev pub import_has_id : ℕ → ImportRow → Bool
import_has_id id r = r.id == id

abbrev pub claimed_job : ℕ → JobRow → ClaimedJob
claimed_job worker_id row = record {
  id = row.id;
  import_id = row.import_id;
  status = row.status;
  attempt_count = row.attempt_count;
  worker_id = worker_id;
}

-- `id = ${jobId} AND "leasedBy" = ${workerId}`
is_holder : ℕ → Option ℕ → Bool
is_holder worker_id none = false
is_holder worker_id (some holder) = holder == worker_id

pub holds_lease : ℕ → ℕ → JobRow → Bool
unfolding is_holder
holds_lease job_id worker_id j = j.id == job_id && is_holder worker_id j.leased_by

module _ {js : Js} where
  claim_candidate :
      ℕ → ℕ → ℕ → Tables js → Option JobRow → Result Thrown (Option ClaimedJob) × Tables js
  claim_candidate worker_id lease_ms now t none = (ok none, t)
  claim_candidate worker_id lease_ms now t (some j) =
      let row = claim_row worker_id lease_ms now in
      (
        ok (some (claimed_job worker_id (row j))),
        record t { jobs = update_where (has_id j.id) row t.jobs },
      )

  -- The one `UPDATE ... WHERE id = (SELECT ... FOR UPDATE SKIP LOCKED LIMIT 1) RETURNING`.
  pub claim_query : ℕ → ℕ → ℕ → Query js (Option ClaimedJob)
  unfolding claim_candidate
  claim_query worker_id lease_ms now t =
      claim_candidate worker_id lease_ms now t (oldest (is_claimable now) t.jobs)

  unfoldable pub claim_next : ℕ → ℕ → Db js (Option ClaimedJob)
  unfolding claim_query
  claim_next worker_id lease_ms =
      wrapped "JobRepository.claimNext" λ w. statement (claim_query worker_id lease_ms w.now) w

  unfoldable pub renew_query : ℕ → ℕ → ℕ → ℕ → Query js (Unit {0})
  unfolding holds_lease
  renew_query job_id worker_id lease_ms now t = (
    ok tt,
    record t {
      jobs =
          update_where (holds_lease job_id worker_id)
            (λ j. record j {
              leased_until = some (now + lease_seconds lease_ms * 1000);
              updated_at = now;
            })
            t.jobs;
    },
  )

  unfoldable pub renew_lease : ℕ → ℕ → ℕ → Db js (Unit {0})
  unfolding renew_query
  renew_lease job_id worker_id lease_ms =
      wrapped "JobRepository.renewLease"
        λ w. statement (renew_query job_id worker_id lease_ms w.now) w

  unfoldable pub get_status : ℕ → Db js (Option JobStatus)
  get_status job_id = wrapped "JobRepository.getStatus" (
      statement λ t. (
        ok (elim (find (λ (j : JobRow). j.id) job_id t.jobs) [
          | none ↦ none
          | some j ↦ some j.status
        ]),
        t,
      ))

  -- `processingJob.update({ where: { id }, data })`
  unfoldable pub update_job : ℕ → (JobRow → JobRow) → Query js (Unit {0})
  update_job id f t = elim (find (λ (j : JobRow). j.id) id t.jobs) [
    | none ↦ (err record_not_found, t)
    | some j ↦ (ok tt, record t { jobs = update_where (has_id id) f t.jobs })
  ]

  unfoldable pub update_import : ℕ → (ImportRow → ImportRow) → Query js (Unit {0})
  update_import id f t = elim (find (λ (r : ImportRow). r.id) id t.imports) [
    | none ↦ (err record_not_found, t)
    | some r ↦ (ok tt, record t { imports = update_where (import_has_id id) f t.imports })
  ]

  -- Two statements, each with its own commit.
  unfoldable pub update_both :
      ℕ → ℕ → (ℕ → JobRow → JobRow) → (ℕ → ImportRow → ImportRow) → Db js (Unit {0})
  unfolding update_job update_import
  update_both job_id import_id job_data import_data = wrapped "JobRepository.updateBoth" do
    now ← current_time
    statement (update_job job_id (job_data now))
    statement (update_import import_id (import_data now))

  unfoldable pub mark_processing : ℕ → ℕ → ℕ → Db js (Unit {0})
  unfolding update_both
  mark_processing job_id import_id total_records =
      update_both job_id import_id (λ now j. record j { status = processing; updated_at = now })
        (λ now r. record r {
          status = ImportStatus.processing;
          started_at = some now;
          total_records = total_records;
          updated_at = now;
        })

  unfoldable pub mark_completed : ℕ → ℕ → Db js (Unit {0})
  unfolding update_both
  mark_completed job_id import_id =
      update_both job_id import_id (λ now j. record j { status = completed; updated_at = now })
        (λ now r. record r {
          status = ImportStatus.completed;
          completed_at = some now;
          updated_at = now;
        })

  unfoldable pub mark_failed : ℕ → ℕ → String → Db js (Unit {0})
  unfolding update_both
  mark_failed job_id import_id reason =
      update_both job_id import_id
        (λ now j. record j { status = failed; last_error = some reason; updated_at = now })
        (λ now r. record r {
          status = ImportStatus.failed;
          failure_reason = some reason;
          completed_at = some now;
          updated_at = now;
        })

  unfoldable pub mark_cancelled : ℕ → ℕ → Db js (Unit {0})
  unfolding update_both
  mark_cancelled job_id import_id =
      update_both job_id import_id (λ now j. record j { status = cancelled; updated_at = now })
        (λ now r. record r {
          status = ImportStatus.cancelled;
          completed_at = some now;
          updated_at = now;
        })
