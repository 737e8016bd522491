-- ===== src/Database/JobRepository/Recovery.antt =====
-- JobRepository.releaseLease and reclaimExpiredLeases: jobs come back to the queue.
use high_throughput_transact.Base.{
  ℕ, String, Bool, true, false, ◌&&◌, Option, none, some, List, [], ◌∷◌, map, ltb, leb,
  if◌then◌else◌, length, keep, elem, ok, pure, ◌>>=◌, ◌>>◌,
}
use high_throughput_transact.Js.{Js}
use high_throughput_transact.Domain.ImportStatus.{ImportStatus}
use high_throughput_transact.Database.Table.{update_where, count_where, find}
use high_throughput_transact.Database.World.{
  pending, failed, ImportRow, JobRow, Db, Query, statement, transaction, wrapped, current_time,
}
use high_throughput_transact.Database.JobRepository.{is_expired, is_leased, holds_lease}

abbrev pub free_row : ℕ → JobRow → JobRow
free_row now j = record j {
  status = pending;
  leased_by = none;
  leased_until = none;
  updated_at = now;
}

-- `{ id, leasedBy: workerId, status: { in: ['CLAIMED', 'PROCESSING'] } }`
unfoldable pub is_releasable : ℕ → ℕ → JobRow → Bool
unfolding holds_lease is_leased
is_releasable job_id worker_id j = holds_lease job_id worker_id j && is_leased j.status

abbrev is_processing : ImportStatus → Bool
is_processing ImportStatus.processing = true
is_processing _ = false

-- `{ id: { in: ids }, status: 'PROCESSING' }` on the imports.
abbrev reopens : List ℕ → ImportRow → Bool
reopens ids r = elem r.id ids && is_processing r.status

abbrev reopen_row : ℕ → ImportRow → ImportRow
reopen_row now r = record r { status = ImportStatus.pending; updated_at = now }

abbrev pub job_ids : List JobRow → List ℕ
job_ids = map λ (j : JobRow). j.id

abbrev pub job_import_ids : List JobRow → List ℕ
job_import_ids = map λ (j : JobRow). j.import_id

pub record Reclaimed : Type 0 where
  pub reset : ℕ
  pub failed_count : ℕ

abbrev failure_reason : String
failure_reason = "Abandoned by a crashed worker; exceeded max attempts."

-- The row of an abandoned job that has used up its attempts, and of its import.
unfoldable pub abandon_job : ℕ → JobRow → JobRow
abandon_job now j = record j {
  status = failed;
  leased_by = none;
  leased_until = none;
  last_error = some failure_reason;
  updated_at = now;
}

unfoldable pub abandon_import : ℕ → ImportRow → ImportRow
abandon_import now r = record r {
  status = ImportStatus.failed;
  failure_reason = some failure_reason;
  completed_at = some now;
  updated_at = now;
}

-- The `findMany` of `reclaimExpiredLeases`.
unfoldable pub is_abandoned : ℕ → JobRow → Bool
unfolding is_leased is_expired
is_abandoned now j = is_leased j.status && is_expired now j.leased_until

module _ {js : Js} where
  unfoldable pub release_query : ℕ → ℕ → ℕ → Query js ℕ
  unfolding is_releasable
  release_query job_id worker_id now t = (
    ok (count_where (is_releasable job_id worker_id) t.jobs),
    record t { jobs = update_where (is_releasable job_id worker_id) (free_row now) t.jobs },
  )

  unfoldable pub reopen_query : List ℕ → ℕ → Query js (Unit {0})
  reopen_query ids now t =
      (ok tt, record t { imports = update_where (reopens ids) (reopen_row now) t.imports })

  unfoldable pub reopen_import : Option JobRow → ℕ → Db js (Unit {0})
  unfolding reopen_query
  reopen_import none now = pure tt
  reopen_import (some j) now = statement (reopen_query (j.import_id ∷ []) now)

  unfoldable pub release_lease : ℕ → ℕ → Db js (Unit {0})
  unfolding release_query reopen_import
  release_lease job_id worker_id = wrapped "JobRepository.releaseLease" do
    now ← current_time
    released ← statement (release_query job_id worker_id now)
    if ltb 0 released
        then (statement (λ t. (ok (find (λ (j : JobRow). j.id) job_id t.jobs), t)) >>= λ job.
            reopen_import job now)
        else pure tt

  unfoldable pub fail_jobs : List JobRow → ℕ → Db js (Unit {0})
  unfolding abandon_job abandon_import
  fail_jobs [] now = pure tt
  fail_jobs to_fail now = do
    statement λ t. (
      ok tt,
      record t { jobs = update_where (λ j. elem j.id (job_ids to_fail)) (abandon_job now) t.jobs },
    )
    statement λ t. (
      ok tt,
      record t {
        imports =
            update_where (λ r. elem r.id (job_import_ids to_fail)) (abandon_import now) t.imports;
      },
    )

  unfoldable pub reset_jobs : List JobRow → ℕ → Db js (Unit {0})
  unfolding reopen_query
  reset_jobs [] now = pure tt
  reset_jobs to_reset now = do
    statement λ t. (
      ok tt,
      record t { jobs = update_where (λ j. elem j.id (job_ids to_reset)) (free_row now) t.jobs },
    )
    statement (reopen_query (job_import_ids to_reset) now)

  -- The transaction over the jobs that were found.
  unfoldable pub reclaim_found : ℕ → List JobRow → ℕ → Db js Reclaimed
  unfolding fail_jobs reset_jobs
  reclaim_found max_attempts [] now = pure (record { reset = 0; failed_count = 0 })
  reclaim_found max_attempts expired now =
      let to_fail = keep (λ (j : JobRow). leb max_attempts j.attempt_count) expired in
      let to_reset = keep (λ (j : JobRow). ltb j.attempt_count max_attempts) expired in
      transaction (fail_jobs to_fail now >> reset_jobs to_reset now)
      >> pure (record { reset = length to_reset; failed_count = length to_fail })

  -- The `findMany`, a statement of its own before the transaction.
  unfoldable pub find_abandoned : ℕ → Db js (List JobRow)
  unfolding is_abandoned
  find_abandoned now = statement λ t. (ok (keep (is_abandoned now) t.jobs), t)

  unfoldable pub reclaim_expired_leases : ℕ → Db js Reclaimed
  unfolding reclaim_found find_abandoned
  reclaim_expired_leases max_attempts =
      wrapped "JobRepository.reclaimExpiredLeases"
        do now ← current_time; expired ← find_abandoned now; reclaim_found max_attempts expired now
