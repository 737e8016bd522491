-- ===== src/Database/JobRepository/Examples.antt =====
-- A claim among a pending, a leased and a cancelled job.
use high_throughput_transact.Base.{◌∷◌, []}
use high_throughput_transact.Base.{◌>>=◌, false}
use high_throughput_transact.Domain.ImportStatus.{ImportStatus, can_transition}
use high_throughput_transact.Database.Table.{find}
use high_throughput_transact.Database.World.{ImportRow}
use high_throughput_transact.Database.Sample.{an_import, with_jobs}
use high_throughput_transact.Database.JobRepository.{
  update_both, update_job, update_import, mark_processing,
}
use high_throughput_transact.Database.JobRepository.Marks.{mark_processing-overwrites}
use high_throughput_transact.Base.{ℕ, ◌+◌, ◌≡◌, refl, ◌≢◌, inl, inr, false, some, arith, ok}
use high_throughput_transact.Js.Sample.{sample_js}
use high_throughput_transact.Database.Table.{Keyed}
use high_throughput_transact.Database.World.{JobStatus, JobRow, World}
use high_throughput_transact.Database.JobRepository.{
  ClaimedJob, is_claimable, claim_row, claim_next,
}
use high_throughput_transact.Database.JobRepository.Claims.{find_job, job_id_of}
use high_throughput_transact.Database.JobRepository.Leases.{
  claim_next-takes-IsOldest, claim_next-respects_lease, IsFree, IsFirst, IsGiven, IsHeld,
}
use high_throughput_transact.Database.JobRepository.Cancellation.{
  AllCancelling, QueueStep, QueueSteps, cancelling_is_final,
}
use high_throughput_transact.Database.Sample.{a_job, busy}
use high_throughput_transact.Database.Table.{update_where, find_where}
use high_throughput_transact.Database.World.{deliver, statement, wrapped}
use high_throughput_transact.Database.JobRepository.{
  claim_query, claim_candidate, oldest, older, is_pending, is_leased, is_expired,
}

busy-Keyed : Keyed job_id_of busy.tables.jobs
unfolding find_where
busy-Keyed = (refl, (refl, (refl, tt)))

abbrev given : ClaimedJob
given = record {
  id = 2;
  import_id = 1;
  status = JobStatus.claimed;
  attempt_count = 1;
  worker_id = 9;
}

busy-claim : (claim_next 9 30000 busy).0 ≡ ok (some given)
unfolding claim_next claim_query claim_candidate oldest older is_claimable is_pending is_leased
    is_expired claim_row deliver statement wrapped update_where
busy-claim = refl

claim_next-takes-IsOldest_example :
    let after = (claim_next 9 30000 busy).1.tables.jobs in
    (j : JobRow) × (find_job 2 busy.tables.jobs ≡ some j)
    × IsFree 100 j
    × IsFirst 100 j busy.tables.jobs
    × ((row : JobRow) × (find_job 2 after ≡ some row) × IsGiven 9 30000 100 j row)
    × (given ≡ record {
      id = j.id;
      import_id = j.import_id;
      status = JobStatus.claimed;
      attempt_count = j.attempt_count + 1;
      worker_id = 9;
    })
    × ((k : ℕ) → k ≢ 2 → find_job k after ≡ find_job k busy.tables.jobs)
claim_next-takes-IsOldest_example = claim_next-takes-IsOldest 9 30000 busy busy-Keyed busy-claim

job_3 : find_job 3 busy.tables.jobs ≡ some (a_job 3 JobStatus.processing (some 200))
unfolding find_where
job_3 = refl

job_3-IsHeld : IsHeld 100 (a_job 3 JobStatus.processing (some 200))
job_3-IsHeld = inl (inr refl, inr (200, refl, omega arith))

claim_next-respects_lease_example :
    find_job 3 (claim_next 9 30000 busy).1.tables.jobs
    ≡ some (a_job 3 JobStatus.processing (some 200))
claim_next-respects_lease_example =
    claim_next-respects_lease 9 30000 3 busy busy-Keyed job_3 job_3-IsHeld

job_4-AllCancelling : AllCancelling 4 busy.tables.jobs
job_4-AllCancelling = (λ e. absurd (omega arith), (λ e. absurd (omega arith), (λ e. refl, tt)))

abbrev later : World sample_js
later = (claim_next 9 30000 (record busy { now = busy.now + 500 })).1

cancelling_is_final_example :
    AllCancelling 4 later.tables.jobs
    × ((worker_id lease_ms : ℕ) (c : ClaimedJob)
        → (claim_next worker_id lease_ms later).0 ≡ ok (some c)
        → c.id ≢ 4)
cancelling_is_final_example = cancelling_is_final 4 {w = busy} {u = later} job_4-AllCancelling (
    QueueSteps.next (QueueSteps.next QueueSteps.here (QueueStep.waits 500))
      (QueueStep.claims 9 30000))

abbrev stopping : World sample_js
stopping =
    let w = with_jobs (a_job 2 JobStatus.claimed (some 200) ∷ []) in
    record w {
      tables = record (w.tables) {
        imports = record an_import { status = ImportStatus.cancelling } ∷ [];
      };
    }

stopping-found :
    find (λ (x : ImportRow). x.id) 1 stopping.tables.imports
    ≡ some (record an_import { status = ImportStatus.cancelling })
unfolding find_where
stopping-found = refl

stopping-mark : (mark_processing 2 1 50 stopping).0 ≡ ok tt
unfolding mark_processing update_both update_job update_import find_where deliver statement wrapped
    ◌>>=◌
stopping-mark = refl

mark_processing-overwrites_example :
    (can_transition ImportStatus.cancelling ImportStatus.processing ≡ false)
    × (find (λ (x : ImportRow). x.id) 1 (mark_processing 2 1 50 stopping).1.tables.imports
        ≡ some (record an_import {
          status = ImportStatus.processing;
          started_at = some 100;
          total_records = 50;
          updated_at = 100;
        }))
mark_processing-overwrites_example =
    mark_processing-overwrites 2 1 50 stopping
      (record an_import { status = ImportStatus.cancelling }) stopping-found stopping-mark
