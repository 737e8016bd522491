-- ===== src/Worker/Poller/Examples.antt =====
-- A poller that claims one job, whose processing the shutdown interrupts. The state counts the calls.
use high_throughput_transact.Base.{ℕ, ◌+◌, ◌≡◌, refl, ◌⊎◌, true, false, none, some, ok, err}
use high_throughput_transact.Domain.Errors.{domain, shutdown_interrupted, plain}
use high_throughput_transact.Database.World.{JobStatus}
use high_throughput_transact.Database.JobRepository.{ClaimedJob}
use high_throughput_transact.Worker.Poller.{
  PollerPorts, PollerSettings, Poller, create_poller, turn, loop, stop, is_shutdown_interrupted,
}
use high_throughput_transact.Worker.Poller.Stopping.{
  InterruptedLast, unfinished, said_stopped, after_release, stop_releases,
}

abbrev the_job : ClaimedJob
the_job = record {
  id = 2;
  import_id = 1;
  status = JobStatus.claimed;
  attempt_count = 1;
  worker_id = 9;
}

abbrev ports : PollerPorts ℕ
ports = record {
  claim_next = λ worker lease s. (ok (some the_job), s + 1);
  reclaim_expired_leases = λ attempts s. (ok (record { reset = 0; failed_count = 0 }), s + 1);
  release_lease = λ job worker s. (ok tt, s + 100);
  process = λ job s. (err (domain (shutdown_interrupted "worker") plain), s + 1);
  polling = λ s. true;
  set_polling = λ b s. s;
  shutting_down = λ s. false;
  date_now = λ s. s;
  sleep = λ ms s. s;
  signal = λ signal s. s;
}

abbrev settings : PollerSettings
settings = record { lease_duration_ms = 120000; max_job_attempts = 3; reclaim_interval_ms = 30000 }

abbrev interrupted : Poller ℕ
interrupted = (turn ports settings 9 (create_poller 0 0)).0

stop_releases_example :
    InterruptedLast interrupted.processed
    × ((stop ports settings 9 interrupted).current_job ≡ none)
    × (((unfinished interrupted.processed ≡ none)
          × ((stop ports settings 9 interrupted).outer
              ≡ said_stopped ports settings 9 interrupted.outer))
        ⊎ ((job : ClaimedJob) × (unfinished interrupted.processed ≡ some job)
            × ((stop ports settings 9 interrupted).outer
                ≡ said_stopped ports settings 9
                    (after_release ports settings 9 job interrupted.outer))))
unfolding loop turn create_poller is_shutdown_interrupted
stop_releases_example = stop_releases ports settings 9 1 0 0 refl
