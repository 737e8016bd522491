-- ===== src/Worker/Poller.antt =====
-- src/worker/job-poller.service.ts, over the job repository, the processing of a job, and what else
-- happens while the loop awaits: `polling` and `shutting_down` read flags that `stop` and the handler
-- of signals set in between.
pub mod Stopping
mod Examples
use high_throughput_transact.Base.{
  ℕ, zero, suc, ◌-◌, Bool, true, false, not, ◌&&◌, ◌||◌, Option, none, some, List, [], ◌∷◌, ltb,
  if◌then◌else◌, Result, ok, err,
}
use high_throughput_transact.Domain.Errors.{Attempt, Thrown, domain, shutdown_interrupted}
use high_throughput_transact.Database.JobRepository.{ClaimedJob}
use high_throughput_transact.Database.JobRepository.Recovery.{Reclaimed}
use high_throughput_transact.Processing.Ports.{Signal, info, warn, error}

pub record PollerPorts (S : Type 0) : Type 0 where
  pub claim_next : ℕ → ℕ → Attempt S (Option ClaimedJob)
  pub reclaim_expired_leases : ℕ → Attempt S Reclaimed
  pub release_lease : ℕ → ℕ → Attempt S (Unit {0})
  pub process : ClaimedJob → Attempt S (Unit {0})
  pub polling : S → Bool
  pub set_polling : Bool → S → S
  pub shutting_down : S → Bool
  pub date_now : S → ℕ
  pub sleep : ℕ → S → S
  pub signal : Signal → S → S

-- `LEASE_DURATION_MS`, `MAX_JOB_ATTEMPTS` and `RECLAIM_INTERVAL_MS`, read from the environment.
pub record PollerSettings : Type 0 where
  pub lease_duration_ms : ℕ
  pub max_job_attempts : ℕ
  pub reclaim_interval_ms : ℕ

abbrev pub poll_interval_ms : ℕ
poll_interval_ms = 2000

-- The fields of the service, with the jobs that were processed, the last one first, and how each
-- ended, which the code does not keep.
pub record Poller (S : Type 0) : Type 0 where
  pub current_job : Option ClaimedJob
  pub last_reclaim_at : ℕ
  pub outer : S
  pub processed : List (ClaimedJob × Result Thrown (Unit {0}))

unfoldable pub create_poller : {S : Type 0} → ℕ → S → Poller S
create_poller now s = record {
  current_job = none;
  last_reclaim_at = now;
  outer = s;
  processed = [];
}

-- `err instanceof ShutdownInterruptedError`
unfoldable pub is_shutdown_interrupted : Thrown → Bool
is_shutdown_interrupted (domain (shutdown_interrupted component) cause) = true
is_shutdown_interrupted _ = false

module _ {S : Type 0} (ports : PollerPorts S) (settings : PollerSettings) (worker_id : ℕ) where
  unfoldable pub log : Signal → Poller S → Poller S
  log signal p = record p { outer = ports.signal signal p.outer }

  unfoldable pub rest : Poller S → Poller S
  rest p = record p { outer = ports.sleep poll_interval_ms p.outer }

  unfoldable pub reclaimed : Result Thrown Reclaimed → Poller S → Poller S
  unfolding log
  reclaimed (ok r) p =
      if ltb 0 r.reset || ltb 0 r.failed_count
      then log (warn "Reclaimed jobs abandoned by crashed workers") p
      else p
  reclaimed (err e) p =
      log
        (error
          "LEASE RECLAIM FAILED — jobs from crashed workers may stay stuck until this is fixed")
        p

  -- `reclaim`: it never throws.
  unfoldable pub reclaim : Poller S → Poller S
  unfolding reclaimed
  reclaim p =
      let (r, s) = ports.reclaim_expired_leases settings.max_job_attempts p.outer in
      reclaimed r (record p { outer = s })

  unfoldable pub on_module_init : Poller S → Poller S
  unfolding reclaim
  on_module_init p = reclaim p

  -- `start`, up to the first turn of the loop.
  unfoldable pub start : Poller S → Poller S
  unfolding log
  start p =
      if ports.polling p.outer
      then p
      else log (info "Worker poller starting") (record p { outer = ports.set_polling true p.outer })

  -- No job was claimed.
  unfoldable pub idle_turn : Poller S → Poller S
  unfolding reclaim rest
  idle_turn p =
      let now = ports.date_now p.outer in
      rest (
        if ltb settings.reclaim_interval_ms (now - p.last_reclaim_at)
        then reclaim (record p { last_reclaim_at = now })
        else p)

  -- What follows the processing of a job; `true` is the `break`.
  unfoldable pub after_process : Result Thrown (Unit {0}) → Poller S → Poller S × Bool
  unfolding log
  after_process (ok a) p = (record p { current_job = none }, false)
  after_process (err e) p =
      if is_shutdown_interrupted e
      then (log (info "Job interrupted by shutdown; lease will be released") p, true)
      else (log (error "Unexpected error escaped job processing") p, false)

  unfoldable pub work : ClaimedJob → Poller S → Poller S × Bool
  unfolding after_process log
  work job p =
      let q = log (info "Claimed job") (record p { current_job = some job }) in
      let (r, s) = ports.process job q.outer in
      after_process r (record q { outer = s; processed = (job, r) ∷ q.processed })

  unfoldable pub after_claim : Result Thrown (Option ClaimedJob) → Poller S → Poller S × Bool
  unfolding rest log idle_turn work
  after_claim (err e) p =
      (rest (log (error "Failed to claim next job; retrying after interval") p), false)
  after_claim (ok none) p = (idle_turn p, false)
  after_claim (ok (some job)) p = work job p

  -- One turn of the loop.
  unfoldable pub turn : Poller S → Poller S × Bool
  unfolding after_claim
  turn p =
      let (r, s) = ports.claim_next worker_id settings.lease_duration_ms p.outer in
      after_claim r (record p { outer = s })

  unfoldable pub keeps_polling : Poller S → Bool
  keeps_polling p = ports.polling p.outer && not (ports.shutting_down p.outer)

  -- `loop`, for so many turns; `none` where it goes on.
  unfoldable pub loop : ℕ → Poller S → Option (Poller S)
  unfolding turn keeps_polling
  loop zero p = none
  loop (suc n) p = elim (keeps_polling p) [
    | false ↦ some p
    | true ↦ elim (turn p).1 [ true ↦ some (turn p).0 | false ↦ loop n (turn p).0 ]
  ]

  unfoldable pub released : Result Thrown (Unit {0}) → Poller S → Poller S
  unfolding log
  released (ok a) p = p
  released (err e) p =
      log (error "Failed to release lease during shutdown; it will expire naturally") p

  unfoldable pub release_job : ClaimedJob → Poller S → Poller S
  unfolding released log
  release_job job p =
      let q = log (warn "Releasing lease on unfinished job during shutdown") p in
      let (r, s) = ports.release_lease job.id worker_id q.outer in
      record (released r (record q { outer = s })) { current_job = none }

  -- `stop`, once it has cleared `polling` and the loop has ended.
  unfoldable pub stop : Poller S → Poller S
  unfolding release_job log
  stop p =
      log (info "Worker poller stopped")
        (elim p.current_job [ none ↦ p | some job ↦ release_job job p ])
