-- ===== src/Worker/Poller/Stopping.antt =====
-- Which job `stop` releases, and that nothing is claimed after an interruption.
use high_throughput_transact.Base.{
  ℕ, zero, suc, ◌-◌, ◌||◌, ltb, ◌≡◌, refl, sym, ap, ◌∙◌, subst, ◌⊎◌, inl, inr, Bool, true, false,
  Option, none, some, List, [], ◌∷◌, if_rule, Bool-cases, Result, ok, err,
}
use high_throughput_transact.Domain.Errors.{Thrown}
use high_throughput_transact.Database.JobRepository.{ClaimedJob}
use high_throughput_transact.Database.JobRepository.Recovery.{Reclaimed}
use high_throughput_transact.Processing.Ports.{Signal, info, warn, error}
use high_throughput_transact.Worker.Poller.{
  PollerPorts, PollerSettings, Poller, create_poller, log, rest, reclaimed, reclaim, idle_turn,
  after_process, is_shutdown_interrupted, work, after_claim, turn, keeps_polling, loop, released,
  release_job, stop,
}

abbrev Outcome : Type 0
Outcome = Result Thrown (Unit {0})

-- The job that was processed last, if its processing threw.
abbrev pub unfinished : List (ClaimedJob × Outcome) → Option ClaimedJob
unfinished [] = none
unfinished ((job, ok a) ∷ earlier) = none
unfinished ((job, err e) ∷ earlier) = some job

abbrev pub is_interruption : Outcome → Bool
is_interruption (ok a) = false
is_interruption (err e) = is_shutdown_interrupted e

abbrev pub Uninterrupted : List (ClaimedJob × Outcome) → Type 0
Uninterrupted [] = Unit {0}
Uninterrupted ((job, r) ∷ earlier) = (is_interruption r ≡ false) × Uninterrupted earlier

-- An interruption can only be the last entry.
abbrev pub InterruptedLast : List (ClaimedJob × Outcome) → Type 0
InterruptedLast [] = Unit {0}
InterruptedLast ((job, r) ∷ earlier) = Uninterrupted earlier

Uninterrupted-last : (js : List (ClaimedJob × Outcome)) → Uninterrupted js → InterruptedLast js
Uninterrupted-last [] u = tt
Uninterrupted-last ((job, r) ∷ js) u = u.1

some_injective : {A : Type 0} {a b : A} → some a ≡ some b → a ≡ b
some_injective e = cc

module _ {S : Type 0} where
  -- What a turn leaves alone where no job is claimed.
  record Same (p q : Poller S) : Type 0 where
    current : q.current_job ≡ p.current_job
    history : q.processed ≡ p.processed

  -- What holds between turns, and once the loop has ended.
  record Tracks (p : Poller S) : Type 0 where
    current : p.current_job ≡ unfinished p.processed
    clean : Uninterrupted p.processed

  record Ended (p : Poller S) : Type 0 where
    current : p.current_job ≡ unfinished p.processed
    last : InterruptedLast p.processed

  Same-Tracks : {p q : Poller S} → Same p q → Tracks p → Tracks q
  Same-Tracks s t = record {
    current = s.current ∙ t.current ∙ ap unfinished (sym s.history);
    clean = subst Uninterrupted (sym s.history) t.clean;
  }

  Tracks-Ended : {p : Poller S} → Tracks p → Ended p
  Tracks-Ended {p} t = record { current = t.current; last = Uninterrupted-last p.processed t.clean }

module _ {S : Type 0} (ports : PollerPorts S) (settings : PollerSettings) (worker_id : ℕ) where
  Same-refl : (p : Poller S) → Same p p
  Same-refl p = record { current = refl; history = refl }

  Same-log : (signal : Signal) (p : Poller S) → Same p (log ports settings worker_id signal p)
  unfolding log
  Same-log signal p = record { current = refl; history = refl }

  reclaimed-Same :
      (r : Result Thrown Reclaimed) (p : Poller S) → Same p (reclaimed ports settings worker_id r p)
  unfolding reclaimed log
  reclaimed-Same (ok r) p =
      if_rule (Same p) (ltb 0 r.reset || ltb 0 r.failed_count) (Same-log _ p) (Same-refl p)
  reclaimed-Same (err e) p = Same-log _ p

  idle_turn-Same : (p : Poller S) → Same p (idle_turn ports settings worker_id p)
  unfolding idle_turn reclaim rest
  idle_turn-Same p =
      let now = ports.date_now p.outer in
      let (r, s) = ports.reclaim_expired_leases settings.max_job_attempts p.outer in
      let k = reclaimed-Same r (record p { last_reclaim_at = now; outer = s }) in
      let chosen =
        if_rule (Same p) (ltb settings.reclaim_interval_ms (now - p.last_reclaim_at))
          (record { current = k.current; history = k.history }) (Same-refl p) in
      record { current = chosen.current; history = chosen.history }

  -- A turn that does not break keeps the account; one that breaks ends it.
  record Turned (q : Poller S × Bool) : Type 0 where
    outcome : ((q.1 ≡ false) × Tracks q.0) ⊎ ((q.1 ≡ true) × Ended q.0)

  after_process-Turned :
      (r : Outcome) (job : ClaimedJob) (earlier : List (ClaimedJob × Outcome)) (p : Poller S)
      → p.current_job ≡ some job
      → p.processed ≡ (job, r) ∷ earlier
      → Uninterrupted earlier
      → Turned (after_process ports settings worker_id r p)
  unfolding after_process log
  after_process-Turned (ok a) job earlier p c h u = record {
    outcome = inl (refl, record { current = rw h refl; clean = rw h (refl, u) });
  }
  after_process-Turned (err e) job earlier p c h u = elim (Bool-cases (is_shutdown_interrupted e)) [
    | inl i ↦ rw i (record { outcome = inr (refl, record { current = rw h c; last = rw h u }) })
    | inr i ↦
        rw i (record { outcome = inl (refl, record { current = rw h c; clean = rw h (i, u) }) })
  ]

  work-Turned :
      (job : ClaimedJob) (p : Poller S) → Tracks p → Turned (work ports settings worker_id job p)
  unfolding work log
  work-Turned job p t = after_process-Turned _ job p.processed _ refl refl t.clean

  after_claim-Turned :
      (r : Result Thrown (Option ClaimedJob)) (p : Poller S)
      → Tracks p
      → Turned (after_claim ports settings worker_id r p)
  unfolding after_claim rest log
  after_claim-Turned (err e) p t = record {
    outcome = inl (refl, record { current = t.current; clean = t.clean });
  }
  after_claim-Turned (ok none) p t = record {
    outcome = inl (refl, Same-Tracks (idle_turn-Same p) t);
  }
  after_claim-Turned (ok (some job)) p t = work-Turned job p t

  turn-Turned : (p : Poller S) → Tracks p → Turned (turn ports settings worker_id p)
  unfolding turn
  turn-Turned p t = after_claim-Turned _ _ (record { current = t.current; clean = t.clean })

  loop-Ended :
      (n : ℕ) (p : Poller S) {q : Poller S}
      → Tracks p
      → loop ports settings worker_id n p ≡ some q
      → Ended q
  unfolding loop
  loop-Ended zero p t e = cc
  loop-Ended (suc n) p {q} t e = elim (Bool-cases (keeps_polling ports settings worker_id p)) [
    | inr stopped ↦
        let same : p ≡ q = some_injective (rw (stopped, loop) at e) in
        subst Ended same (Tracks-Ended t)
    | inl on ↦ elim (turn-Turned p t).outcome [
      | inl (goes_on, t') ↦ loop-Ended n _ t' (rw (on, goes_on, loop) at e)
      | inr (breaks, ended) ↦
          let same = some_injective (rw (on, breaks, loop) at e) in subst Ended same ended
    ]
  ]

  -- The state after `releaseLease` was called for a job, with the log lines around it.
  abbrev pub after_release : ClaimedJob → S → S
  after_release job s =
      let (r, s') =
        ports.release_lease job.id worker_id
          (ports.signal (warn "Releasing lease on unfinished job during shutdown") s) in
      elim r [
        | ok a ↦ s'
        | err e ↦
            ports.signal (error "Failed to release lease during shutdown; it will expire naturally")
              s'
      ]

  abbrev pub said_stopped : S → S
  said_stopped = ports.signal (info "Worker poller stopped")

  released-outer :
      (r : Result Thrown (Unit {0})) (p : Poller S)
      → (released ports settings worker_id r p).outer ≡ elim r [
        | ok a ↦ p.outer
        | err e ↦
            ports.signal
              (error "Failed to release lease during shutdown; it will expire naturally")
              p.outer
      ]
  unfolding released log
  released-outer (ok a) p = refl
  released-outer (err e) p = refl

  release_job-outer :
      (job : ClaimedJob) (p : Poller S)
      → (release_job ports settings worker_id job p).outer ≡ after_release job p.outer
  unfolding release_job log
  release_job-outer job p =
      let s = ports.signal (warn "Releasing lease on unfinished job during shutdown") p.outer in
      let (r, s') = ports.release_lease job.id worker_id s in
      released-outer r (record p { outer = s' })

  stop-none :
      (p : Poller S)
      → p.current_job ≡ none
      → ((stop ports settings worker_id p).current_job ≡ none)
        × ((stop ports settings worker_id p).outer ≡ said_stopped p.outer)
  unfolding stop log
  stop-none p c = (rw c c, rw c refl)

  stop-some :
      (job : ClaimedJob) (p : Poller S)
      → p.current_job ≡ some job
      → ((stop ports settings worker_id p).current_job ≡ none)
        × ((stop ports settings worker_id p).outer ≡ said_stopped (after_release job p.outer))
  unfolding stop log release_job
  stop-some job p c = (rw c refl, rw c (ap said_stopped (release_job-outer job p)))

  -- When the loop has ended, at most the last of the jobs that it processed was interrupted by the
  -- shutdown. `stop` calls `releaseLease` once, for the job that was processed last, if that
  -- processing threw; it releases nothing if it ended well or if no job was processed; and
  -- afterwards no job is current.
  pub stop_releases :
      (n now : ℕ) (s : S) {p : Poller S}
      → loop ports settings worker_id n (create_poller now s) ≡ some p
      → InterruptedLast p.processed
        × ((stop ports settings worker_id p).current_job ≡ none)
        × (((unfinished p.processed ≡ none)
              × ((stop ports settings worker_id p).outer ≡ said_stopped p.outer))
            ⊎ ((job : ClaimedJob) × (unfinished p.processed ≡ some job)
                × ((stop ports settings worker_id p).outer
                    ≡ said_stopped (after_release job p.outer))))
  unfolding create_poller
  stop_releases n now s {p} h =
      let e = loop-Ended n (create_poller now s) (record { current = refl; clean = tt }) h in
      go p.current_job refl e
    where
      go :
          (o : Option ClaimedJob)
          → p.current_job ≡ o
          → Ended p
          → InterruptedLast p.processed
            × ((stop ports settings worker_id p).current_job ≡ none)
            × (((unfinished p.processed ≡ none)
                  × ((stop ports settings worker_id p).outer ≡ said_stopped p.outer))
                ⊎ ((job : ClaimedJob) × (unfinished p.processed ≡ some job)
                    × ((stop ports settings worker_id p).outer
                        ≡ said_stopped (after_release job p.outer))))
      go none c e =
          let (idle, outer) = stop-none p c in (e.last, idle, inl (sym e.current ∙ c, outer))
      go (some job) c e =
          let (idle, outer) = stop-some job p c in
          (e.last, idle, inr (job, sym e.current ∙ c, outer))
