-- ===== src/Database/JobRepository/Leases.antt =====
-- Which jobs `claimNext` of src/infrastructure/repository/job.repository.ts may take, said of the rows
-- themselves, and the lease that it gives.
use high_throughput_transact.Base.{
  ℕ, ◌+◌, ◌*◌, ◌%◌, ◌&&◌, ◌||◌, ltb→lt, ◌≤◌, ◌<◌, ◌≡◌, refl, ◌≢◌, ◌⊎◌, inl, inr, true, false,
  Option, none, some, List, arith, All, All-map, ok,
}
use high_throughput_transact.Js.{Js}
use high_throughput_transact.Database.Table.{Keyed}
use high_throughput_transact.Database.World.{
  JobStatus, pending, claimed, processing, cancelling, completed, failed, cancelled, JobRow, World,
}
use high_throughput_transact.Database.JobRepository.{
  ClaimedJob, is_claimable, is_expired, is_leased, is_pending, lease_seconds, claim_row, claim_next,
}
use high_throughput_transact.Database.JobRepository.Claims.{
  job_id_of, find_job, IsOldest, claim_next-found, claim_next-kept,
}

-- A worker has taken the job.
abbrev pub IsTaken : JobStatus → Type 0
IsTaken s = (s ≡ claimed) ⊎ (s ≡ processing)

-- The job waits, or its worker has let the lease run out.
abbrev pub IsFree : ℕ → JobRow → Type 0
IsFree now j =
    (j.status ≡ pending)
    ⊎ (IsTaken j.status × ((until : ℕ) × (j.leased_until ≡ some until) × (until < now)))

-- The job is under a lease that has not run out, or it is being cancelled or has ended.
abbrev pub IsHeld : ℕ → JobRow → Type 0
IsHeld now j =
    (IsTaken j.status
      × ((j.leased_until ≡ none) ⊎ ((until : ℕ) × (j.leased_until ≡ some until) × (now ≤ until))))
    ⊎ (j.status ≡ cancelling)
    ⊎ (j.status ≡ completed)
    ⊎ (j.status ≡ failed)
    ⊎ (j.status ≡ cancelled)

-- No free job is older.
abbrev pub IsFirst : ℕ → JobRow → List JobRow → Type 0
IsFirst now j = All (λ (r : JobRow). IsFree now r → j.created_at ≤ r.created_at)

free_of_tests :
    (now : ℕ) (s : JobStatus) (l : Option ℕ)
    → (is_pending s || (is_leased s && is_expired now l)) ≡ true
    → (s ≡ pending) ⊎ (IsTaken s × ((until : ℕ) × (l ≡ some until) × (until < now)))
unfolding is_expired is_leased is_pending
free_of_tests now pending l h = inl refl
free_of_tests now claimed none h = cc
free_of_tests now claimed (some until) h = inr (inl refl, (until, refl, ltb→lt until now h))
free_of_tests now processing none h = cc
free_of_tests now processing (some until) h = inr (inr refl, (until, refl, ltb→lt until now h))
free_of_tests now cancelling l h = cc
free_of_tests now completed l h = cc
free_of_tests now failed l h = cc
free_of_tests now cancelled l h = cc

claimable-IsFree : (now : ℕ) (j : JobRow) → is_claimable now j ≡ true → IsFree now j
unfolding is_claimable
claimable-IsFree now j h = free_of_tests now j.status j.leased_until h

IsFree-claimable : (now : ℕ) (j : JobRow) → IsFree now j → is_claimable now j ≡ true
unfolding is_claimable is_expired is_leased is_pending
IsFree-claimable now j (inl p) = rw p refl
IsFree-claimable now j (inr (inl c, (until, l, e))) = rw c (rw l (ground arith))
IsFree-claimable now j (inr (inr c, (until, l, e))) = rw c (rw l (ground arith))

-- A job that is held is not free.
IsHeld-refused : (now : ℕ) (j : JobRow) → IsHeld now j → is_claimable now j ≡ false
unfolding is_claimable is_expired is_leased is_pending
IsHeld-refused now j (inl (inl c, inl l)) = rw c (rw l refl)
IsHeld-refused now j (inl (inl c, inr (until, l, e))) = rw c (rw l (ground arith))
IsHeld-refused now j (inl (inr c, inl l)) = rw c (rw l refl)
IsHeld-refused now j (inl (inr c, inr (until, l, e))) = rw c (rw l (ground arith))
IsHeld-refused now j (inr (inl s)) = rw s refl
IsHeld-refused now j (inr (inr (inl s))) = rw s refl
IsHeld-refused now j (inr (inr (inr (inl s)))) = rw s refl
IsHeld-refused now j (inr (inr (inr (inr s)))) = rw s refl

-- The length of a lease: whole seconds, rounded up, and one at least.
abbrev pub IsLease : ℕ → ℕ → Type 0
IsLease lease_ms n =
    (lease_ms ≤ n) × (1000 ≤ n) × ((n ≡ 1000) ⊎ (n < lease_ms + 1000)) × (n % 1000 ≡ 0)

lease_seconds-IsLease : (lease_ms : ℕ) → IsLease lease_ms (lease_seconds lease_ms * 1000)
unfolding lease_seconds
lease_seconds-IsLease lease_ms = omega arith

-- The row of a job that has been given to a worker at a time: one more attempt, and a lease to that
-- worker from that time on.
abbrev pub IsGiven : ℕ → ℕ → ℕ → JobRow → JobRow → Type 0
IsGiven worker_id lease_ms now j row =
    (n : ℕ) × IsLease lease_ms n
    × (row ≡ record {
      id = j.id;
      import_id = j.import_id;
      status = claimed;
      attempt_count = j.attempt_count + 1;
      leased_by = some worker_id;
      leased_until = some (now + n);
      last_error = j.last_error;
      created_at = j.created_at;
      updated_at = now;
    })

claim_row-IsGiven :
    (worker_id lease_ms now : ℕ) (j : JobRow)
    → IsGiven worker_id lease_ms now j (claim_row worker_id lease_ms now j)
unfolding claim_row
claim_row-IsGiven worker_id lease_ms now j =
    (lease_seconds lease_ms * 1000, lease_seconds-IsLease lease_ms, refl)

IsOldest-IsFirst :
    (now : ℕ) (j : JobRow) (rows : List JobRow)
    → IsOldest (is_claimable now) j rows
    → IsFirst now j rows
IsOldest-IsFirst now j rows o =
    All-map
      (λ (r : JobRow) (old : is_claimable now r ≡ true → j.created_at ≤ r.created_at).
        (λ (free : IsFree now r). old (IsFree-claimable now r free)))
      rows o

module _ {js : Js} where
  -- Where job ids are unique, a claim that returns a job returns one that was free at that time,
  -- that is pending or taken under a lease that had run out, and no free job is older. The job's row
  -- becomes claimed, with the worker as its holder, one more attempt, and a lease from now on that
  -- lasts the requested duration, in whole seconds, rounded up and one at least; the result names
  -- the job, its import, that status, that attempt and the worker; and every other row is kept.
  pub claim_next-takes-IsOldest :
      (worker_id lease_ms : ℕ) (w : World js) {c : ClaimedJob}
      → Keyed job_id_of w.tables.jobs
      → (claim_next worker_id lease_ms w).0 ≡ ok (some c)
      → let after = (claim_next worker_id lease_ms w).1.tables.jobs in
        (j : JobRow) × (find_job c.id w.tables.jobs ≡ some j)
        × IsFree w.now j
        × IsFirst w.now j w.tables.jobs
        × ((row : JobRow) × (find_job c.id after ≡ some row)
            × IsGiven worker_id lease_ms w.now j row)
        × (c ≡ record {
          id = j.id;
          import_id = j.import_id;
          status = claimed;
          attempt_count = j.attempt_count + 1;
          worker_id = worker_id;
        })
        × ((k : ℕ) → k ≢ c.id → find_job k after ≡ find_job k w.tables.jobs)
  unfolding claim_row
  claim_next-takes-IsOldest worker_id lease_ms w {c} u h =
      let (j, found, free, first, row, eq, others) = claim_next-found worker_id lease_ms w u h in
      (
        j,
        found,
        claimable-IsFree w.now j free,
        IsOldest-IsFirst w.now j w.tables.jobs first,
        (claim_row worker_id lease_ms w.now j, row, claim_row-IsGiven worker_id lease_ms w.now j),
        eq,
        others,
      )

  -- A claim leaves alone, whatever the connection does, the row of a job that is taken without an
  -- end of its lease or under a lease that has not run out yet, that is being cancelled, or that
  -- has ended.
  pub claim_next-respects_lease :
      (worker_id lease_ms k : ℕ) (w : World js) {j : JobRow}
      → Keyed job_id_of w.tables.jobs
      → find_job k w.tables.jobs ≡ some j
      → IsHeld w.now j
      → find_job k (claim_next worker_id lease_ms w).1.tables.jobs ≡ some j
  claim_next-respects_lease worker_id lease_ms k w {j} u h held =
      claim_next-kept worker_id lease_ms k w u h (IsHeld-refused w.now j held)
