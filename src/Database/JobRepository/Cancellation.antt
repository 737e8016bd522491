-- ===== src/Database/JobRepository/Cancellation.antt =====
-- What becomes of a job after its import is flagged for cancellation.
use high_throughput_transact.Base.{
  ℕ, ◌+◌, ◌≡◌, refl, sym, ap, ◌∙◌, subst, ◌≢◌, inl, inr, Bool, true, false, Option, none, some,
  List, [], ◌∷◌, arith, ltb, leb, ==_iff, Bool-cases, keep, All, elem, ok,
}
use high_throughput_transact.Js.{Js}
use high_throughput_transact.Database.Table.{update_where, All-update_where}
use high_throughput_transact.Database.World.{cancelling, JobRow, Tables, World, statement}
use high_throughput_transact.Database.World.Contracts.{
  Ensures, Any, Ensures-pure, Ensures-current_time, Ensures-statement, Ensures-bind,
  Ensures-transaction, Ensures-wrapped, Ensures-if, Ensures-update, Ensures-clocked,
}
use high_throughput_transact.Database.JobRepository.{
  ClaimedJob, is_claimable, claim_row, has_id, claim_next, renew_query, renew_lease,
}
use high_throughput_transact.Database.JobRepository.Recovery.{
  is_releasable, release_lease, reopen_query, reopen_import, is_abandoned, fail_jobs, reset_jobs,
  reclaim_found, find_abandoned, reclaim_expired_leases, abandon_job, free_row, job_ids,
  job_import_ids,
}
use high_throughput_transact.Database.JobRepository.Claims.{
  claim_next-jobs, claim_next-Picks, oldest-All, claim_row-id,
}

-- Every row of job `k` is in status cancelling.
abbrev pub AllCancelling : ℕ → List JobRow → Type 0
AllCancelling k = All (λ (j : JobRow). j.id ≡ k → j.status ≡ cancelling)

-- An update that leaves such rows alone keeps them so.
update-AllCancelling :
    (k : ℕ) (p : JobRow → Bool) (f : JobRow → JobRow) (rs : List JobRow)
    → ((j : JobRow) → (f j).id ≡ j.id)
    → ((j : JobRow) → p j ≡ true → j.id ≡ k → j.status ≡ cancelling → ⊥)
    → AllCancelling k rs
    → AllCancelling k (update_where p f rs)
update-AllCancelling k p f rs keeps off c =
    All-update_where (λ (j : JobRow). j.id ≡ k → j.status ≡ cancelling) p f rs
      (λ j t h e. absurd (off j t (sym (keeps j) ∙ e) (h (sym (keeps j) ∙ e)))) c

not_claimable : (now : ℕ) (j : JobRow) → is_claimable now j ≡ true → j.status ≡ cancelling → ⊥
unfolding is_claimable
not_claimable now j c s = ground arith

not_releasable :
    (job_id worker_id : ℕ) (j : JobRow)
    → is_releasable job_id worker_id j ≡ true
    → j.status ≡ cancelling
    → ⊥
unfolding is_releasable
not_releasable job_id worker_id j c s = ground arith

not_abandoned : (now : ℕ) (j : JobRow) → is_abandoned now j ≡ true → j.status ≡ cancelling → ⊥
unfolding is_abandoned
not_abandoned now j c s = ground arith

elem-keep :
    (k : ℕ) (p : JobRow → Bool) (rs : List JobRow)
    → elem k (job_ids rs) ≡ false
    → elem k (job_ids (keep p rs)) ≡ false
elem-keep k p [] h = refl
elem-keep k p (r ∷ rs) h = ground (arith, elem-keep k p rs)

found-free :
    (k now : ℕ) (rs : List JobRow)
    → AllCancelling k rs
    → elem k (job_ids (keep (is_abandoned now) rs)) ≡ false
found-free k now [] h = refl
found-free k now (r ∷ rs) h = elim (Bool-cases (is_abandoned now r)) [
  | inl t ↦
      let other : r.id ≢ k = λ e. not_abandoned now r t (h.0 e) in
      rw t (ground (arith, found-free k now rs h.1))
  | inr f ↦ rw f (found-free k now rs h.1)
]

module _ {js : Js} (k : ℕ) where
  abbrev Frozen : Tables js → Type 0
  Frozen t = AllCancelling k t.jobs

  claim-Frozen :
      (worker_id lease_ms : ℕ) (w : World js)
      → AllCancelling k w.tables.jobs
      → AllCancelling k (claim_next worker_id lease_ms w).1.tables.jobs
  claim-Frozen worker_id lease_ms w f = elim (claim_next-jobs worker_id lease_ms w) [
    | inl same ↦ rw same f
    | inr (c, picks, first, t) ↦ rw (ap (λ (x : Tables js). x.jobs) t) (
        update-AllCancelling k (has_id c.id) (claim_row worker_id lease_ms w.now) w.tables.jobs
          (claim_row-id worker_id lease_ms w.now)
          (λ r hit at_k s.
            let (claimable, at_c) = oldest-All _ (is_claimable w.now) w.tables.jobs f first in
            let same : r.id ≡ c.id = (==_iff r.id c.id).0 hit in
            not_claimable w.now c claimable (at_c (sym same ∙ at_k)))
          f)
  ]

  renew_query-Frozen :
      (job_id worker_id lease_ms now : ℕ) (t : Tables js)
      → Frozen t
      → Frozen (renew_query job_id worker_id lease_ms now t).1
  unfolding renew_query
  renew_query-Frozen job_id worker_id lease_ms now t f =
      All-update_where _ _ _ t.jobs (λ j hit h e. h e) f

  renew-Frozen :
      (job_id worker_id lease_ms : ℕ) → Ensures Frozen (renew_lease job_id worker_id lease_ms) Any
  unfolding renew_lease
  renew-Frozen job_id worker_id lease_ms = Ensures-wrapped _ _ Any (
      Ensures-clocked (λ now. statement (renew_query job_id worker_id lease_ms now)) Any
        λ now. Ensures-update _ (renew_query-Frozen job_id worker_id lease_ms now))

  reopen_query-Frozen :
      (ids : List ℕ) (now : ℕ) → Ensures Frozen (statement (reopen_query ids now)) Any
  unfolding reopen_query
  reopen_query-Frozen ids now = Ensures-update _ (λ t f. f)

  reopen-Frozen : (o : Option JobRow) (now : ℕ) → Ensures Frozen (reopen_import o now) Any
  unfolding reopen_import
  reopen-Frozen none now = Ensures-pure tt Any tt
  reopen-Frozen (some j) now = reopen_query-Frozen (j.import_id ∷ []) now

  release-Frozen : (job_id worker_id : ℕ) → Ensures Frozen (release_lease job_id worker_id) Any
  unfolding release_lease
  release-Frozen job_id worker_id = Ensures-wrapped _ _ Any (
      Ensures-bind _ _ Any Any Ensures-current_time λ now _.
        Ensures-bind _ _ Any Any
          (Ensures-update _ (λ t f.
            update-AllCancelling k _ (free_row now) t.jobs (λ j. refl)
              (λ j hit _ s. not_releasable job_id worker_id j hit s) f))
          λ released _.
            Ensures-if (ltb 0 released)
              (Ensures-bind _ _ Any Any (Ensures-update _ (λ t f. f))
                λ job _. reopen-Frozen job now)
              (Ensures-pure tt Any tt))

  set-Frozen :
      (found : List JobRow) (f : JobRow → JobRow) (t : Tables js)
      → ((j : JobRow) → (f j).id ≡ j.id)
      → elem k (job_ids found) ≡ false
      → Frozen t
      → Frozen (record t { jobs = update_where (λ j. elem j.id (job_ids found)) f t.jobs })
  set-Frozen found f t keeps out fr =
      update-AllCancelling k _ f t.jobs keeps
        (λ j hit at_k s. let e : elem k (job_ids found) ≡ true = rw (← at_k) hit in cc) fr

  fail-Frozen :
      (found : List JobRow) (now : ℕ)
      → elem k (job_ids found) ≡ false
      → Ensures Frozen (fail_jobs found now) Any
  unfolding fail_jobs abandon_job
  fail-Frozen [] now out = Ensures-pure tt Any tt
  fail-Frozen (x ∷ xs) now out =
      Ensures-bind _ _ Any Any
        (Ensures-update _ (λ t f. set-Frozen (x ∷ xs) (abandon_job now) t (λ j. refl) out f))
        λ _ _. Ensures-update _ (λ t f. f)

  reset-Frozen :
      (found : List JobRow) (now : ℕ)
      → elem k (job_ids found) ≡ false
      → Ensures Frozen (reset_jobs found now) Any
  unfolding reset_jobs
  reset-Frozen [] now out = Ensures-pure tt Any tt
  reset-Frozen (x ∷ xs) now out =
      Ensures-bind _ _ Any Any
        (Ensures-update _ (λ t f. set-Frozen (x ∷ xs) (free_row now) t (λ j. refl) out f))
        λ _ _. reopen_query-Frozen (job_import_ids (x ∷ xs)) now

  reclaim_found-Frozen :
      (max_attempts : ℕ) (found : List JobRow) (now : ℕ)
      → elem k (job_ids found) ≡ false
      → Ensures Frozen (reclaim_found max_attempts found now) Any
  unfolding reclaim_found
  reclaim_found-Frozen max_attempts [] now out = Ensures-pure _ Any tt
  reclaim_found-Frozen max_attempts (x ∷ xs) now out =
      Ensures-bind _ _ Any Any
        (Ensures-transaction _ Any (
          Ensures-bind _ _ Any Any
            (fail-Frozen _ now
              (elem-keep k (λ (j : JobRow). leb max_attempts j.attempt_count) (x ∷ xs) out))
            λ _ _.
              reset-Frozen _ now
                (elem-keep k (λ (j : JobRow). ltb j.attempt_count max_attempts) (x ∷ xs) out)))
        λ _ _. Ensures-pure _ Any tt

  -- A cancelling job is not among those that are found.
  find_abandoned-Frozen :
      (now : ℕ)
      → Ensures Frozen
          (find_abandoned now)
          (λ (found : List JobRow). elem k (job_ids found) ≡ false)
  unfolding find_abandoned
  find_abandoned-Frozen now =
      Ensures-statement _ _ (λ t f. f)
        (λ t f a e.
          let s : keep (is_abandoned now) t.jobs ≡ a = cc in
          subst (λ (l : List JobRow). elem k (job_ids l) ≡ false) s (found-free k now t.jobs f))

  reclaim-Frozen : (max_attempts : ℕ) → Ensures Frozen (reclaim_expired_leases max_attempts) Any
  unfolding reclaim_expired_leases
  reclaim-Frozen max_attempts = Ensures-wrapped _ _ Any (
      Ensures-bind _ _ Any Any Ensures-current_time λ now _.
        Ensures-bind _ _ (λ (found : List JobRow). elem k (job_ids found) ≡ false) Any
          (find_abandoned-Frozen now) λ found out. reclaim_found-Frozen max_attempts found now out)

-- The database as the queue operations of workers change it, while none of them processes job `k`.
pub data QueueStep (js : Js) (w : World js) : World js → Type 1 where
  claims : (worker_id lease_ms : ℕ) → QueueStep js w (claim_next worker_id lease_ms w).1
  renews :
      (job_id worker_id lease_ms : ℕ) → QueueStep js w (renew_lease job_id worker_id lease_ms w).1
  releases : (job_id worker_id : ℕ) → QueueStep js w (release_lease job_id worker_id w).1
  reclaims : (max_attempts : ℕ) → QueueStep js w (reclaim_expired_leases max_attempts w).1
  waits : (ms : ℕ) → QueueStep js w (record w { now = w.now + ms })

-- Sequences of such changes. A reclaim may also stop between the query that finds the jobs and the
-- transaction over them, and any other steps may come in between.
pub data QueueSteps (js : Js) : World js → World js → Type 1 where
  here : {w : World js} → QueueSteps js w w
  next : {w u v : World js} → QueueSteps js w u → QueueStep js u v → QueueSteps js w v
  reclaims_late :
      (max_attempts : ℕ) {w u v : World js} {found : List JobRow}
      → QueueSteps js w u
      → (find_abandoned u.now u).0 ≡ ok found
      → QueueSteps js (find_abandoned u.now u).1 v
      → QueueSteps js w (reclaim_found max_attempts found u.now v).1

module _ {js : Js} (k : ℕ) where
  step-AllCancelling :
      {u v : World js}
      → QueueStep js u v
      → AllCancelling k u.tables.jobs
      → AllCancelling k v.tables.jobs
  step-AllCancelling {u} (claims worker_id lease_ms) f = claim-Frozen k worker_id lease_ms u f
  step-AllCancelling {u} (renews job_id worker_id lease_ms) f =
      (renew-Frozen k job_id worker_id lease_ms).keeps u f
  step-AllCancelling {u} (releases job_id worker_id) f =
      (release-Frozen k job_id worker_id).keeps u f
  step-AllCancelling {u} (reclaims max_attempts) f = (reclaim-Frozen k max_attempts).keeps u f
  step-AllCancelling (waits ms) f = f

  steps-AllCancelling :
      {w u : World js}
      → QueueSteps js w u
      → AllCancelling k w.tables.jobs
      → AllCancelling k u.tables.jobs
  steps-AllCancelling here f = f
  steps-AllCancelling (next r st) f = step-AllCancelling st (steps-AllCancelling r f)
  steps-AllCancelling (reclaims_late max_attempts {u = u} {v = v} {found = found} r e between) f =
      let g = steps-AllCancelling r f in
      let query = find_abandoned-Frozen k u.now in
      let h = steps-AllCancelling between (query.keeps u g) in
      (reclaim_found-Frozen k max_attempts found u.now (query.returns u g found e)).keeps v h

-- A job in status cancelling that no worker is processing stays in that status for ever: after any
-- sequence of claims, lease renewals, releases and reclaims by any workers, over any time and
-- whatever the connection does, it is still being cancelled, and no claim returns it. Other steps may
-- come between the query and the transaction of a reclaim that begins in the sequence.
pub cancelling_is_final :
    {js : Js} (k : ℕ) {w u : World js}
    → AllCancelling k w.tables.jobs
    → QueueSteps js w u
    → AllCancelling k u.tables.jobs
      × ((worker_id lease_ms : ℕ) (c : ClaimedJob)
          → (claim_next worker_id lease_ms u).0 ≡ ok (some c)
          → c.id ≢ k)
cancelling_is_final {js} k {w} {u} f r = (final, never)
  where
    final : AllCancelling k u.tables.jobs
    final = steps-AllCancelling k r f

    never :
        (worker_id lease_ms : ℕ) (c : ClaimedJob)
        → (claim_next worker_id lease_ms u).0 ≡ ok (some c)
        → c.id ≢ k
    never worker_id lease_ms c h at_k =
        let (j, picks, first, eq, t) = claim_next-Picks worker_id lease_ms u h in
        let (claimable, frozen) = oldest-All _ (is_claimable u.now) u.tables.jobs final first in
        let id_eq : c.id ≡ j.id =
          ap (λ (x : ClaimedJob). x.id) eq ∙ claim_row-id worker_id lease_ms u.now j in
        not_claimable u.now j claimable (frozen (sym id_eq ∙ at_k))
