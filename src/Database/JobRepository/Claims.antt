-- ===== src/Database/JobRepository/Claims.antt =====
-- Which job `claimNext` takes, and what it leaves alone.
use high_throughput_transact.Base.{
  ℕ, ◌≤◌, ◌≡◌, refl, sym, ap, ◌∙◌, subst, ◌≢◌, ◌⊎◌, inl, inr, Bool, true, false, Option, none, some,
  List, [], ◌∷◌, arith, leb, ◌==◌, leb→le, ==_iff, Bool-cases, Option-cases, All, ok,
}
use high_throughput_transact.Js.{Js}
use high_throughput_transact.Database.Table.{
  update_where, find_where, find, Keyed, find-update_self, find-update_ne,
}
use high_throughput_transact.Database.World.{JobRow, Tables, World, Db, statement}
use high_throughput_transact.Database.World.Atomicity.{
  statement-ok, statement-tables, wrapped-ok, wrapped-tables,
}
use high_throughput_transact.Database.JobRepository.{
  ClaimedJob, is_claimable, older, oldest, claim_row, has_id, claimed_job, claim_candidate,
  claim_query, claim_next,
}

abbrev pub job_id_of : JobRow → ℕ
job_id_of j = j.id

abbrev pub find_job : ℕ → List JobRow → Option JobRow
find_job = find job_id_of

-- No row that passes the test is older than `j`.
abbrev pub IsOldest : (JobRow → Bool) → JobRow → List JobRow → Type 0
IsOldest p j = All (λ (r : JobRow). p r ≡ true → j.created_at ≤ r.created_at)

module _ (p : JobRow → Bool) where
  IsOldest-mono :
      (j k : JobRow) (rs : List JobRow)
      → j.created_at ≤ k.created_at
      → IsOldest p k rs
      → IsOldest p j rs
  IsOldest-mono j k [] h o = tt
  IsOldest-mono j k (r ∷ rs) h o = ((λ e. let x = o.0 e in omega arith), IsOldest-mono j k rs h o.1)

  oldest-none : (rs : List JobRow) → oldest p rs ≡ none → All (λ (r : JobRow). p r ≡ false) rs
  unfolding oldest
  oldest-none [] h = tt
  oldest-none (r ∷ rs) h = elim (Bool-cases (p r)) [
    | inl e ↦ let x : some _ ≡ none = rw e at h in cc
    | inr e ↦ (e, oldest-none rs (rw e at h))
  ]

  IsOldest-of_none :
      (j : JobRow) (rs : List JobRow) → All (λ (r : JobRow). p r ≡ false) rs → IsOldest p j rs
  IsOldest-of_none j [] n = tt
  IsOldest-of_none j (r ∷ rs) n = ((λ e. let x = n.0 in cc), IsOldest-of_none j rs n.1)

  -- The candidate passes the test, is as old as any other, and is the row of its key.
  abbrev pub Picks : List JobRow → JobRow → Type 0
  Picks rs j = (p j ≡ true) × IsOldest p j rs × (Keyed job_id_of rs → find_job j.id rs ≡ some j)

  find-tail :
      (r j : JobRow) (rs : List JobRow)
      → Keyed job_id_of (r ∷ rs)
      → find_job j.id rs ≡ some j
      → find_job j.id (r ∷ rs) ≡ some j
  unfolding find_where
  find-tail r j rs u e = elim (Bool-cases (r.id == j.id)) [
    | inl same ↦
        let q : r.id ≡ j.id = (==_iff r.id j.id).0 same in
        let c : find_job j.id rs ≡ none = rw q at u.0 in cc
    | inr other ↦ rw other e
  ]

  find-head : (r : JobRow) (rs : List JobRow) → find_job r.id (r ∷ rs) ≡ some r
  unfolding find_where
  find-head r rs = ground arith

  older-Picks :
      (r : JobRow) (o : Option JobRow) (rs : List JobRow) (j : JobRow)
      → p r ≡ true
      → oldest p rs ≡ o
      → ((k : JobRow) → o ≡ some k → Picks rs k)
      → older r o ≡ j
      → Picks (r ∷ rs) j
  unfolding older
  older-Picks r none rs j t e ih h =
      subst (Picks (r ∷ rs)) h
        (t, ((λ _. omega arith), IsOldest-of_none r rs (oldest-none rs e)), (λ u. find-head r rs))
  older-Picks r (some k) rs j t e ih h = elim (Bool-cases (leb r.created_at k.created_at)) [
    | inl le ↦ subst (Picks (r ∷ rs)) (rw le at h) (
      t,
      ((λ _. omega arith), IsOldest-mono r k rs (leb→le _ _ le) (ih k refl).1),
      (λ u. find-head r rs),
    )
    | inr gt ↦ subst (Picks (r ∷ rs)) (rw gt at h) (
        let (pk, old, key) = ih k refl in
        (pk, ((λ _. ground arith), old), (λ u. find-tail r k rs u (key u.1))))
  ]

  oldest-Picks : (rs : List JobRow) (j : JobRow) → oldest p rs ≡ some j → Picks rs j
  unfolding oldest
  oldest-Picks [] j h = cc
  oldest-Picks (r ∷ rs) j h = elim (Bool-cases (p r)) [
    | inl t ↦
        let h' : some (older r (oldest p rs)) ≡ some j = rw t at h in
        older-Picks r (oldest p rs) rs j t refl (λ k e. oldest-Picks rs k e) (cc)
    | inr f ↦
        let (pk, old, key) = oldest-Picks rs j (rw f at h) in
        (pk, ((λ e. cc), old), (λ u. find-tail r j rs u (key u.1)))
  ]

pub oldest-All :
    (P : JobRow → Type 0) (p : JobRow → Bool) (rs : List JobRow) {j : JobRow}
    → All P rs
    → oldest p rs ≡ some j
    → (p j ≡ true) × P j
unfolding oldest older
oldest-All P p [] h e = cc
oldest-All P p (r ∷ rs) {j} h e = elim (Bool-cases (p r)) [
  | inr f ↦ oldest-All P p rs h.1 (rw f at e)
  | inl t ↦ elim (Option-cases (oldest p rs)) [
    | inl n ↦ let s : r ≡ j = ground arith in (rw (← s) t, subst P s h.0)
    | inr (k, q) ↦
        let (pk, hk) = oldest-All P p rs h.1 q in
        elim (Bool-cases (leb r.created_at k.created_at)) [
          | inl le ↦ let s : r ≡ j = ground arith in (rw (← s) t, subst P s h.0)
          | inr gt ↦ let s : k ≡ j = ground arith in (rw (← s) pk, subst P s hk)
        ]
  ]
]

pub claim_row-id :
    (worker_id lease_ms now : ℕ) (j : JobRow) → (claim_row worker_id lease_ms now j).id ≡ j.id
unfolding claim_row
claim_row-id worker_id lease_ms now j = refl

abbrev pub claimed_jobs : ℕ → ℕ → ℕ → JobRow → List JobRow → List JobRow
claimed_jobs worker_id lease_ms now j =
    update_where (has_id j.id) (claim_row worker_id lease_ms now)

module _ {js : Js} where
  -- What one claim does to the tables.
  claim_query-Picks :
      (worker_id lease_ms now : ℕ) (t : Tables js) {o : Option ClaimedJob} {t' : Tables js}
      → claim_query worker_id lease_ms now t ≡ (ok o, t')
      → ((o ≡ none) × (t' ≡ t))
        ⊎ ((j : JobRow) × Picks (is_claimable now) t.jobs j
            × (oldest (is_claimable now) t.jobs ≡ some j)
            × (o ≡ some (claimed_job worker_id (claim_row worker_id lease_ms now j)))
            × (t' ≡ record t {
              jobs = update_where (has_id j.id) (claim_row worker_id lease_ms now) t.jobs;
            }))
  unfolding claim_query claim_candidate
  claim_query-Picks worker_id lease_ms now t h =
      elim (Option-cases (oldest (is_claimable now) t.jobs)) [
        | inl e ↦ inl (ground arith, ground arith)
        | inr (j, e) ↦
            inr (j, oldest-Picks (is_claimable now) t.jobs j e, e, ground arith, ground arith)
      ]

  claim_query-result :
      (worker_id lease_ms now : ℕ) (t : Tables js)
      → (o : Option ClaimedJob) × (claim_query worker_id lease_ms now t
          ≡ (ok o, (claim_query worker_id lease_ms now t).1))
  unfolding claim_query claim_candidate
  claim_query-result worker_id lease_ms now t = go (oldest (is_claimable now) t.jobs)
    where
      go :
          (c : Option JobRow)
          → (o : Option ClaimedJob) × (claim_candidate worker_id lease_ms now t c
              ≡ (ok o, (claim_candidate worker_id lease_ms now t c).1))
      go none = (none, refl)
      go (some j) = (some (claimed_job worker_id (claim_row worker_id lease_ms now j)), refl)

  -- Whatever the connection does, the queue is as before or one claim has been made.
  pub claim_next-jobs :
      (worker_id lease_ms : ℕ) (w : World js)
      → let after = (claim_next worker_id lease_ms w).1.tables in
        (after ≡ w.tables)
        ⊎ ((j : JobRow) × Picks (is_claimable w.now) w.tables.jobs j
            × (oldest (is_claimable w.now) w.tables.jobs ≡ some j)
            × (after ≡ record (w.tables) {
              jobs = claimed_jobs worker_id lease_ms w.now j w.tables.jobs;
            }))
  unfolding claim_next
  claim_next-jobs worker_id lease_ms w =
      let q = claim_query worker_id lease_ms w.now in
      let body : Db js (Option ClaimedJob) =
        λ v. statement (claim_query worker_id lease_ms v.now) v in
      let e = ap (λ (v : World js). v.tables) (wrapped-tables "JobRepository.claimNext" body w) in
      elim (statement-tables q w) [ inl s ↦ inl (e ∙ s) | inr s ↦ from_query (e ∙ s) ]
    where
      after : Tables js
      after = (claim_next worker_id lease_ms w).1.tables

      from_query :
          after ≡ (claim_query worker_id lease_ms w.now w.tables).1
          → (after ≡ w.tables)
            ⊎ ((j : JobRow) × Picks (is_claimable w.now) w.tables.jobs j
                × (oldest (is_claimable w.now) w.tables.jobs ≡ some j)
                × (after ≡ record (w.tables) {
                  jobs = claimed_jobs worker_id lease_ms w.now j w.tables.jobs;
                }))
      from_query s =
          let (o, e) = claim_query-result worker_id lease_ms w.now w.tables in
          elim (claim_query-Picks worker_id lease_ms w.now w.tables e) [
            | inl (n, t) ↦ inl (s ∙ t)
            | inr (j, picks, first, eq, t) ↦ inr (j, picks, first, s ∙ t)
          ]

  pub claim_next-Picks :
      (worker_id lease_ms : ℕ) (w : World js) {c : ClaimedJob}
      → (claim_next worker_id lease_ms w).0 ≡ ok (some c)
      → (j : JobRow) × Picks (is_claimable w.now) w.tables.jobs j
        × (oldest (is_claimable w.now) w.tables.jobs ≡ some j)
        × (c ≡ claimed_job worker_id (claim_row worker_id lease_ms w.now j))
        × ((claim_next worker_id lease_ms w).1.tables.jobs
            ≡ claimed_jobs worker_id lease_ms w.now j w.tables.jobs)
  unfolding claim_next
  claim_next-Picks worker_id lease_ms w {c} h =
      let q = claim_query worker_id lease_ms w.now in
      let body : Db js (Option ClaimedJob) =
        λ v. statement (claim_query worker_id lease_ms v.now) v in
      let e = wrapped-ok "JobRepository.claimNext" body w h in
      let same =
        ap (λ (v : World js). v.tables.jobs) (wrapped-tables "JobRepository.claimNext" body w) in
      elim (claim_query-Picks worker_id lease_ms w.now w.tables (statement-ok q w e)) [
        | inl (n, _) ↦ cc
        | inr (j, picks, first, eq, t) ↦
            (j, picks, first, cc, same ∙ ap (λ (x : Tables js). x.jobs) t)
      ]

  -- A claim that returns a job, by the tests and the update of the code.
  pub claim_next-found :
      (worker_id lease_ms : ℕ) (w : World js) {c : ClaimedJob}
      → Keyed job_id_of w.tables.jobs
      → (claim_next worker_id lease_ms w).0 ≡ ok (some c)
      → let after = (claim_next worker_id lease_ms w).1.tables.jobs in
        (j : JobRow) × (find_job c.id w.tables.jobs ≡ some j)
        × (is_claimable w.now j ≡ true)
        × IsOldest (is_claimable w.now) j w.tables.jobs
        × (find_job c.id after ≡ some (claim_row worker_id lease_ms w.now j))
        × (c ≡ claimed_job worker_id (claim_row worker_id lease_ms w.now j))
        × ((k : ℕ) → k ≢ c.id → find_job k after ≡ find_job k w.tables.jobs)
  claim_next-found worker_id lease_ms w {c} u h =
      let (j, (claimable, old, key), first, eq, t) = claim_next-Picks worker_id lease_ms w h in
      let id_eq : c.id ≡ j.id =
        ap (λ (x : ClaimedJob). x.id) eq ∙ claim_row-id worker_id lease_ms w.now j in
      let found : find_job c.id w.tables.jobs ≡ some j =
        subst (λ n. find_job n w.tables.jobs ≡ some j) (sym id_eq) (key u) in
      let keeps = claim_row-id worker_id lease_ms w.now in
      let row = claim_row worker_id lease_ms w.now in
      (
        j,
        found,
        claimable,
        old,
        rw id_eq (
            ap (find_job j.id) t ∙ find-update_self job_id_of j.id row w.tables.jobs keeps (key u)),
        eq,
        (λ k ne.
            ap (find_job k) t
            ∙ find-update_ne job_id_of j.id k row w.tables.jobs keeps (λ e. ne (e ∙ sym id_eq))),
      )

  -- What the test of the code refuses is left alone.
  pub claim_next-kept :
      (worker_id lease_ms k : ℕ) (w : World js) {j : JobRow}
      → Keyed job_id_of w.tables.jobs
      → find_job k w.tables.jobs ≡ some j
      → is_claimable w.now j ≡ false
      → find_job k (claim_next worker_id lease_ms w).1.tables.jobs ≡ some j
  claim_next-kept worker_id lease_ms k w {j} u h held =
      elim (claim_next-jobs worker_id lease_ms w) [
        | inl same ↦ rw same h
        | inr (c, (claimable, old, key), first, t) ↦
            let other : k ≢ c.id = λ e.
              let a : find_job k w.tables.jobs ≡ some c =
                subst (λ n. find_job n w.tables.jobs ≡ some c) (sym e) (key u) in
              let same : some c ≡ some j = sym a ∙ h in
              let d : c ≡ j = cc in let no_claim : is_claimable w.now c ≡ false = rw d held in cc in
            ap (λ (x : Tables js). find_job k x.jobs) t
            ∙ (find-update_ne job_id_of c.id k _ w.tables.jobs
                  (claim_row-id worker_id lease_ms w.now) other
                ∙ h)
      ]
