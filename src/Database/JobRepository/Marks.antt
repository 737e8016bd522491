-- ===== src/Database/JobRepository/Marks.antt =====
-- What `markProcessing`, `markCompleted`, `markFailed` and `markCancelled` leave, whatever the
-- connection does to their two statements.
use high_throughput_transact.Base.{
  ℕ, ◌≡◌, refl, sym, ap, ◌∙◌, ◌⊎◌, inl, inr, false, some, Option-cases, Result, ok, ◌>>=◌, ◌>>◌,
}
use high_throughput_transact.Js.{Js}
use high_throughput_transact.Domain.ImportStatus.{ImportStatus, can_transition}
use high_throughput_transact.Domain.Errors.{Thrown}
use high_throughput_transact.Database.Table.{update_where, find, find-update_self}
use high_throughput_transact.Database.World.{
  ImportRow, JobRow, Tables, World, statement, current_time,
}
use high_throughput_transact.Database.World.Atomicity.{
  statement-ok, statement-tables, wrapped-tables, wrapped-ok, bind-ok,
}
use high_throughput_transact.Database.World.Contracts.{bind-cases}
use high_throughput_transact.Database.JobRepository.{
  has_id, import_has_id, update_job, update_import, update_both, mark_processing,
}

ok-injective : {a b : ℕ} → (let x : Result Thrown ℕ = ok a in x ≡ ok b) → a ≡ b
ok-injective e = cc

module _ {js : Js} where
  update_job-tables :
      (id : ℕ) (f : JobRow → JobRow) (t : Tables js)
      → ((update_job id f t).1 ≡ t)
        ⊎ ((update_job id f t).1 ≡ record t { jobs = update_where (has_id id) f t.jobs })
  unfolding update_job
  update_job-tables id f t = elim (Option-cases (find (λ (j : JobRow). j.id) id t.jobs)) [
    | inl e ↦ inl (rw (e, update_job))
    | inr (j, e) ↦ inr (rw (e, update_job))
  ]

  update_import-tables :
      (id : ℕ) (f : ImportRow → ImportRow) (t : Tables js)
      → ((update_import id f t).1 ≡ t)
        ⊎ ((update_import id f t).1
            ≡ record t { imports = update_where (import_has_id id) f t.imports })
  unfolding update_import
  update_import-tables id f t = elim (Option-cases (find (λ (r : ImportRow). r.id) id t.imports)) [
    | inl e ↦ inl (rw (e, update_import))
    | inr (r, e) ↦ inr (rw (e, update_import))
  ]

  job_step :
      (id : ℕ) (f : JobRow → JobRow) (w : World js)
      → let after = (statement (update_job id f) w).1.tables in
        (after ≡ w.tables)
        ⊎ (after ≡ record (w.tables) { jobs = update_where (has_id id) f w.tables.jobs })
  job_step id f w = elim (statement-tables (update_job id f) w) [
    | inl e ↦ inl e
    | inr e ↦ elim (update_job-tables id f w.tables) [ inl g ↦ inl (e ∙ g) | inr g ↦ inr (e ∙ g) ]
  ]

  import_step :
      (id : ℕ) (f : ImportRow → ImportRow) (w : World js)
      → let after = (statement (update_import id f) w).1.tables in
        (after ≡ w.tables)
        ⊎ (after
            ≡ record (w.tables) { imports = update_where (import_has_id id) f w.tables.imports })
  import_step id f w = elim (statement-tables (update_import id f) w) [
    | inl e ↦ inl e
    | inr e ↦ elim (update_import-tables id f w.tables) [
      | inl g ↦ inl (e ∙ g)
      | inr g ↦ inr (e ∙ g)
    ]
  ]

  update_import-ok :
      (id : ℕ) (f : ImportRow → ImportRow) (w : World js) {u : Unit {0}}
      → (statement (update_import id f) w).0 ≡ ok u
      → (statement (update_import id f) w).1.tables
        ≡ record (w.tables) { imports = update_where (import_has_id id) f w.tables.imports }
  unfolding update_import
  update_import-ok id f w h =
      let e = statement-ok (update_import id f) w h in
      elim (Option-cases (find (λ (r : ImportRow). r.id) id w.tables.imports)) [
        | inl n ↦ let x = rw (n, update_import) at e in cc
        | inr (r, s) ↦ let x = rw (s, update_import) at e in cc
      ]

  update_job-ok :
      (id : ℕ) (f : JobRow → JobRow) (w : World js) {u : Unit {0}}
      → (statement (update_job id f) w).0 ≡ ok u
      → (statement (update_job id f) w).1.tables
        ≡ record (w.tables) { jobs = update_where (has_id id) f w.tables.jobs }
  unfolding update_job
  update_job-ok id f w h =
      let e = statement-ok (update_job id f) w h in
      elim (Option-cases (find (λ (j : JobRow). j.id) id w.tables.jobs)) [
        | inl n ↦ let x = rw (n, update_job) at e in cc
        | inr (j, s) ↦ let x = rw (s, update_job) at e in cc
      ]

  abbrev pub marked_job : ℕ → (JobRow → JobRow) → Tables js → Tables js
  marked_job id f t = record t { jobs = update_where (has_id id) f t.jobs }

  abbrev pub marked_import : ℕ → (ImportRow → ImportRow) → Tables js → Tables js
  marked_import id f t = record t { imports = update_where (import_has_id id) f t.imports }

  -- A mark that returns has marked the job and the import, and nothing else.
  pub update_both-ok :
      (job_id import_id : ℕ) (job_data : ℕ → JobRow → JobRow)
      (import_data : ℕ → ImportRow → ImportRow) (w : World js)
      → (update_both job_id import_id job_data import_data w).0 ≡ ok tt
      → (update_both job_id import_id job_data import_data w).1.tables
        ≡ marked_import import_id (import_data w.now) (marked_job job_id (job_data w.now) w.tables)
  unfolding update_both
  update_both-ok job_id import_id job_data import_data w h =
      let h' = wrapped-ok "JobRepository.updateBoth" _ w h in
      let (now, h0, k0, e0) = bind-ok current_time _ w h' in
      let (u, h1, k1, e1) = bind-ok (statement (update_job job_id (job_data now))) _ w k0 in
      let w1 = (statement (update_job job_id (job_data now)) w).1 in
      let t1 = update_job-ok job_id (job_data now) w h1 in
      let t2 = update_import-ok import_id (import_data now) w1 k1 in
      let outer = ap (λ (z : World js). z.tables) (wrapped-tables "JobRepository.updateBoth" _ w) in
      let inner = ap (λ (z : Result Thrown (Unit {0}) × World js). z.1.tables) (e0 ∙ e1) in
      let same : w.now ≡ now = ok-injective h0 in
      outer
      ∙ inner
      ∙ t2
      ∙ ap (marked_import import_id (import_data now)) t1
      ∙ ap (λ n. marked_import import_id (import_data n) (marked_job job_id (job_data n) w.tables))
          (sym same)

  -- Whatever the connection does to the two statements of a mark, afterwards neither row has been
  -- marked, or the job alone, or both; they are no transaction.
  pub update_both-outcomes :
      (job_id import_id : ℕ) (job_data : ℕ → JobRow → JobRow)
      (import_data : ℕ → ImportRow → ImportRow) (w : World js)
      → let after = (update_both job_id import_id job_data import_data w).1.tables in
        (after ≡ w.tables)
        ⊎ (after ≡ marked_job job_id (job_data w.now) w.tables)
        ⊎ (after
            ≡ marked_import import_id
                (import_data w.now)
                (marked_job job_id (job_data w.now) w.tables))
  unfolding update_both ◌>>=◌
  update_both-outcomes job_id import_id job_data import_data w =
      let first = statement (update_job job_id (job_data w.now)) in
      let second = λ (u : Unit {0}). statement (update_import import_id (import_data w.now)) in
      let outer =
        ap (λ (z : World js). z.tables)
          (wrapped-tables "JobRepository.updateBoth"
            (current_time >>= λ now.
              statement (update_job job_id (job_data now))
              >> statement (update_import import_id (import_data now)))
            w) in
      elim (bind-cases first second w) [
        | inr (x, p) ↦
            let here = outer ∙ ap (λ (z : Result Thrown (Unit {0}) × World js). z.1.tables) p in
            elim (job_step job_id (job_data w.now) w) [
              | inl e ↦ inl (here ∙ e)
              | inr e ↦ inr (inl (here ∙ e))
            ]
        | inl (u, e, p) ↦
            let here = outer ∙ ap (λ (z : Result Thrown (Unit {0}) × World js). z.1.tables) p in
            let t = update_job-ok job_id (job_data w.now) w e in
            elim (import_step import_id (import_data w.now) (first w).1) [
              | inl g ↦ inr (inl (here ∙ g ∙ t))
              | inr g ↦ inr (inr (here ∙ g ∙ ap (marked_import import_id (import_data w.now)) t))
            ]
      ]

  -- A call of markProcessing that returns has set the import to processing, with the number of
  -- records and the current time, whatever status a client had given it in the meantime: also
  -- cancelling, from which no transition to processing is allowed.
  pub mark_processing-overwrites :
      (job_id import_id total_records : ℕ) (w : World js) (r : ImportRow)
      → find (λ (x : ImportRow). x.id) import_id w.tables.imports ≡ some r
      → (mark_processing job_id import_id total_records w).0 ≡ ok tt
      → (can_transition ImportStatus.cancelling ImportStatus.processing ≡ false)
        × (find
              (λ (x : ImportRow). x.id)
              import_id
              (mark_processing job_id import_id total_records w).1.tables.imports
            ≡ some (record r {
              status = ImportStatus.processing;
              started_at = some w.now;
              total_records = total_records;
              updated_at = w.now;
            }))
  unfolding mark_processing can_transition
  mark_processing-overwrites job_id import_id total_records w r f h =
      let t = update_both-ok job_id import_id _ _ w h in
      (
        refl,
        ap (λ (t : Tables js). find (λ (x : ImportRow). x.id) import_id t.imports) t
            ∙ find-update_self (λ (x : ImportRow). x.id) import_id _ w.tables.imports (λ x. refl) f,
      )
