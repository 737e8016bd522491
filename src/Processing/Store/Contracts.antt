-- ===== src/Processing/Store/Contracts.antt =====
-- What the ports over the database keep: a predicate of the acknowledged batches and the tables that
-- does not look at jobs, nor at more of an import than its id and its counters.
use high_throughput_transact.Base.{
  ℕ, ◌+◌, ◌≡◌, refl, sym, subst, inl, inr, Bool, String, List, [], ◌∷◌, ◌++◌, length, Result, ok,
  err, Option-cases,
}
use high_throughput_transact.Js.{Js}
use high_throughput_transact.Domain.Errors.{Thrown}
use high_throughput_transact.Database.Table.{update_where, find}
use high_throughput_transact.Database.World.{
  ImportRow, JobRow, Tables, World, Db, Query, statement, wrapped,
}
use high_throughput_transact.Database.World.Contracts.{
  Ensures, Any, Ensures-bind, Ensures-current_time, Ensures-update, Ensures-wrapped,
}
use high_throughput_transact.Database.JobRepository.{
  update_job, update_import, update_both, mark_processing, mark_completed, mark_cancelled,
  mark_failed, renew_query, renew_lease, get_status,
}
use high_throughput_transact.Database.ImportFileRepository.{location_query, find_by_import_id}
use high_throughput_transact.Database.TransactionRepository.{
  PersistBatchInput, BatchPersistResult, persist_batch,
}
use high_throughput_transact.Processing.Keeps.{Keeps}
use high_throughput_transact.Processing.ImportFile.Keeps.{PortsKeep}
use high_throughput_transact.Processing.Store.{
  Store, Outside, spend, on_world, note_sent, persist_on_world, store_ports,
}

-- The id of an import and its counters.
abbrev pub counts : ImportRow → ℕ × ℕ × ℕ × ℕ × ℕ
counts r = (r.id, r.processed_count, r.accepted_count, r.rejected_count, r.duplicate_count)

abbrev pub SameCounts : (ImportRow → ImportRow) → Type 0
SameCounts f = (r : ImportRow) → counts (f r) ≡ counts r

module _ {js : Js} where
  pub record Settled (I : Tables js → Type 0) : Type 0 where
    pub jobs : (t : Tables js) (rows : List JobRow) → I t → I (record t { jobs = rows })
    pub imports :
        (t : Tables js) (p : ImportRow → Bool) (f : ImportRow → ImportRow)
        → SameCounts f
        → I t
        → I (record t { imports = update_where p f t.imports })

  -- What `persistBatch` has to keep, by its result.
  abbrev pub AfterPersist :
      (List (PersistBatchInput js) → Tables js → Type 0)
      → List (PersistBatchInput js)
      → PersistBatchInput js
      → Result Thrown BatchPersistResult × World js
      → Type 0
  AfterPersist J sent i (ok r, w) = J (sent ++ i ∷ []) w.tables
  AfterPersist J sent i (err e, w) = J sent w.tables

  pub record Sound (J : List (PersistBatchInput js) → Tables js → Type 0) : Type 0 where
    pub settled : (sent : List (PersistBatchInput js)) → Settled (J sent)
    pub persists :
        (sent : List (PersistBatchInput js)) (i : PersistBatchInput js) (w : World js)
        → i.processed_delta ≡ length i.scored + length i.rejected
        → J sent w.tables
        → AfterPersist J sent i (persist_batch i w)

  module _ (I : Tables js → Type 0) (k : Settled I) where
    update_job-Ensures :
        (id : ℕ) (f : JobRow → JobRow) → Ensures I (statement (update_job id f)) Any
    unfolding update_job
    update_job-Ensures id f = Ensures-update (update_job id f) λ t i.
        elim (Option-cases (find (λ (j : JobRow). j.id) id t.jobs)) [
          | inl e ↦ rw (e, update_job) i
          | inr (j, e) ↦ rw (e, update_job) (k.jobs t _ i)
        ]

    update_import-Ensures :
        (id : ℕ) (f : ImportRow → ImportRow)
        → SameCounts f
        → Ensures I (statement (update_import id f)) Any
    unfolding update_import
    update_import-Ensures id f same = Ensures-update (update_import id f) λ t i.
        elim (Option-cases (find (λ (r : ImportRow). r.id) id t.imports)) [
          | inl e ↦ rw (e, update_import) i
          | inr (r, e) ↦ rw (e, update_import) (k.imports t _ f same i)
        ]

    update_both-Ensures :
        (job_id import_id : ℕ) (job_data : ℕ → JobRow → JobRow)
        (import_data : ℕ → ImportRow → ImportRow)
        → ((now : ℕ) → SameCounts (import_data now))
        → Ensures I (update_both job_id import_id job_data import_data) Any
    unfolding update_both
    update_both-Ensures job_id import_id job_data import_data same = Ensures-wrapped _ _ _ (
        Ensures-bind _ _ _ _ Ensures-current_time λ now u.
          Ensures-bind _ _ _ _ (update_job-Ensures job_id (job_data now))
            λ a v. update_import-Ensures import_id (import_data now) (same now))

    -- A query that only reads.
    reads-Ensures :
        {A : Type 0} (operation : String) (q : Query js A)
        → ((t : Tables js) → (q t).1 ≡ t)
        → Ensures I (wrapped operation (statement q)) Any
    reads-Ensures operation q h =
        Ensures-wrapped operation _ _ (Ensures-update q λ t i. subst I (sym (h t)) i)

    pub find_by_import_id-Ensures : (id : ℕ) → Ensures I (find_by_import_id id) Any
    unfolding find_by_import_id location_query
    find_by_import_id-Ensures id = reads-Ensures _ (location_query id) (λ t. refl)

    pub get_status-Ensures : (id : ℕ) → Ensures I (get_status id) Any
    unfolding get_status
    get_status-Ensures id = reads-Ensures _ _ (λ t. refl)

    pub renew_lease-Ensures : (a b c : ℕ) → Ensures I (renew_lease a b c) Any
    unfolding renew_lease renew_query
    renew_lease-Ensures a b c = Ensures-wrapped _ _ _ (record {
      keeps = λ w i. (Ensures-update (renew_query a b c w.now) (λ t i. k.jobs t _ i)).keeps w i;
      returns = λ w i a e. tt;
    })

    pub mark_processing-Ensures : (a b c : ℕ) → Ensures I (mark_processing a b c) Any
    unfolding mark_processing
    mark_processing-Ensures a b c = update_both-Ensures a b _ _ (λ now r. refl)

    pub mark_completed-Ensures : (a b : ℕ) → Ensures I (mark_completed a b) Any
    unfolding mark_completed
    mark_completed-Ensures a b = update_both-Ensures a b _ _ (λ now r. refl)

    pub mark_cancelled-Ensures : (a b : ℕ) → Ensures I (mark_cancelled a b) Any
    unfolding mark_cancelled
    mark_cancelled-Ensures a b = update_both-Ensures a b _ _ (λ now r. refl)

    pub mark_failed-Ensures : (a b : ℕ) (reason : String) → Ensures I (mark_failed a b reason) Any
    unfolding mark_failed
    mark_failed-Ensures a b reason = update_both-Ensures a b _ _ (λ now r. refl)

module _ {js : Js} (outside : Outside js) (J : List (PersistBatchInput js) → Tables js → Type 0)
    (sound : Sound J) where
  -- The predicate of a store.
  abbrev pub Holds : Store js → Type 0
  Holds s = J s.sent s.world.tables

  on_world-Keeps :
      {A : Type 0} {m : Db js A}
      → ((I : Tables js → Type 0) → Settled I → Ensures I m Any)
      → Keeps Holds (on_world outside m)
  unfolding on_world spend
  on_world-Keeps h = record { after = λ s p. (h (J s.sent) (sound.settled s.sent)).keeps s.world p }

  noted :
      (i : PersistBatchInput js) (s : Store js) (x : Result Thrown BatchPersistResult × World js)
      → AfterPersist J s.sent i x
      → Holds (note_sent outside x.0 i (spend outside (outside.takes s) (record s { world = x.1 })))
  unfolding note_sent spend
  noted i s (ok r, w) h = h
  noted i s (err e, w) h = h

  pub store_ports-PortsKeep : PortsKeep (store_ports outside) Holds
  unfolding store_ports persist_on_world on_world spend
  store_ports-PortsKeep = record {
    find_file = λ id. on_world-Keeps λ I k. find_by_import_id-Ensures I k id;
    count_lines = λ path. record { after = λ s p. p };
    mark_processing = λ a b c. on_world-Keeps λ I k. mark_processing-Ensures I k a b c;
    mark_completed = λ a b. on_world-Keeps λ I k. mark_completed-Ensures I k a b;
    mark_cancelled = λ a b. on_world-Keeps λ I k. mark_cancelled-Ensures I k a b;
    mark_failed = λ a b r. on_world-Keeps λ I k. mark_failed-Ensures I k a b r;
    renew_lease = λ a b c. on_world-Keeps λ I k. renew_lease-Ensures I k a b c;
    get_status = λ a. on_world-Keeps λ I k. get_status-Ensures I k a;
    score_batch = λ is. record { after = λ s p. p };
    persist_batch = λ i h. record {
      after = λ s p. noted i s (persist_batch i s.world) (sound.persists s.sent i s.world h p);
    };
    sleep = λ n s p. p;
    signal = λ x s p. p;
  }
