-- ===== src/Processing/ImportFile/Keeps.antt =====
-- What `execute` of src/application/use-cases/process-import-file.use-case.ts keeps, however it ends:
-- a predicate of the outer state that each port keeps, `persistBatch` for batches that give the number
-- of their records as the processed ones.
use high_throughput_transact.Base.{
  ℕ, ◌+◌, ◌≡◌, refl, sym, ap, ◌∙◌, Bool, true, false, inl, inr, ◌&&◌, Option, none, some, List, [],
  ◌∷◌, arith, String, length, leb, ok, null, Option-cases, length-append, pure, if_rule, Result,
}
use high_throughput_transact.Js.{Js}
use high_throughput_transact.Js.Strings.{Text}
use high_throughput_transact.Domain.Errors.{
  Thrown, plain, domain, object, prisma_known, Attempt, shutdown_interrupted,
}
use high_throughput_transact.Concurrency.Semaphore.{Semaphore, acquire}
use high_throughput_transact.Database.World.{ScoredTransaction, RejectedRecordInput}
use high_throughput_transact.Database.JobRepository.{ClaimedJob}
use high_throughput_transact.Database.TransactionRepository.{PersistBatchInput}
use high_throughput_transact.Processing.Ports.{
  FileLocation, ScoringInput, ScoringOutput, Signal, Ports, Settings,
}
use high_throughput_transact.Processing.Progress.{
  Progress, begin, Entry, skipped, to_reject, to_score, take_in, pending_size,
}
use high_throughput_transact.Processing.Keeps.{
  Keeps, Keeps-pure, Keeps-throw, Keeps-bind, Keeps-then, Keeps-catch, Keeps-for_each, Keeps-if,
  Keeps-retry,
}
use high_throughput_transact.Processing.ImportFile.{
  Run, assemble, lift, advance, limited, assembled, emit, time, retry_options, count_result,
  emit_rejected, persist, score, clear, flush_batch, flush, flush_if_full, take_entry, heartbeat,
  check_cancelled, settle_line, read_line, read_lines, conclude, import_lines, fail_job, handle,
  process, start, process_found, execute, with_permit,
}

pub record PortsKeep {js : Js} {S : Type 0} (ports : Ports js S) (P : S → Type 0) : Type 0 where
  pub find_file : (id : ℕ) → Keeps P (ports.find_file id)
  pub count_lines : (path : String) → Keeps P (ports.count_lines path)
  pub mark_processing : (a b c : ℕ) → Keeps P (ports.mark_processing a b c)
  pub mark_completed : (a b : ℕ) → Keeps P (ports.mark_completed a b)
  pub mark_cancelled : (a b : ℕ) → Keeps P (ports.mark_cancelled a b)
  pub mark_failed : (a b : ℕ) (reason : String) → Keeps P (ports.mark_failed a b reason)
  pub renew_lease : (a b c : ℕ) → Keeps P (ports.renew_lease a b c)
  pub get_status : (a : ℕ) → Keeps P (ports.get_status a)
  pub score_batch : (is : List (ScoringInput js)) → Keeps P (ports.score_batch is)
  pub persist_batch :
      (i : PersistBatchInput js)
      → i.processed_delta ≡ length i.scored + length i.rejected
      → Keeps P (ports.persist_batch i)
  pub sleep : (n : ℕ) (s : S) → P s → P (ports.sleep n s)
  pub signal : (x : Signal) (s : S) → P s → P (ports.signal x s)

length-assemble :
    {js : Js} (is : List (ScoringInput js)) (os : List (ScoringOutput js))
    {ss : List (ScoredTransaction js)}
    → assemble is os ≡ some ss
    → length ss ≡ length is
unfolding assemble
length-assemble [] os h = ground arith
length-assemble (i ∷ is) [] h = cc
length-assemble (i ∷ is) (o ∷ os) h = elim (Option-cases (assemble is os)) [
  | inl e ↦ let q = rw (e, assemble) at h in cc
  | inr (ts, e) ↦ let q = rw (e, assemble) at h in let k = length-assemble is os e in ground arith
]

module _ {js : Js} {S : Type 0} (ports : Ports js S) (settings : Settings) (job : ClaimedJob)
    (P : S → Type 0) (k : PortsKeep ports P) where
  -- The predicate, and the count of the pending lines.
  abbrev pub Counted : Run js S → Type 0
  Counted r = P r.outer × (r.progress.pending_line_count ≡ pending_size r.progress)

  lift-Keeps : {A : Type 0} {m : Attempt S A} → Keeps P m → Keeps Counted (lift m)
  unfolding lift
  lift-Keeps h = record { after = λ r c. (h.after r.outer c.0, c.1) }

  emit-Keeps : (x : Signal) → Keeps Counted (emit ports settings job x)
  unfolding emit
  emit-Keeps x = record { after = λ r c. (k.signal x r.outer c.0, c.1) }

  time-Keeps : Keeps Counted (time ports settings job)
  unfolding time
  time-Keeps = record { after = λ r c. c }

  advance-Keeps :
      (f : Progress js → Progress js)
      → ((p : Progress js)
          → p.pending_line_count ≡ pending_size p
          → (f p).pending_line_count ≡ pending_size (f p))
      → Keeps Counted (advance f)
  unfolding advance
  advance-Keeps f h = record { after = λ r c. (c.0, h r.progress c.1) }

  permit-Keeps :
      {A : Type 0} {m : Attempt (Run js S) A}
      → Keeps Counted m
      → (x : Semaphore × Bool) (r : Run js S) → Counted r
      → Counted (with_permit m x r).1
  unfolding with_permit pending_size
  permit-Keeps h (l, true) r c =
      h.after (record r { progress = record (r.progress) { limiter = l } }) c
  permit-Keeps h (l, false) r c = c

  limited-Keeps :
      {A : Type 0} {m : Attempt (Run js S) A} → Keeps Counted m → Keeps Counted (limited m)
  unfolding limited
  limited-Keeps h = record { after = λ r c. permit-Keeps h (acquire 0 r.progress.limiter) r c }

  persist-Keeps :
      (i : PersistBatchInput js) (persist_start : ℕ)
      → i.processed_delta ≡ length i.scored + length i.rejected
      → Keeps Counted (persist ports settings job i persist_start)
  unfolding persist retry_options emit_rejected count_result pending_size
  persist-Keeps i persist_start h =
      Keeps-bind
        (lift-Keeps (
          Keeps-retry ports.retry (retry_options ports settings job) (ports.persist_batch i)
            (k.persist_batch i h) (λ x s p. k.signal _ _ (k.signal _ s p)) k.sleep))
        λ result s e.
          Keeps-then (advance-Keeps (count_result ports settings job result) (λ p q. q)) (
            Keeps-bind time-Keeps λ now s e. Keeps-then (emit-Keeps _) (
              Keeps-then (emit-Keeps _)
                (Keeps-then (emit-Keeps _) (Keeps-for_each i.rejected (λ r. emit-Keeps _)))))

  score-Keeps : (is : List (ScoringInput js)) → Keeps Counted (score ports settings job is)
  unfolding score
  score-Keeps [] = Keeps-pure []
  score-Keeps (i ∷ is) = Keeps-bind time-Keeps λ started s e.
      Keeps-bind (lift-Keeps (k.score_batch (i ∷ is)))
        λ scored s e. Keeps-bind time-Keeps λ now s e. Keeps-then (emit-Keeps _) (Keeps-pure scored)

  assembled-Keeps :
      (is : List (ScoringInput js)) (os : List (ScoringOutput js)) → Keeps Counted (assembled is os)
  unfolding assembled
  assembled-Keeps is os = elim (Option-cases (assemble is os)) [
    | inl e ↦ rw (e, assembled) (Keeps-throw _)
    | inr (ss, e) ↦ rw (e, assembled) (Keeps-pure ss)
  ]

  length-assembled :
      (is : List (ScoringInput js)) (os : List (ScoringOutput js)) (r : Run js S)
      {ss : List (ScoredTransaction js)}
      → (assembled is os r).0 ≡ ok ss
      → length ss ≡ length is
  unfolding assembled
  length-assembled is os r {ss} h = elim (Option-cases (assemble is os)) [
    | inl e ↦ let q = rw (e, assembled) at h in cc
    | inr (ts, e) ↦ let q = rw (e, assembled) at h in length-assemble is os (e ∙ ap some cc)
  ]

  flush_batch-Keeps :
      (is : List (ScoringInput js)) (rs : List RejectedRecordInput) (n : ℕ)
      → n ≡ length is + length rs
      → Keeps Counted (flush_batch ports settings job is rs n)
  unfolding flush_batch clear pending_size
  flush_batch-Keeps is rs n h =
      Keeps-then (advance-Keeps (clear ports settings job) (λ p q. refl)) (
        Keeps-bind (score-Keeps is) λ scored s e.
          Keeps-bind (assembled-Keeps is scored) λ transactions s e.
            Keeps-bind time-Keeps λ persist_start s' e'. limited-Keeps (
              persist-Keeps _ persist_start
                (h ∙ ap (λ z. z + length rs) (sym (length-assembled is scored s e)))))

  flush-Keeps : Keeps Counted (flush ports settings job)
  unfolding flush pending_size
  flush-Keeps = record {
    after = λ r c.
        let p = r.progress in
        if_rule (λ (z : Result Thrown (Unit {0}) × Run js S). Counted z.1)
          (null p.pending_scoring && null p.pending_rejected) c
          ((flush_batch-Keeps p.pending_scoring p.pending_rejected p.pending_line_count c.1).after r
            c);
  }

  flush_if_full-Keeps : Keeps Counted (flush_if_full ports settings job)
  unfolding flush_if_full
  flush_if_full-Keeps = record {
    after = λ r c.
        if_rule (λ (z : Result Thrown (Unit {0}) × Run js S). Counted z.1)
          (leb settings.batch_size (pending_size r.progress))
          ((Keeps-then (Keeps-if _ (emit-Keeps _) (Keeps-pure tt))
              (Keeps-then (emit-Keeps _) flush-Keeps)).after
            r c)
          c;
  }

  take_in-counted :
      (e : Entry js) (p : Progress js)
      → p.pending_line_count ≡ pending_size p
      → (take_in e p).pending_line_count ≡ pending_size (take_in e p)
  unfolding take_in pending_size
  take_in-counted skipped p h = h
  take_in-counted (to_reject r) p h = omega (arith, h, length-append p.pending_rejected (r ∷ []))
  take_in-counted (to_score s) p h = omega (arith, h, length-append p.pending_scoring (s ∷ []))

  take_entry-Keeps : (e : Entry js) → Keeps Counted (take_entry ports settings job e)
  unfolding take_entry
  take_entry-Keeps skipped = Keeps-pure tt
  take_entry-Keeps (to_reject r) =
      Keeps-then (advance-Keeps _ (take_in-counted (to_reject r))) flush_if_full-Keeps
  take_entry-Keeps (to_score s) =
      Keeps-then (advance-Keeps _ (take_in-counted (to_score s))) flush_if_full-Keeps

  heartbeat-Keeps : Keeps Counted (heartbeat ports settings job)
  unfolding heartbeat pending_size
  heartbeat-Keeps = record {
    after = λ r c.
        if_rule (λ (z : Result Thrown (Unit {0}) × Run js S). Counted z.1) _
          ((Keeps-then (lift-Keeps (k.renew_lease job.id job.worker_id _))
              (Keeps-bind time-Keeps λ now s e. advance-Keeps _ (λ p q. q))).after
            r c)
          c;
  }

  check_cancelled-Keeps : Keeps Counted (check_cancelled ports settings job)
  unfolding check_cancelled
  check_cancelled-Keeps = record {
    after = λ r c.
        if_rule (λ (z : Result Thrown Bool × Run js S). Counted z.1) _
          ((Keeps-bind (lift-Keeps (k.get_status job.id)) λ x s e. Keeps-pure _).after r c) c;
  }

  settle_line-Keeps :
      (fallback_provider raw_line : Text) (stop : Bool)
      → Keeps Counted (settle_line ports settings job fallback_provider raw_line stop)
  unfolding settle_line pending_size
  settle_line-Keeps fallback_provider raw_line true =
      Keeps-then (advance-Keeps _ (λ p q. q)) (Keeps-pure true)
  settle_line-Keeps fallback_provider raw_line false = record {
    after = λ r c. (Keeps-then (take_entry-Keeps _) (Keeps-pure false)).after r c;
  }

  stop-Keeps :
      (stop : Bool) {m : Attempt (Run js S) (Unit {0})}
      → Keeps Counted m
      → Keeps Counted (elim stop [ true ↦ pure tt | false ↦ m ])
  stop-Keeps true h = Keeps-pure tt
  stop-Keeps false h = h

  read_lines-Keeps :
      (fallback_provider : Text) (failure : Option Thrown) (ls : List Text)
      → Keeps Counted (read_lines ports settings job fallback_provider failure ls)
  unfolding read_lines read_line pending_size
  read_lines-Keeps fallback_provider none [] = Keeps-pure tt
  read_lines-Keeps fallback_provider (some e) [] = Keeps-throw e
  read_lines-Keeps fallback_provider failure (l ∷ ls) =
      Keeps-bind
        (Keeps-then (advance-Keeps _ (λ p q. q)) (
          Keeps-then heartbeat-Keeps (
            Keeps-bind check_cancelled-Keeps
              λ stop s e. settle_line-Keeps fallback_provider l stop)))
        λ stop s e. stop-Keeps stop (read_lines-Keeps fallback_provider failure ls)

  pub import_lines-Keeps :
      (file : FileLocation) → Keeps Counted (import_lines ports settings job file)
  unfolding import_lines
  import_lines-Keeps file = Keeps-then (read_lines-Keeps _ _ _) flush-Keeps

  conclude-Keeps : Keeps Counted (conclude ports settings job)
  unfolding conclude
  conclude-Keeps = record {
    after = λ r c.
        (Keeps-if r.progress.was_cancelled
            (Keeps-then (lift-Keeps (k.mark_cancelled job.id job.import_id))
              (Keeps-then (emit-Keeps _) (emit-Keeps _)))
            (Keeps-then (lift-Keeps (k.mark_completed job.id job.import_id))
              (Keeps-then (emit-Keeps _) (emit-Keeps _)))).after
          r c;
  }

  fail_job-Keeps : (e : Thrown) → Keeps Counted (fail_job ports settings job e)
  unfolding fail_job
  fail_job-Keeps e =
      Keeps-then (emit-Keeps _)
        (Keeps-then (lift-Keeps (k.mark_failed job.id job.import_id _)) (emit-Keeps _))

  handle-Keeps : (e : Thrown) → Keeps Counted (handle ports settings job e)
  unfolding handle
  handle-Keeps plain = fail_job-Keeps plain
  handle-Keeps (object c o m cause) = fail_job-Keeps (object c o m cause)
  handle-Keeps (prisma_known c target fields) = fail_job-Keeps (prisma_known c target fields)
  handle-Keeps (domain (shutdown_interrupted component) cause) =
      Keeps-then (emit-Keeps _) (Keeps-throw _)
  handle-Keeps (domain e cause) = fail_job-Keeps (domain e cause)

  process-Keeps : (file : FileLocation) → Keeps Counted (process ports settings job file)
  unfolding process
  process-Keeps file =
      Keeps-catch (Keeps-then (import_lines-Keeps file) conclude-Keeps) handle-Keeps

  start-Keeps :
      (file : FileLocation) (l : Option Semaphore) → Keeps P (start ports settings job file l)
  unfolding start begin pending_size
  start-Keeps file none = record { after = λ s p. p }
  start-Keeps file (some l) = record { after = λ s p. ((process-Keeps file).after _ (p, refl)).0 }

  found-Keeps : (found : Option FileLocation) → Keeps P (process_found ports settings job found)
  unfolding process_found
  found-Keeps none = k.mark_failed job.id job.import_id _
  found-Keeps (some file) =
      Keeps-bind (k.count_lines file.storage_path)
        λ n s e. Keeps-then (k.mark_processing job.id job.import_id n) (start-Keeps file _)

  pub execute-Keeps : Keeps P (execute ports settings job)
  unfolding execute
  execute-Keeps = Keeps-bind (k.find_file job.import_id) λ found s e. found-Keeps found
