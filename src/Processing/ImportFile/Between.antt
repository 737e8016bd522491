-- ===== src/Processing/ImportFile/Between.antt =====
-- What a line, a heartbeat and a look at the status leave of the batches that
-- src/application/use-cases/process-import-file.use-case.ts has sent and has still to send.
use high_throughput_transact.Base.{
  ℕ, ◌-◌, ◌%◌, ◌≤◌, ◌<◌, refl, sym, ap, ◌∙◌, inl, inr, Bool, true, false, ◌||◌, none, List, [], ◌∷◌,
  ◌++◌, arith, ltb, leb, ◌==◌, if◌then◌else◌, Bool-cases, length-append, pure, ◌>>=◌, ◌>>◌,
}
use high_throughput_transact.Js.{Js}
use high_throughput_transact.Concurrency.Semaphore.{in_flight, queue_depth}
use high_throughput_transact.Database.JobRepository.{ClaimedJob}
use high_throughput_transact.Database.TransactionRepository.{PersistBatchInput}
use high_throughput_transact.Processing.Ports.{Signal, counter, gauge, Ports, Settings}
use high_throughput_transact.Processing.Progress.{
  Entry, skipped, to_reject, to_score, take_in, pending_size,
}
use high_throughput_transact.Processing.Returns.{Returns, Returns-bind, Returns-at, Returns-weaken}
use mathlib.Core.List.{append-nil, append_assoc}
use high_throughput_transact.Processing.ImportFile.{
  Run, is_cancelling, lift, advance, emit, time, flush, flush_if_full, take_entry, heartbeat,
  check_cancelled, heartbeat_interval_ms, lease_duration_ms, cancellation_check_interval,
}
use high_throughput_transact.Processing.ImportFile.Steps.{
  Observed, Steady, emit-Steady, time-Steady, lift-Steady,
}
use high_throughput_transact.Processing.ImportFile.Sent.{
  scores, rejects, scores-append, rejects-append, scored_of, rejected_of, cap, Quiet, Held,
  Steady-Held, flush-Held,
}

module _ {js : Js} {S : Type 0} (ports : Ports js S) (sent : S → List (PersistBatchInput js))
    (o : Observed ports sent) (job : ClaimedJob) (settings : Settings) where
  abbrev pub Stands : List (Entry js) → ℕ → Bool → Run js S → Type 0
  Stands past n c = Held ports sent o job settings past n c

  abbrev at_rest : (r : Run js S) → Quiet ports sent o job settings r r
  at_rest r = record {
    history = refl;
    scoring = refl;
    rejected = refl;
    line_count = refl;
    line_number = refl;
    limiter = refl;
    cancelled = refl;
  }

  -- Between two lines there is room in the batch.
  abbrev pub Between : List (Entry js) → ℕ → Bool → Run js S → Type 0
  Between past n c r = Stands past n c r × (pending_size r.progress < cap ports sent o job settings)

  flush_if_full-Between :
      {past : List (Entry js)} {n : ℕ} {c : Bool} {r : Run js S}
      → Stands past n c r
      → pending_size r.progress ≤ cap ports sent o job settings
      → Returns (flush_if_full ports settings job) r (λ a. Between past n c)
  unfolding flush_if_full pending_size
  flush_if_full-Between {past} {n} {c} {r} i size =
      elim (Bool-cases (leb settings.batch_size (pending_size r.progress))) [
        | inr e ↦ Returns-at tt r (rw (e, flush_if_full)) (i, ground (arith, size))
        | inl e ↦ record { holds = λ a. rw (e, flush_if_full) (full.holds a) }
      ]
    where
      after : Run js S → Type 0
      after s = Steady ports sent o job settings (sent r.outer) r.progress s

      warned :
          (b : Bool) (x : Signal)
          → Returns (if b then emit ports settings job x else pure tt) r (λ a. after)
      warned true x = emit-Steady ports sent o job settings x (at_rest r)
      warned false x = Returns-at tt r refl (at_rest r)

      full :
          Returns
            (do
              (if ltb 0 (queue_depth r.progress.limiter)
                    || leb settings.max_concurrent_persists (in_flight r.progress.limiter)
                  then emit ports settings job (counter "backpressure_waits_total" none 1)
                  else pure tt)
              emit ports settings job (gauge "persist_queue_depth" (queue_depth r.progress.limiter))
              flush ports settings job)
            r
            (λ a. Between past n c)
      full =
          Returns-bind (λ a. after) (warned _ _)
            λ u s q.
              Returns-bind (λ a. after) (emit-Steady ports sent o job settings _ q)
                λ u s q.
                  Returns-weaken (λ a s (i, e, f). (i, rw (e, f) (ground arith)))
                    (flush-Held ports sent o job settings
                      (Steady-Held ports sent o job settings i q)
                      (rw (q.scoring, q.rejected, pending_size) size))

  take_in-Held :
      {past : List (Entry js)} {n : ℕ} {c : Bool} {r : Run js S} (e : Entry js)
      → Between past n c r
      → let s = record r { progress = take_in e r.progress } in
        Stands (past ++ e ∷ []) n c s × (pending_size s.progress ≤ cap ports sent o job settings)
  unfolding take_in pending_size
  take_in-Held {past} {n} {c} {r} skipped (i, room) = (
    record {
      scored = i.scored ∙ sym (scores-append past (skipped ∷ []) ∙ append-nil (scores past));
      rejected = i.rejected ∙ sym (rejects-append past (skipped ∷ []) ∙ append-nil (rejects past));
      counted = i.counted;
      batches = i.batches;
      idle = i.idle;
      line_number = i.line_number;
      cancelled = i.cancelled;
    },
    omega (arith, room),
  )
  take_in-Held {past} {n} {c} {r} (to_reject x) (i, room) =
      let l = length-append r.progress.pending_rejected (x ∷ []) in
      (
        record {
          scored =
              i.scored ∙ sym (scores-append past (to_reject x ∷ []) ∙ append-nil (scores past));
          rejected =
              sym (append_assoc (rejected_of (sent r.outer)) r.progress.pending_rejected (x ∷ []))
              ∙ ap (λ z. z ++ x ∷ []) i.rejected
              ∙ sym (rejects-append past (to_reject x ∷ []));
          counted = omega (arith, i.counted, l);
          batches = i.batches;
          idle = i.idle;
          line_number = i.line_number;
          cancelled = i.cancelled;
        },
        omega (arith, room, l),
      )
  take_in-Held {past} {n} {c} {r} (to_score x) (i, room) =
      let l = length-append r.progress.pending_scoring (x ∷ []) in
      (
        record {
          scored =
              sym (append_assoc (scored_of (sent r.outer)) r.progress.pending_scoring (x ∷ []))
              ∙ ap (λ z. z ++ x ∷ []) i.scored
              ∙ sym (scores-append past (to_score x ∷ []));
          rejected =
              i.rejected ∙ sym (rejects-append past (to_score x ∷ []) ∙ append-nil (rejects past));
          counted = omega (arith, i.counted, l);
          batches = i.batches;
          idle = i.idle;
          line_number = i.line_number;
          cancelled = i.cancelled;
        },
        omega (arith, room, l),
      )

  taken_in :
      {past : List (Entry js)} {n : ℕ} {c : Bool} {r : Run js S} (e : Entry js)
      → Between past n c r
      → Returns
          (advance (take_in e) >> flush_if_full ports settings job)
          r
          (λ a. Between (past ++ e ∷ []) n c)
  unfolding advance
  taken_in {past} {n} {c} {r} e i =
      let (held, size) = take_in-Held e i in
      Returns-bind
        (λ a s.
          Stands (past ++ e ∷ []) n c s × (pending_size s.progress ≤ cap ports sent o job settings))
        (Returns-at tt (record r { progress = take_in e r.progress }) refl (held, size))
        λ u s (held, size). flush_if_full-Between held size

  pub take_entry-Between :
      {past : List (Entry js)} {n : ℕ} {c : Bool} {r : Run js S} (e : Entry js)
      → Between past n c r
      → Returns (take_entry ports settings job e) r (λ a. Between (past ++ e ∷ []) n c)
  unfolding take_entry take_in
  take_entry-Between {r = r} skipped i = Returns-at tt r refl ((take_in-Held skipped i).0, i.1)
  take_entry-Between (to_reject x) i = taken_in (to_reject x) i
  take_entry-Between (to_score x) i = taken_in (to_score x) i

  Between-quiet :
      {past : List (Entry js)} {n : ℕ} {c : Bool} {r s : Run js S}
      → Quiet ports sent o job settings r s
      → Between past n c r
      → Between past n c s
  unfolding pending_size
  Between-quiet q (i, room) =
      (Steady-Held ports sent o job settings i q, rw (q.scoring, q.rejected) room)

  pub heartbeat-Between :
      {past : List (Entry js)} {n : ℕ} {c : Bool} {r : Run js S}
      → Between past n c r
      → Returns (heartbeat ports settings job) r (λ a. Between past n c)
  unfolding heartbeat advance
  heartbeat-Between {past} {n} {c} {r} i =
      elim (Bool-cases
        (ltb heartbeat_interval_ms (ports.date_now r.outer - r.progress.last_heartbeat))) [
          | inr e ↦ Returns-at tt r (rw (e, heartbeat)) i
          | inl e ↦ record { holds = λ a. rw (e, heartbeat) (due.holds a) }
        ]
    where
      due :
          Returns
            (do
              lift (ports.renew_lease job.id job.worker_id lease_duration_ms)
              now ← time ports settings job
              advance (λ p. record p { last_heartbeat = now }))
            r
            (λ a. Between past n c)
      due =
          Returns-bind (λ a. Quiet ports sent o job settings r)
            (lift-Steady ports sent o job settings _ (sent r.outer) (at_rest r)
              (λ a e. o.renewing job.id job.worker_id lease_duration_ms r.outer))
            λ u s q.
              Returns-bind (λ a. Quiet ports sent o job settings r)
                (time-Steady ports sent o job settings q)
                λ now s q.
                  Returns-at tt
                    (record s { progress = record (s.progress) { last_heartbeat = now } }) refl
                    (Between-quiet
                      (record {
                        history = q.history;
                        scoring = q.scoring;
                        rejected = q.rejected;
                        line_count = q.line_count;
                        line_number = q.line_number;
                        limiter = q.limiter;
                        cancelled = q.cancelled;
                      })
                      i)

  pub check_cancelled-Between :
      {past : List (Entry js)} {n : ℕ} {c : Bool} {r : Run js S}
      → Between past n c r
      → Returns (check_cancelled ports settings job) r (λ a. Between past n c)
  unfolding check_cancelled
  check_cancelled-Between {past} {n} {c} {r} i =
      elim (Bool-cases (r.progress.line_number % cancellation_check_interval == 0)) [
        | inr e ↦ Returns-at false r (rw (e, check_cancelled)) i
        | inl e ↦ record { holds = λ a. rw (e, check_cancelled) (due.holds a) }
      ]
    where
      due :
          Returns
            (lift (ports.get_status job.id) >>= λ s. pure (is_cancelling s))
            r
            (λ a. Between past n c)
      due =
          Returns-bind (λ a. Quiet ports sent o job settings r)
            (lift-Steady ports sent o job settings _ (sent r.outer) (at_rest r)
              (λ a e. o.looking job.id r.outer))
            λ x s q. Returns-at (is_cancelling x) s refl (Between-quiet q i)
