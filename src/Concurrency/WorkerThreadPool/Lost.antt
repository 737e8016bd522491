-- ===== src/Concurrency/WorkerThreadPool/Lost.antt =====
-- What becomes of the calls that run when the workers are terminated by the shutdown.
use high_throughput_transact.Base.{
  ℕ, ◌<◌, ◌≡◌, refl, sym, subst, true, none, String, ◌||◌, [], arith, ◌==◌, if_rule, if_true,
  ==_iff, elem,
}
use high_throughput_transact.Database.Table.{find_where}
use high_throughput_transact.Concurrency.WorkerThreadPool.{
  Message, WorkerThreadPool, on_module_init, settle, score_batch, begin_shutdown, end_shutdown,
  on_message, lose_worker, on_error, on_exit, Step, calls, posts, fails, exits, shuts_down,
  terminated, Steps, here, next, slot_of,
}
use high_throughput_transact.Concurrency.WorkerThreadPool.Slots.{running}
use high_throughput_transact.Concurrency.WorkerThreadPool.Handlers.{answered}
use high_throughput_transact.Concurrency.WorkerThreadPool.Answers.{
  Sound, Steps-Sound, elem-of-count,
}

module _ {I O : Type 0} where
  -- What a pool is after its shutdown, for a call that it has lost.
  record Forgotten (c : ℕ) (p : WorkerThreadPool I O) : Type 0 where
    closed : p.shutting_down ≡ true
    no_slots : p.slots ≡ []
    old : elem c p.called ≡ true
    unanswered : answered c p.answers ≡ 0

  absent : (worker : ℕ) (p : WorkerThreadPool I O) → p.slots ≡ [] → slot_of worker p.slots ≡ none
  unfolding slot_of find_where
  absent worker p h = rw h

  on_message-absent :
      (worker : ℕ) (m : Message O) (p : WorkerThreadPool I O)
      → p.slots ≡ []
      → on_message worker m p ≡ p
  unfolding on_message
  on_message-absent worker m p h = let e = absent worker p h in rw (e, on_message)

  lose_worker-absent :
      (worker : ℕ) (reason : String) (p : WorkerThreadPool I O)
      → p.slots ≡ []
      → lose_worker worker reason p ≡ p
  unfolding lose_worker
  lose_worker-absent worker reason p h = let e = absent worker p h in rw (e, lose_worker)

  Step-Forgotten : (c : ℕ) {p q : WorkerThreadPool I O} → Step p q → Forgotten c p → Forgotten c q
  unfolding score_batch settle on_error on_exit begin_shutdown end_shutdown answered
  Step-Forgotten c {p} (calls caller inputs new) f =
      subst (Forgotten c) (sym (if_true p.shutting_down _ f.closed)) (record {
        closed = f.closed;
        no_slots = f.no_slots;
        old = ground (arith, f.old);
        unanswered = ground (arith, f.unanswered, f.old, ==_iff c caller);
      })
  Step-Forgotten c {p} (posts worker m) f =
      subst (Forgotten c) (sym (on_message-absent worker m p f.no_slots)) f
  Step-Forgotten c {p} (fails worker message) f =
      subst (Forgotten c) (sym (lose_worker-absent worker message p f.no_slots)) f
  Step-Forgotten c {p} (exits worker exit_code message) f =
      if_rule (Forgotten c) (p.shutting_down || exit_code == 0) f
        (subst (Forgotten c) (sym (lose_worker-absent worker message p f.no_slots)) f)
  Step-Forgotten c {p} shuts_down f =
      subst (Forgotten c) (sym (if_true p.shutting_down _ f.closed)) f
  Step-Forgotten c {p} (terminated h) f = record {
    closed = f.closed;
    no_slots = refl;
    old = f.old;
    unanswered = f.unanswered;
  }

  Steps-Forgotten : (c : ℕ) {p q : WorkerThreadPool I O} → Steps p q → Forgotten c p → Forgotten c q
  Steps-Forgotten c here f = f
  Steps-Forgotten c (next r st) f = Step-Forgotten c st (Steps-Forgotten c r f)

  -- A call that runs on a slot when the shutdown has terminated the workers is never answered,
  -- neither with results nor with an error, whatever happens to the pool afterwards.
  pub shutdown_forgets_running :
      (size c : ℕ) {p q : WorkerThreadPool I O}
      → Steps (on_module_init size) p
      → p.shutting_down ≡ true
      → 0 < running c p.slots
      → Steps (end_shutdown p) q
      → answered c q.answers ≡ 0
  unfolding end_shutdown
  shutdown_forgets_running size c {p} {q} r closed runs rest =
      (Steps-Forgotten c rest forgotten).unanswered
    where
      forgotten : Forgotten c (end_shutdown p)
      forgotten =
          let (v, l) : Sound size p = Steps-Sound r in
          record {
            closed = closed;
            no_slots = refl;
            old = elem-of-count c p.called (omega (arith, v.bounded c));
            unanswered = omega (arith, v.bounded c, v.once c);
          }
