-- ===== src/Concurrency/WorkerThreadPool/Handlers.antt =====
-- Each handler of the pool keeps what is known of the calls: in all, a call stands as often in the
-- queue, on the slots and among the answers.
use high_throughput_transact.Base.{
  ℕ, ◌+◌, ◌≡◌, refl, sym, ◌∙◌, ◌⊎◌, inl, inr, Bool, true, false, ◌||◌, Option, none, some, List, [],
  ◌∷◌, arith, ◌==◌, if◌then◌else◌, Bool-cases, Option-cases, length, String,
}
use high_throughput_transact.Concurrency.WorkerThreadPool.{
  PendingTask, Current, WorkerSlot, Answer, Message, WorkerThreadPool, free_slot, change_slot,
  slot_of, spawn_slot, dispatch, settle, rejected, answer_of, reject_all, replace_slot, free,
  accept_message, on_message, lose_worker, on_exit,
}
use high_throughput_transact.Concurrency.WorkerThreadPool.Slots.{
  one_if, queued, held, running, Coherent, all_busy, dispatch_slots-counts, dispatch_slots-Coherent,
  length-dispatch_slots, change_slot-counts, change_slot-Coherent, length-change_slot, slot_of-free,
  free_slot-Coherent,
}

unfoldable pub answered : {O : Type 0} → ℕ → List (ℕ × Answer O) → ℕ
answered c [] = 0
answered c ((x, a) ∷ xs) = one_if (c == x) + answered c xs

module _ {I O : Type 0} where
  slot_of-freed :
      (worker : ℕ) (a : Answer O) (o : Option (Current I)) (p : WorkerThreadPool I O)
      {s : WorkerSlot I}
      → slot_of worker p.slots ≡ some s
      → slot_of worker (free worker a o p).slots ≡ some (free_slot s)
  unfolding free settle
  slot_of-freed worker a none p h = slot_of-free worker p.slots h
  slot_of-freed worker a (some k) p h = slot_of-free worker p.slots h

  -- The calls of this name that the pool knows of.
  abbrev pub known : ℕ → WorkerThreadPool I O → ℕ
  known c p = queued c p.queue + running c p.slots + answered c p.answers

  abbrev pub Saturated : WorkerThreadPool I O → Type 0
  Saturated p = (p.queue ≡ []) ⊎ (all_busy p.slots ≡ true)

  pub answered-reject_all :
      (c : ℕ) (ts : List (PendingTask I)) (xs : List (ℕ × Answer O))
      → answered c (reject_all ts xs) ≡ queued c ts + answered c xs
  unfolding reject_all answered queued
  answered-reject_all c [] xs = omega arith
  answered-reject_all c (t ∷ ts) xs = omega (arith, answered-reject_all c ts _)

  pub record Kept (p q : WorkerThreadPool I O) : Type 0 where
    pub known_eq : (c : ℕ) → known c q ≡ known c p
    pub coherent : Coherent p.slots → Coherent q.slots
    pub called_eq : q.called ≡ p.called
    pub length_eq : length q.slots ≡ length p.slots
    pub flag_eq : q.shutting_down ≡ p.shutting_down

  pub dispatch-Kept : (p : WorkerThreadPool I O) → Coherent p.slots → Kept p (dispatch p)
  unfolding dispatch
  dispatch-Kept p h = elim (Bool-cases p.shutting_down) [
    | inl e ↦ simp e (record {
      known_eq = λ c. refl;
      coherent = λ k. k;
      called_eq = refl;
      length_eq = refl;
      flag_eq = refl;
    })
    | inr e ↦ simp e (record {
      known_eq = λ c. omega (arith, dispatch_slots-counts c p.slots p.queue p.next_task_id h);
      coherent = dispatch_slots-Coherent p.slots p.queue p.next_task_id;
      called_eq = refl;
      length_eq = length-dispatch_slots p.slots p.queue p.next_task_id;
      flag_eq = sym e;
    })
  ]

  free-counts :
      (c worker : ℕ) (a : Answer O) (o : Option (Current I)) (p : WorkerThreadPool I O)
      {s : WorkerSlot I}
      → slot_of worker p.slots ≡ some s
      → s.current ≡ o
      → known c (free worker a o p) ≡ known c p
  unfolding free settle free_slot answered
  free-counts c worker a none p {s} h e =
      let l = change_slot-counts c worker free_slot p.slots h in
      let idle : held c s.current ≡ 0 = rw e refl in omega arith
  free-counts c worker a (some k) p {s} h e =
      let l = change_slot-counts c worker free_slot p.slots h in
      let busy : held c s.current ≡ one_if (c == k.task.caller) = rw e refl in omega arith

  free-Kept :
      (worker : ℕ) (a : Answer O) (o : Option (Current I)) (p : WorkerThreadPool I O)
      {s : WorkerSlot I}
      → slot_of worker p.slots ≡ some s
      → s.current ≡ o
      → Kept p (free worker a o p)
  unfolding free settle
  free-Kept worker a none p h e = record {
    known_eq = λ c. free-counts c worker a none p h e;
    coherent = change_slot-Coherent worker free_slot p.slots free_slot-Coherent;
    called_eq = refl;
    length_eq = length-change_slot worker free_slot p.slots;
    flag_eq = refl;
  }
  free-Kept worker a (some k) p h e = record {
    known_eq = λ c. free-counts c worker a (some k) p h e;
    coherent = change_slot-Coherent worker free_slot p.slots free_slot-Coherent;
    called_eq = refl;
    length_eq = length-change_slot worker free_slot p.slots;
    flag_eq = refl;
  }

  Kept-refl : (p : WorkerThreadPool I O) → Kept p p
  Kept-refl p = record {
    known_eq = λ c. refl;
    coherent = λ k. k;
    called_eq = refl;
    length_eq = refl;
    flag_eq = refl;
  }

  Kept-trans : {p q r : WorkerThreadPool I O} → Kept p q → Kept q r → Kept p r
  Kept-trans k l = record {
    known_eq = λ c. l.known_eq c ∙ k.known_eq c;
    coherent = λ h. l.coherent (k.coherent h);
    called_eq = l.called_eq ∙ k.called_eq;
    length_eq = l.length_eq ∙ k.length_eq;
    flag_eq = l.flag_eq ∙ k.flag_eq;
  }

  Kept-if :
      (b : Bool) {p q r : WorkerThreadPool I O} → Kept p q → Kept p r → Kept p (if b then q else r)
  Kept-if true k l = k
  Kept-if false k l = l

  -- An idle slot is given a new worker.
  respawn-Kept :
      (worker : ℕ) (p : WorkerThreadPool I O) {s : WorkerSlot I}
      → slot_of worker p.slots ≡ some s
      → s.current ≡ none
      → Kept p (record p {
        slots = change_slot worker (λ _. spawn_slot p.spawned) p.slots;
        spawned = p.spawned + 1;
      })
  unfolding spawn_slot
  respawn-Kept worker p {s} h e = record {
    known_eq = λ c.
        let l = change_slot-counts c worker (λ _. spawn_slot p.spawned) p.slots h in
        let idle : held c s.current ≡ 0 = rw e refl in omega arith;
    coherent = change_slot-Coherent worker (λ _. spawn_slot p.spawned) p.slots (λ s. refl);
    called_eq = refl;
    length_eq = length-change_slot worker (λ _. spawn_slot p.spawned) p.slots;
    flag_eq = refl;
  }

  replace_slot-Kept :
      (worker : ℕ) (p : WorkerThreadPool I O) {s : WorkerSlot I}
      → slot_of worker p.slots ≡ some s
      → s.current ≡ none
      → Coherent p.slots
      → Kept p (replace_slot worker p)
  unfolding replace_slot
  replace_slot-Kept worker p {s} h e k =
      let first = respawn-Kept worker p h e in
      Kept-if p.shutting_down (Kept-refl p) (Kept-trans first (dispatch-Kept _ (first.coherent k)))

  pub lose_worker-Kept :
      (worker : ℕ) (reason : String) (p : WorkerThreadPool I O)
      → Coherent p.slots
      → Kept p (lose_worker worker reason p)
  unfolding lose_worker
  lose_worker-Kept worker reason p k = elim (Option-cases (slot_of worker p.slots)) [
    | inl e ↦ rw (e, lose_worker) (Kept-refl p)
    | inr (s, e) ↦
        let first = free-Kept worker (rejected reason) s.current p e refl in
        rw (e, lose_worker)
          (Kept-trans first (
            replace_slot-Kept worker _ (slot_of-freed worker (rejected reason) s.current p e) refl
              (first.coherent k)))
  ]

  accept_message-Kept :
      (worker : ℕ) (m : Message O) (o : Option (Current I)) (p : WorkerThreadPool I O)
      {s : WorkerSlot I}
      → slot_of worker p.slots ≡ some s
      → s.current ≡ o
      → Coherent p.slots
      → Kept p (accept_message worker m o p)
  unfolding accept_message
  accept_message-Kept worker m none p h e k = Kept-refl p
  accept_message-Kept worker m (some c) p h e k =
      let first = free-Kept worker (answer_of m) (some c) p h e in
      Kept-if (c.task_id == m.task_id) (Kept-trans first (dispatch-Kept _ (first.coherent k)))
        (Kept-refl p)

  pub on_message-Kept :
      (worker : ℕ) (m : Message O) (p : WorkerThreadPool I O)
      → Coherent p.slots
      → Kept p (on_message worker m p)
  unfolding on_message
  on_message-Kept worker m p k = elim (Option-cases (slot_of worker p.slots)) [
    | inl e ↦ rw (e, on_message) (Kept-refl p)
    | inr (s, e) ↦ rw (e, on_message) (accept_message-Kept worker m s.current p e refl k)
  ]

  pub on_exit-Kept :
      (worker exit_code : ℕ) (message : String) (p : WorkerThreadPool I O)
      → Coherent p.slots
      → Kept p (on_exit worker exit_code message p)
  unfolding on_exit
  on_exit-Kept worker exit_code message p k =
      Kept-if (p.shutting_down || exit_code == 0) (Kept-refl p)
        (lose_worker-Kept worker message p k)
