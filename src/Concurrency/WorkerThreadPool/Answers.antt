-- ===== src/Concurrency/WorkerThreadPool/Answers.antt =====
-- What holds of every call that the pool has been given.
use high_throughput_transact.Base.{
  ℕ, zero, suc, ◌+◌, ◌≤◌, ◌<◌, ◌≡◌, refl, sym, ap, ◌∙◌, ◌⊎◌, inl, inr, Bool, true, false, Option,
  none, Option-cases, String, ◌||◌, some, List, [], ◌∷◌, ◌++◌, arith, ◌==◌, if◌then◌else◌,
  Bool-cases, if_rule, length, null, elem,
}
use high_throughput_transact.Concurrency.WorkerThreadPool.{
  PendingTask, Answer, Current, Message, WorkerThreadPool, spawn_slot, spawn_slots, on_module_init,
  dispatch, settle, score_batch, reject_all, begin_shutdown, end_shutdown, on_message, lose_worker,
  on_error, on_exit, Step, calls, posts, fails, exits, shuts_down, terminated, Steps, here, next,
  replace_slot, free, accept_message, slot_of, rejected, answer_of, change_slot,
}
use high_throughput_transact.Concurrency.WorkerThreadPool.Slots.{
  one_if, count, queued, running, Coherent, queued-snoc, dispatch_slots-saturates,
}
use high_throughput_transact.Concurrency.WorkerThreadPool.Handlers.{
  answered, known, Saturated, Kept, answered-reject_all, dispatch-Kept, lose_worker-Kept,
  on_message-Kept, on_exit-Kept,
}

count-absent : (c : ℕ) (xs : List ℕ) → elem c xs ≡ false → count c xs ≡ 0
unfolding count
count-absent c [] h = refl
count-absent c (x ∷ xs) h = ground (arith, count-absent c xs)

pub elem-of-count : (c : ℕ) (xs : List ℕ) → 0 < count c xs → elem c xs ≡ true
elem-of-count c xs h = elim (Bool-cases (elem c xs)) [
  | inl e ↦ e
  | inr e ↦ absurd (omega (arith, count-absent c xs e))
]

spawn_slots-idle :
    (I : Type 0) (n w : ℕ)
    → Coherent {I = I} (spawn_slots n w)
      × (length (spawn_slots {I = I} n w) ≡ n)
      × ((c : ℕ) → running {I = I} c (spawn_slots n w) ≡ 0)
unfolding spawn_slots running
spawn_slots-idle I zero w = (tt, refl, λ c. refl)
spawn_slots-idle I (suc n) w =
    let (coherent, sized, idle) = spawn_slots-idle I n (suc w) in
    ((refl, coherent), ap suc sized, λ c. omega (arith, idle c))

module _ {I O : Type 0} where
  pub record Inv (size : ℕ) (p : WorkerThreadPool I O) : Type 0 where
    pub coherent : Coherent p.slots
    pub once : (c : ℕ) → count c p.called ≤ 1
    pub bounded : (c : ℕ) → known c p ≤ count c p.called
    pub conserved : p.shutting_down ≡ false → (c : ℕ) → known c p ≡ count c p.called
    pub sized : p.shutting_down ≡ false → length p.slots ≡ size

  Kept-Inv : {size : ℕ} {p q : WorkerThreadPool I O} → Kept p q → Inv size p → Inv size q
  Kept-Inv {size} {p} {q} k v = record {
    coherent = k.coherent v.coherent;
    once = λ c. rw k.called_eq (v.once c);
    bounded = λ c. rw (k.called_eq, k.known_eq c) (v.bounded c);
    conserved = λ e c. rw (k.called_eq, k.known_eq c) (v.conserved (sym k.flag_eq ∙ e) c);
    sized = λ e. k.length_eq ∙ v.sized (sym k.flag_eq ∙ e);
  }

  -- A call that is noted, and then answered at once or put in the queue.
  record Noted (caller : ℕ) (p q : WorkerThreadPool I O) : Type 0 where
    known_eq : (c : ℕ) → known c q ≡ one_if (c == caller) + known c p
    slots_eq : q.slots ≡ p.slots
    called_eq : q.called ≡ caller ∷ p.called
    flag_eq : q.shutting_down ≡ p.shutting_down

  Noted-Inv :
      {size : ℕ} (caller : ℕ) {p q : WorkerThreadPool I O}
      → elem caller p.called ≡ false
      → Noted caller p q
      → Inv size p
      → Inv size q
  unfolding count
  Noted-Inv {size} caller {p} {q} new k v = record {
    coherent = rw k.slots_eq v.coherent;
    once = λ c. rw k.called_eq (ground (arith, count-absent c p.called, v.once c));
    bounded = λ c. rw (k.called_eq, k.known_eq c) (omega (arith, v.bounded c));
    conserved =
        λ e c. rw (k.called_eq, k.known_eq c) (omega (arith, v.conserved (sym k.flag_eq ∙ e) c));
    sized = λ e. ap length k.slots_eq ∙ v.sized (sym k.flag_eq ∙ e);
  }

  settle-Noted :
      (caller : ℕ) (a : Answer O) (p : WorkerThreadPool I O)
      → Noted caller p (settle caller a (record p { called = caller ∷ p.called }))
  unfolding settle answered
  settle-Noted caller a p = record {
    known_eq = λ c. omega arith;
    slots_eq = refl;
    called_eq = refl;
    flag_eq = refl;
  }

  enqueue-Noted :
      (caller : ℕ) (t : PendingTask I) (p : WorkerThreadPool I O)
      → t.caller ≡ caller
      → Noted caller p (record p { called = caller ∷ p.called; queue = p.queue ++ t ∷ [] })
  enqueue-Noted caller t p e = record {
    known_eq = λ c. rw (← e) (omega (arith, queued-snoc c p.queue t));
    slots_eq = refl;
    called_eq = refl;
    flag_eq = refl;
  }

  score_batch-Inv :
      {size : ℕ} (caller : ℕ) (inputs : List I) (p : WorkerThreadPool I O)
      → elem caller p.called ≡ false
      → Inv size p
      → Inv size (score_batch caller inputs p)
  unfolding score_batch
  score_batch-Inv {size} caller inputs p new v =
      let waiting = Noted-Inv caller new (enqueue-Noted caller _ p refl) v in
      if_rule (Inv size) p.shutting_down (Noted-Inv caller new (settle-Noted caller _ p) v) (
        if_rule (Inv size) (null inputs) (Noted-Inv caller new (settle-Noted caller _ p) v)
          (Kept-Inv (dispatch-Kept _ waiting.coherent) waiting))

  begin_shutdown-Inv :
      {size : ℕ} (p : WorkerThreadPool I O) → Inv size p → Inv size (begin_shutdown p)
  unfolding begin_shutdown queued
  begin_shutdown-Inv {size} p v = if_rule (Inv size) p.shutting_down v (record {
    coherent = v.coherent;
    once = v.once;
    bounded = λ c. omega (arith, v.bounded c, answered-reject_all c p.queue p.answers);
    conserved = λ e. cc;
    sized = λ e. cc;
  })

  end_shutdown-Inv :
      {size : ℕ} (p : WorkerThreadPool I O)
      → p.shutting_down ≡ true
      → Inv size p
      → Inv size (end_shutdown p)
  unfolding end_shutdown running
  end_shutdown-Inv {size} p h v = record {
    coherent = tt;
    once = v.once;
    bounded = λ c. omega (arith, v.bounded c);
    conserved = λ e. cc;
    sized = λ e. cc;
  }

  pub record Live (p : WorkerThreadPool I O) : Type 0 where
    pub busy_or_closed : (p.shutting_down ≡ true) ⊎ Saturated p

  dispatch-Live : (p : WorkerThreadPool I O) → Live (dispatch p)
  unfolding dispatch
  dispatch-Live p = record {
    busy_or_closed = elim (Bool-cases p.shutting_down) [
      | inl e ↦ inl (rw e)
      | inr e ↦ inr (rw e (dispatch_slots-saturates p.slots p.queue p.next_task_id))
    ];
  }

  closed-Live : (p : WorkerThreadPool I O) → p.shutting_down ≡ true → Live p
  closed-Live p e = record { busy_or_closed = inl e }

  closed_or_Live :
      (b : Bool) (p q : WorkerThreadPool I O)
      → p.shutting_down ≡ b
      → Live q
      → Live (if b then p else q)
  closed_or_Live true p q e l = closed-Live p e
  closed_or_Live false p q e l = l

  replace_slot-Live : (worker : ℕ) (p : WorkerThreadPool I O) → Live (replace_slot worker p)
  unfolding replace_slot
  replace_slot-Live worker p =
      let q = record p {
        slots = change_slot worker (λ _. spawn_slot p.spawned) p.slots;
        spawned = p.spawned + 1;
      } in
      closed_or_Live p.shutting_down p (dispatch q) refl (dispatch-Live q)

  lose_worker-Live :
      (worker : ℕ) (reason : String) (p : WorkerThreadPool I O)
      → Live p
      → Live (lose_worker worker reason p)
  unfolding lose_worker
  lose_worker-Live worker reason p l = elim (Option-cases (slot_of worker p.slots)) [
    | inl e ↦ rw (e, lose_worker) l
    | inr (s, e) ↦
        rw (e, lose_worker) (replace_slot-Live worker (free worker (rejected reason) s.current p))
  ]

  accept_message-Live :
      (worker : ℕ) (m : Message O) (o : Option (Current I)) (p : WorkerThreadPool I O)
      → Live p
      → Live (accept_message worker m o p)
  unfolding accept_message
  accept_message-Live worker m none p l = l
  accept_message-Live worker m (some c) p l =
      if_rule Live (c.task_id == m.task_id) (dispatch-Live (free worker (answer_of m) (some c) p)) l

  on_message-Live :
      (worker : ℕ) (m : Message O) (p : WorkerThreadPool I O)
      → Live p
      → Live (on_message worker m p)
  unfolding on_message
  on_message-Live worker m p l = elim (Option-cases (slot_of worker p.slots)) [
    | inl e ↦ rw (e, on_message) l
    | inr (s, e) ↦ rw (e, on_message) (accept_message-Live worker m s.current p l)
  ]

  score_batch-Live :
      (caller : ℕ) (inputs : List I) (p : WorkerThreadPool I O)
      → Live p
      → Live (score_batch caller inputs p)
  unfolding score_batch settle
  score_batch-Live caller inputs p l =
      let waiting = record p {
        called = caller ∷ p.called;
        queue = p.queue ++ record { caller = caller; inputs = inputs } ∷ [];
      } in
      if_rule Live p.shutting_down (record { busy_or_closed = l.busy_or_closed })
        (if_rule Live (null inputs) (record { busy_or_closed = l.busy_or_closed })
          (dispatch-Live waiting))

  begin_shutdown-Live : (p : WorkerThreadPool I O) → Live p → Live (begin_shutdown p)
  unfolding begin_shutdown
  begin_shutdown-Live p l =
      let closing = record p {
        shutting_down = true;
        queue = [];
        answers = reject_all p.queue p.answers;
      } in
      if_rule Live p.shutting_down l (closed-Live closing refl)

  abbrev pub Sound : ℕ → WorkerThreadPool I O → Type 0
  Sound size p = Inv size p × Live p

  Step-Sound : {size : ℕ} {p q : WorkerThreadPool I O} → Step p q → Sound size p → Sound size q
  unfolding on_error on_exit end_shutdown
  Step-Sound {p} (calls caller inputs new) (v, l) =
      (score_batch-Inv caller inputs p new v, score_batch-Live caller inputs p l)
  Step-Sound {p} (posts worker m) (v, l) =
      (Kept-Inv (on_message-Kept worker m p v.coherent) v, on_message-Live worker m p l)
  Step-Sound {p} (fails worker message) (v, l) = (
    Kept-Inv (lose_worker-Kept worker message p v.coherent) v,
    lose_worker-Live worker message p l,
  )
  Step-Sound {p} (exits worker exit_code message) (v, l) = (
    Kept-Inv (on_exit-Kept worker exit_code message p v.coherent) v,
    if_rule Live (p.shutting_down || exit_code == 0) l (lose_worker-Live worker message p l),
  )
  Step-Sound {p} shuts_down (v, l) = (begin_shutdown-Inv p v, begin_shutdown-Live p l)
  Step-Sound {p} (terminated h) (v, l) = (end_shutdown-Inv p h v, closed-Live _ h)

  init-Sound : (size : ℕ) → Sound size (on_module_init size)
  unfolding on_module_init queued answered count
  init-Sound size =
      let (coherent, sized, idle) = spawn_slots-idle I size 0 in
      (
        record {
          coherent = coherent;
          once = λ c. omega arith;
          bounded = λ c. omega (arith, idle c);
          conserved = λ e c. omega (arith, idle c);
          sized = λ e. sized;
        },
        record { busy_or_closed = inr (inl refl) },
      )

  pub Steps-Sound :
      {size : ℕ} {p : WorkerThreadPool I O} → Steps (on_module_init size) p → Sound size p
  Steps-Sound {size} here = init-Sound size
  Steps-Sound (next r st) = Step-Sound st (Steps-Sound r)

  -- However calls are made, worker threads post, fail and exit, and the pool is shut down, the pool
  -- knows of each call at most once: it waits, runs on one slot, or has been answered. Until the
  -- shutdown it knows of each call exactly once, it has all its slots, and while a call waits every
  -- slot is busy.
  pub pool_tracks_calls :
      (size c : ℕ) {p : WorkerThreadPool I O}
      → Steps (on_module_init size) p
      → (known c p ≤ count c p.called)
        × (count c p.called ≤ 1)
        × ((p.shutting_down ≡ true)
            ⊎ ((known c p ≡ count c p.called) × (length p.slots ≡ size) × Saturated p))
  pool_tracks_calls size c {p} r =
      let (v, l) : Sound size p = Steps-Sound r in
      (v.bounded c, v.once c, running_still (Bool-cases p.shutting_down) v l.busy_or_closed)
    where
      running_still :
          (p.shutting_down ≡ true) ⊎ (p.shutting_down ≡ false)
          → Inv size p
          → (p.shutting_down ≡ true) ⊎ Saturated p
          → (p.shutting_down ≡ true)
            ⊎ ((known c p ≡ count c p.called) × (length p.slots ≡ size) × Saturated p)
      running_still (inl e) v l = inl e
      running_still (inr e) v (inl f) = inl f
      running_still (inr e) v (inr s) = inr (v.conserved e c, v.sized e, s)
