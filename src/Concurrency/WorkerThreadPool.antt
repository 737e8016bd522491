-- ===== src/Concurrency/WorkerThreadPool.antt =====
-- src/infrastructure/concurrency/worker-thread-pool.ts. A call of `scoreBatch` is named by a number,
-- its promise; a worker thread is named by the number of threads spawned before it. A handler runs
-- to its end between two turns of the event loop.
pub mod Slots
pub mod Handlers
pub mod Answers
pub mod Lost
mod Examples
use high_throughput_transact.Base.{
  ℕ, zero, suc, ◌+◌, ◌≡◌, Bool, true, false, ◌||◌, Option, none, some, List, [], ◌∷◌, ◌++◌, ◌==◌,
  if◌then◌else◌, null, String, elem,
}
use high_throughput_transact.Database.Table.{find_where}

pub record PendingTask (I : Type 0) : Type 0 where
  pub caller : ℕ
  pub inputs : List I

-- `current` with its `taskId`.
pub record Current (I : Type 0) : Type 0 where
  pub task_id : ℕ
  pub task : PendingTask I

pub record WorkerSlot (I : Type 0) : Type 0 where
  pub worker : ℕ
  pub busy : Bool
  pub current : Option (Current I)

-- How the promise of a call is settled.
pub data Answer (O : Type 0) : Type 0 where
  resolved : List O → Answer O
  rejected : String → Answer O

-- What a worker thread posts.
pub record Message (O : Type 0) : Type 0 where
  pub task_id : ℕ
  pub is_ok : Bool
  pub results : Option (List O)
  pub error_text : Option String

-- The fields of the class, with the number of threads spawned and with two histories that the code
-- does not keep: the calls made, and the promises settled, each with its answer.
pub record WorkerThreadPool (I O : Type 0) : Type 0 where
  pub slots : List (WorkerSlot I)
  pub queue : List (PendingTask I)
  pub next_task_id : ℕ
  pub shutting_down : Bool
  pub spawned : ℕ
  pub called : List ℕ
  pub answers : List (ℕ × Answer O)

unfoldable pub answer_of : {O : Type 0} → Message O → Answer O
answer_of m = elim m.results [
  | none ↦ rejected (elim m.error_text [ none ↦ "Unknown scoring error." | some e ↦ e ])
  | some results ↦
      if m.is_ok
      then resolved results
      else rejected (elim m.error_text [ none ↦ "Unknown scoring error." | some e ↦ e ])
]

module _ {I : Type 0} where
  unfoldable pub spawn_slot : ℕ → WorkerSlot I
  spawn_slot worker = record { worker = worker; busy = false; current = none }

  -- `onModuleInit`: `POOL_SIZE` slots.
  unfoldable pub spawn_slots : ℕ → ℕ → List (WorkerSlot I)
  unfolding spawn_slot
  spawn_slots zero worker = []
  spawn_slots (suc n) worker = spawn_slot worker ∷ spawn_slots n (suc worker)

  unfoldable pub assign : ℕ → PendingTask I → WorkerSlot I → WorkerSlot I
  assign task_id task slot = record slot {
    busy = true;
    current = some (record { task_id = task_id; task = task });
  }

  unfoldable pub free_slot : WorkerSlot I → WorkerSlot I
  free_slot slot = record slot { busy = false; current = none }

  -- The loop of `dispatch`: the slots, the queue and `nextTaskId` afterwards.
  unfoldable pub dispatch_slots :
      List (WorkerSlot I)
      → List (PendingTask I)
      → ℕ
      → List (WorkerSlot I) × List (PendingTask I) × ℕ
  unfolding assign
  dispatch_slots [] queue n = ([], queue, n)
  dispatch_slots (slot ∷ slots) [] n = (slot ∷ slots, [], n)
  dispatch_slots (slot ∷ slots) (task ∷ queue) n =
      if slot.busy
      then (let (ss, q, m) = dispatch_slots slots (task ∷ queue) n in (slot ∷ ss, q, m))
      else (let (ss, q, m) = dispatch_slots slots queue (n + 1) in (assign n task slot ∷ ss, q, m))

  -- The slot object of a worker is changed in place.
  unfoldable pub change_slot :
      ℕ → (WorkerSlot I → WorkerSlot I) → List (WorkerSlot I) → List (WorkerSlot I)
  change_slot worker f [] = []
  change_slot worker f (slot ∷ slots) =
      if slot.worker == worker then f slot ∷ slots else slot ∷ change_slot worker f slots

  -- A slot that has been replaced is in the array no more; its `current` is null, so that its
  -- events do nothing.
  unfoldable pub slot_of : ℕ → List (WorkerSlot I) → Option (WorkerSlot I)
  slot_of worker = find_where (λ slot. slot.worker == worker)

module _ {I O : Type 0} where
  unfoldable pub on_module_init : ℕ → WorkerThreadPool I O
  unfolding spawn_slots
  on_module_init pool_size = record {
    slots = spawn_slots pool_size 0;
    queue = [];
    next_task_id = 0;
    shutting_down = false;
    spawned = pool_size;
    called = [];
    answers = [];
  }

  unfoldable pub dispatch : WorkerThreadPool I O → WorkerThreadPool I O
  dispatch p =
      if p.shutting_down
      then p
      else (let (slots, queue, n) = dispatch_slots p.slots p.queue p.next_task_id in
          record p { slots = slots; queue = queue; next_task_id = n })

  unfoldable pub settle : ℕ → Answer O → WorkerThreadPool I O → WorkerThreadPool I O
  settle caller answer p = record p { answers = (caller, answer) ∷ p.answers }

  unfoldable pub score_batch : ℕ → List I → WorkerThreadPool I O → WorkerThreadPool I O
  unfolding settle dispatch
  score_batch caller inputs p =
      let p' : WorkerThreadPool I O = record p { called = caller ∷ p.called } in
      if p.shutting_down
      then settle caller (rejected "Risk scoring pool is shutting down.") p'
      else if null inputs
      then settle caller (resolved []) p'
      else dispatch
          (record p' { queue = p'.queue ++ record { caller = caller; inputs = inputs } ∷ [] })

  -- The loop of `shutdown` over the queue.
  unfoldable pub reject_all : List (PendingTask I) → List (ℕ × Answer O) → List (ℕ × Answer O)
  reject_all [] answers = answers
  reject_all (task ∷ queue) answers =
      reject_all queue
        ((task.caller, rejected "Risk scoring pool shut down before task ran.") ∷ answers)

  -- `shutdown` up to the termination of the workers.
  unfoldable pub begin_shutdown : WorkerThreadPool I O → WorkerThreadPool I O
  unfolding reject_all
  begin_shutdown p =
      if p.shutting_down
      then p
      else record p { shutting_down = true; queue = []; answers = reject_all p.queue p.answers }

  -- `shutdown` once the workers have been terminated.
  unfoldable pub end_shutdown : WorkerThreadPool I O → WorkerThreadPool I O
  end_shutdown p = record p { slots = [] }

  unfoldable pub replace_slot : ℕ → WorkerThreadPool I O → WorkerThreadPool I O
  unfolding dispatch spawn_slot change_slot
  replace_slot worker p =
      if p.shutting_down
      then p
      else dispatch (record p {
        slots = change_slot worker (λ _. spawn_slot p.spawned) p.slots;
        spawned = p.spawned + 1;
      })

  -- The slot of a worker is freed; what it worked on, if anything, is answered.
  unfoldable pub free :
      ℕ → Answer O → Option (Current I) → WorkerThreadPool I O → WorkerThreadPool I O
  unfolding settle change_slot free_slot
  free worker answer none p = record p { slots = change_slot worker free_slot p.slots }
  free worker answer (some c) p =
      settle c.task.caller answer (record p { slots = change_slot worker free_slot p.slots })

  unfoldable pub accept_message :
      ℕ → Message O → Option (Current I) → WorkerThreadPool I O → WorkerThreadPool I O
  unfolding free answer_of dispatch
  accept_message worker m none p = p
  accept_message worker m (some c) p =
      if c.task_id == m.task_id then dispatch (free worker (answer_of m) (some c) p) else p

  -- `worker.on('message')`
  unfoldable pub on_message : ℕ → Message O → WorkerThreadPool I O → WorkerThreadPool I O
  unfolding accept_message slot_of
  on_message worker m p = elim (slot_of worker p.slots) [
    | none ↦ p
    | some slot ↦ accept_message worker m slot.current p
  ]

  -- The end of a worker thread that did not end by itself.
  unfoldable pub lose_worker : ℕ → String → WorkerThreadPool I O → WorkerThreadPool I O
  unfolding free replace_slot slot_of
  lose_worker worker reason p = elim (slot_of worker p.slots) [
    | none ↦ p
    | some slot ↦ replace_slot worker (free worker (rejected reason) slot.current p)
  ]

  -- `worker.on('error')`
  unfoldable pub on_error : ℕ → String → WorkerThreadPool I O → WorkerThreadPool I O
  unfolding lose_worker
  on_error worker message p = lose_worker worker message p

  -- `worker.on('exit')`; the code stands in the message.
  unfoldable pub on_exit : ℕ → ℕ → String → WorkerThreadPool I O → WorkerThreadPool I O
  unfolding lose_worker
  on_exit worker exit_code message p =
      if p.shutting_down || exit_code == 0 then p else lose_worker worker message p

  -- What may happen next. A call is new, and workers post and end as they please; the slots are
  -- cleared only while the pool shuts down.
  pub data Step (p : WorkerThreadPool I O) : WorkerThreadPool I O → Type 0 where
    calls :
        (caller : ℕ) (inputs : List I)
        → elem caller p.called ≡ false
        → Step p (score_batch caller inputs p)
    posts : (worker : ℕ) (m : Message O) → Step p (on_message worker m p)
    fails : (worker : ℕ) (message : String) → Step p (on_error worker message p)
    exits : (worker exit_code : ℕ) (message : String) → Step p (on_exit worker exit_code message p)
    shuts_down : Step p (begin_shutdown p)
    terminated : p.shutting_down ≡ true → Step p (end_shutdown p)

  pub data Steps (p : WorkerThreadPool I O) : WorkerThreadPool I O → Type 0 where
    here : Steps p p
    next : {q r : WorkerThreadPool I O} → Steps p q → Step q r → Steps p r
