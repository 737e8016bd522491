-- ===== src/Concurrency/Semaphore.antt =====
-- src/infrastructure/concurrency/semaphore.ts. A caller is a number; `acquire` and `release` run
-- to their end between two turns of the event loop, and a caller that has to wait is resumed when
-- `release` calls the function that it left in `waiters`.
pub mod Invariant
mod Examples
use high_throughput_transact.Base.{
  ℕ, ◌+◌, ◌-◌, ◌≡◌, Bool, true, false, Option, none, some, List, [], ◌∷◌, ◌++◌, ltb, ◌==◌,
  if◌then◌else◌, length, elem,
}

pub record Semaphore : Type 0 where
  pub limit : ℕ
  pub available : ℕ
  pub waiters : List ℕ

-- The constructor; `none` is the `Error` that it throws.
pub create : ℕ → Option Semaphore
create limit =
    if ltb limit 1 then none else some (record { limit = limit; available = limit; waiters = [] })

-- `acquire`, by a caller: the permit is granted at once, or the caller is queued.
unfoldable pub acquire : ℕ → Semaphore → Semaphore × Bool
acquire caller s =
    if ltb 0 s.available
    then (record s { available = s.available - 1 }, true)
    else (record s { waiters = s.waiters ++ caller ∷ [] }, false)

-- `release`: the first waiter is resumed, or the permit comes back.
unfoldable pub hand_on : List ℕ → Semaphore → Semaphore × Option ℕ
hand_on [] s = (record s { available = s.available + 1 }, none)
hand_on (next ∷ rest) s = (record s { waiters = rest }, some next)

unfoldable pub release : Semaphore → Semaphore × Option ℕ
unfolding hand_on
release s = hand_on s.waiters s

pub in_flight : Semaphore → ℕ
in_flight s = s.limit - s.available

pub queue_depth : Semaphore → ℕ
queue_depth s = length s.waiters

-- The semaphore with the callers that hold a permit, oldest first, and with two histories that the
-- code does not keep: who has called `run`, and who has been let in, in order.
pub record System : Type 0 where
  pub semaphore : Semaphore
  pub running : List ℕ
  pub arrived : List ℕ
  pub let_in : List ℕ

abbrev pub start : Semaphore → System
start s = record { semaphore = s; running = []; arrived = []; let_in = [] }

-- A `run` begins: its caller holds a permit, or waits.
unfoldable pub begin_run : ℕ → System → System
unfolding acquire
begin_run caller y =
    let (s, granted) = acquire caller y.semaphore in
    record {
      semaphore = s;
      running = if granted then y.running ++ caller ∷ [] else y.running;
      arrived = y.arrived ++ caller ∷ [];
      let_in = if granted then y.let_in ++ caller ∷ [] else y.let_in;
    }

pub remove : ℕ → List ℕ → List ℕ
remove a [] = []
remove a (x ∷ xs) = if a == x then xs else x ∷ remove a xs

-- The caller that `release` resumes, if any.
abbrev resume : List ℕ → Option ℕ → List ℕ
resume running none = running
resume running (some next) = running ++ next ∷ []

-- `fn` of a caller settles, by a value or by a throw: the `finally` block releases.
unfoldable pub end_run : ℕ → System → System
unfolding release
end_run caller y =
    let (s, resumed) = release y.semaphore in
    record {
      semaphore = s;
      running = resume (remove caller y.running) resumed;
      arrived = y.arrived;
      let_in = resume y.let_in resumed;
    }

-- A `run` starts, or one that holds a permit ends.
pub data Step (y : System) : System → Type 0 where
  begins : (caller : ℕ) → Step y (begin_run caller y)
  ends : (caller : ℕ) → elem caller y.running ≡ true → Step y (end_run caller y)

pub data Steps (y : System) : System → Type 0 where
  here : Steps y y
  next : {z u : System} → Steps y z → Step z u → Steps y u
