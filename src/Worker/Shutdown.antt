-- ===== src/Worker/Shutdown.antt =====
-- src/shutdown/graceful-shutdown.ts and src/application/shutdown/shutdown-state.ts: from a signal to the exit
-- of the process. The steps are named; each is awaited, so that signals and the timer may come before
-- it settles.
pub mod Exits
mod Examples
use high_throughput_transact.Base.{
  ℕ, ◌+◌, ◌-◌, ◌≤◌, ◌≡◌, String, Bool, true, false, Option, none, some, List, [], ◌∷◌, ◌++◌,
  if◌then◌else◌,
}

pub record ShutdownState : Type 0 where
  pub shutting_down : Bool
  pub started_at : Option ℕ

unfoldable pub begin : ℕ → ShutdownState → ShutdownState
begin now s = if s.shutting_down then s else record { shutting_down = true; started_at = some now }

unfoldable pub elapsed_ms : ℕ → ShutdownState → ℕ
elapsed_ms now s = elim s.started_at [ none ↦ 0 | some t ↦ now - t ]

-- The process: `handling`, the timer `forceExit` where it is set, the steps to run and those that
-- have completed, whether the context is closing, and the code of `process.exit`. `signals` counts
-- what the process has received, which the code does not keep.
pub record Process : Type 0 where
  pub handling : Bool
  pub state : ShutdownState
  pub timer : Option ℕ
  pub remaining : List String
  pub completed : List String
  pub exit_code : Option ℕ
  pub signals : ℕ

abbrev pub registered : List String → Process
registered steps = record {
  handling = false;
  state = record { shutting_down = false; started_at = none };
  timer = none;
  remaining = steps;
  completed = [];
  exit_code = none;
  signals = 0;
}

unfoldable pub exit : ℕ → Process → Process
exit exit_code p = record p { exit_code = some exit_code; timer = none }

-- `shutdown(signal)`
unfoldable pub on_signal : ℕ → ℕ → Process → Process
unfolding begin exit
on_signal now grace_ms p =
    let q = record p { signals = p.signals + 1 } in
    if p.handling
    then exit 1 q
    else record q { handling = true; state = begin now p.state; timer = some (now + grace_ms) }

-- The first step that remains, or the closing of the context, ends well.
unfoldable pub settle_next : List String → Process → Process
unfolding exit
settle_next [] p = exit 0 p
settle_next (s ∷ ss) p = record p { remaining = ss; completed = p.completed ++ s ∷ [] }

unfoldable pub on_settled : Process → Process
unfolding settle_next
on_settled p = settle_next p.remaining p

-- It throws: the `catch` block.
unfoldable pub on_error : Process → Process
unfolding exit
on_error p = exit 1 p

-- The grace period is over.
unfoldable pub on_timer : Process → Process
unfolding exit
on_timer p = exit 1 p

-- What may happen to a process that has not exited.
pub data Step (grace_ms : ℕ) (p : Process) : Process → Type 0 where
  signalled : (now : ℕ) → p.exit_code ≡ none → Step grace_ms p (on_signal now grace_ms p)
  settled : p.exit_code ≡ none → p.handling ≡ true → Step grace_ms p (on_settled p)
  thrown : p.exit_code ≡ none → p.handling ≡ true → Step grace_ms p (on_error p)
  expired :
      (now deadline : ℕ)
      → p.exit_code ≡ none
      → p.timer ≡ some deadline
      → deadline ≤ now
      → Step grace_ms p (on_timer p)

pub data Steps (grace_ms : ℕ) (p : Process) : Process → Type 0 where
  here : Steps grace_ms p p
  next : {q r : Process} → Steps grace_ms p q → Step grace_ms q r → Steps grace_ms p r
