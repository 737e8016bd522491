-- ===== src/Domain/ImportStatus.antt =====
-- src/domain/import/import-status.ts: the statuses of an import and the moves between them.
pub mod Moves
mod Examples
use high_throughput_transact.Base.{Bool, true, false, ◌||◌, List, [], ◌∷◌}

pub data ImportStatus : Type 0 where
  pending processing cancelling completed failed cancelled : ImportStatus

pub status_eq : ImportStatus → ImportStatus → Bool
status_eq pending pending = true
status_eq processing processing = true
status_eq cancelling cancelling = true
status_eq completed completed = true
status_eq failed failed = true
status_eq cancelled cancelled = true
status_eq _ _ = false

-- `readonly ImportStatus[].includes(status)`
pub includes : List ImportStatus → ImportStatus → Bool
unfolding status_eq
includes [] s = false
includes (t ∷ ts) s = status_eq t s || includes ts s

pub terminal_statuses : List ImportStatus
terminal_statuses = completed ∷ failed ∷ cancelled ∷ []

pub allowed_transitions : ImportStatus → List ImportStatus
allowed_transitions pending = processing ∷ cancelling ∷ cancelled ∷ failed ∷ []
allowed_transitions processing = completed ∷ failed ∷ cancelling ∷ pending ∷ []
allowed_transitions cancelling = cancelled ∷ completed ∷ failed ∷ []
allowed_transitions completed = []
allowed_transitions failed = []
allowed_transitions cancelled = []

unfoldable pub is_terminal : ImportStatus → Bool
unfolding includes terminal_statuses
is_terminal s = includes terminal_statuses s

unfoldable pub can_transition : ImportStatus → ImportStatus → Bool
unfolding includes allowed_transitions
can_transition from to = includes (allowed_transitions from) to

pub is_cancellable : ImportStatus → Bool
unfolding status_eq
is_cancellable s = status_eq s pending || status_eq s processing || status_eq s cancelling
