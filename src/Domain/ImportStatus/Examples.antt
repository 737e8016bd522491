-- ===== src/Domain/ImportStatus/Examples.antt =====
-- The transition table at single statuses.
use high_throughput_transact.Base.{◌⊎◌}
use high_throughput_transact.Base.{◌≡◌, true}
use high_throughput_transact.Domain.ImportStatus.{
  ImportStatus, cancelling, completed, failed, is_terminal,
}
use high_throughput_transact.Domain.ImportStatus.Moves.{Chain, Chain-ends}

Chain-ends_example :
    ((is_terminal cancelling ≡ true) × ((t : ImportStatus) → Chain cancelling t → cancelling ≡ t))
    ⊎ (Chain cancelling completed × Chain cancelling failed)
Chain-ends_example = Chain-ends cancelling
