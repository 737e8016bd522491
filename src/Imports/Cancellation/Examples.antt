-- ===== src/Imports/Cancellation/Examples.antt =====
-- A request to cancel an import that has completed.
use high_throughput_transact.Base.{◌⊎◌, err}
use high_throughput_transact.Domain.Errors.{Thrown}
use high_throughput_transact.Base.{◌≡◌, refl, true, some, [], ◌∷◌, ok}
use high_throughput_transact.Js.Sample.{sample_js}
use high_throughput_transact.Domain.ImportStatus.{ImportStatus, is_terminal}
use high_throughput_transact.Database.Table.{find_where}
use high_throughput_transact.Database.World.{ImportRow, World}
use high_throughput_transact.Database.ImportRepository.{find_import}
use high_throughput_transact.Database.Sample.{an_import, with_jobs}
use high_throughput_transact.Imports.Cancellation.{cancel_import, cancel_import-terminal}

abbrev finished : ImportRow
finished = record an_import { status = ImportStatus.completed }

abbrev after_work : World sample_js
after_work =
    let w = with_jobs [] in record w { tables = record (w.tables) { imports = finished ∷ [] } }

finished-is_terminal : is_terminal finished.status ≡ true
unfolding is_terminal
finished-is_terminal = refl

finished-found : find_import 1 after_work.tables.imports ≡ some finished
unfolding find_where
finished-found = refl

cancel_import-terminal_example :
    (find_import 1 (cancel_import 1 after_work).1.tables.imports ≡ some finished)
    × (((cancel_import 1 after_work).0 ≡ ok ImportStatus.cancelling)
        ⊎ ((e : Thrown) × ((cancel_import 1 after_work).0 ≡ err e)))
cancel_import-terminal_example =
    cancel_import-terminal 1 1 after_work finished finished-is_terminal finished-found
