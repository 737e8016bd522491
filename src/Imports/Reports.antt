-- ===== src/Imports/Reports.antt =====
-- src/application/use-cases/get-import-summary.use-case.ts and get-reject-transaction.use-case.ts, over the import
-- repository and the queries.
pub mod Pages
mod Examples
use high_throughput_transact.Base.{ℕ, Option, none, some, not, if◌then◌else◌, min, ◌>>=◌}
use high_throughput_transact.Js.{Js}
use high_throughput_transact.Domain.Errors.{import_not_found, raise}
use high_throughput_transact.Database.World.{ImportRow, Db}
use high_throughput_transact.Database.ImportRepository.{find_by_id}
use high_throughput_transact.Database.ImportQuery.{RejectedRecordPage, get_rejected_records}
use high_throughput_transact.Database.ImportSummary.{Aggregates, ImportSummary, get_summary}

abbrev pub max_page_size : ℕ
max_page_size = 200

abbrev pub default_page_size : ℕ
default_page_size = 50

-- `clampLimit`; `floor` is `Math.floor` on numbers of at least one.
unfoldable pub clamp_limit : (js : Js) → (js.Number → ℕ) → Option js.Number → ℕ
clamp_limit js floor none = default_page_size
clamp_limit js floor (some requested) =
    if not (js.is_finite requested)
    then default_page_size
    else if not (js.le (js.lit 1) requested)
    then default_page_size
    else min (floor requested) max_page_size

module _ {js : Js} where
  unfoldable pub summarise_found : Aggregates js → ℕ → Option ImportRow → Db js (ImportSummary js)
  summarise_found db import_id none = raise (import_not_found import_id)
  summarise_found db import_id (some r) = get_summary db import_id

  unfoldable pub get_import_summary : Aggregates js → ℕ → Db js (ImportSummary js)
  unfolding summarise_found
  get_import_summary db import_id = find_by_id import_id >>= summarise_found db import_id

  unfoldable pub reject_found : ℕ → Option ℕ → ℕ → Option ImportRow → Db js RejectedRecordPage
  reject_found import_id cursor limit none = raise (import_not_found import_id)
  reject_found import_id cursor limit (some r) = get_rejected_records import_id cursor limit

  unfoldable pub get_rejected :
      (js.Number → ℕ) → ℕ → Option ℕ → Option js.Number → Db js RejectedRecordPage
  unfolding clamp_limit reject_found
  get_rejected floor import_id cursor requested =
      find_by_id import_id >>= reject_found import_id cursor (clamp_limit js floor requested)
