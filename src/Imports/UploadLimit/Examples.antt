-- ===== src/Imports/UploadLimit/Examples.antt =====
-- Two uploads under a limit of one.
use high_throughput_transact.Base.{◌⊎◌}
use high_throughput_transact.Base.{◌≤◌, ◌<◌, ◌≡◌, length, ok}
use high_throughput_transact.Domain.Errors.{too_many_concurrent_uploads, raise}
use high_throughput_transact.Imports.UploadLimit.{
  Uploads, idle, intercept, comes, Steps, opened, next, uploads_bounded,
}

abbrev busy : Uploads
busy = (intercept 1 8 (intercept 1 7 idle).1).1

reached : Steps 1 busy
reached = next (next opened (comes 7)) (comes 8)

uploads_bounded_example :
    (busy.in_flight ≡ length busy.under_way)
    × (busy.in_flight ≤ 1)
    × (((length busy.under_way < 1) × ((intercept 1 9 busy).0 ≡ ok tt))
        ⊎ ((1 ≤ length busy.under_way)
            × (intercept 1 9 busy ≡ raise (too_many_concurrent_uploads 1) busy)))
uploads_bounded_example = uploads_bounded 1 9 reached
