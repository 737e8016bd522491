-- ===== src/Database/HealthCheck.antt =====
-- src/infrastructure/repository/health-check.ts: queries outside of any use case. They do not wrap
-- what the connection throws.
use high_throughput_transact.Base.{
  ℕ, String, Bool, true, false, List, map, ok, pure, catch, ◌>>=◌, ◌>>◌,
}
use high_throughput_transact.Js.{Js}
use high_throughput_transact.Domain.ImportStatus.{ImportStatus}
use high_throughput_transact.Database.Table.{count_where}
use high_throughput_transact.Database.World.{JobStatus, ImportRow, FileRow, JobRow, Db, statement}

pub record QueueDepth : Type 0 where
  pub pending_jobs : ℕ
  pub claimed_jobs : ℕ

abbrev pub is_pending_job : JobRow → Bool
is_pending_job j = elim j.status [ JobStatus.pending ↦ true | _ ↦ false ]

abbrev pub is_claimed_job : JobRow → Bool
is_claimed_job j = elim j.status [ JobStatus.claimed ↦ true | _ ↦ false ]

abbrev pub is_active : ImportRow → Bool
is_active r = elim r.status [ ImportStatus.processing ↦ true | _ ↦ false ]

unfoldable pub referenced : List FileRow → List String
referenced = map λ (f : FileRow). f.file.storage_path

module _ {js : Js} where
  -- `SELECT 1`
  unfoldable pub ping_database : Db js Bool
  ping_database = catch (statement (λ t. (ok tt, t)) >> pure true) (λ _. pure false)

  unfoldable pub get_queue_depth : Db js QueueDepth
  get_queue_depth = do
    pending ← statement (λ t. (ok (count_where is_pending_job t.jobs), t))
    claimed ← statement (λ t. (ok (count_where is_claimed_job t.jobs), t))
    pure (record { pending_jobs = pending; claimed_jobs = claimed })

  unfoldable pub count_active_imports : Db js ℕ
  count_active_imports = statement (λ t. (ok (count_where is_active t.imports), t))

  unfoldable pub list_referenced_storage_paths : Db js (List String)
  unfolding referenced
  list_referenced_storage_paths = statement (λ t. (ok (referenced t.files), t))
